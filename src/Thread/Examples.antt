-- ===== src/Thread/Examples.antt =====
-- A thread without a name.
use echo_server.Prelude.{◌≡◌, ◌⊎◌, ◌<◌, refl, true, false, none, some, []}
use echo_server.Thread.{
  Thread, System, begin, Step, Reach, prepare, create, store_tid, post, wait, destroy_sem, here,
  next, returned, posted, waiting, has_tid,
}
use echo_server.Thread.Handshake.{start_returned, remaining, start_progress}

abbrev plain : Thread
plain = record { started = false; joined = false; tid = 0; name = [] }

abbrev started : System
started = record {
  thread = record { started = true; joined = false; tid = 77; name = [] };
  owner = returned;
  child = posted;
  sem = none;
}

-- The new thread stores its id 77 and posts before the owner waits.
started-Reach : Reach 77 plain started
unfolding begin
started-Reach =
    next
      (next
        (next (next (next (next here (prepare _ refl)) (create _ refl)) (store_tid _ refl))
          (post _ 0 refl refl))
        (wait _ 0 refl refl))
      (destroy_sem _ refl)

start_returned_example : (started.thread.tid ≡ 77) × (started.child ≡ posted) × (started.sem ≡ none)
start_returned_example = start_returned started-Reach refl

-- The new thread has stored its id, and the owner waits for it.
abbrev waits : System
waits = record {
  thread = record { started = true; joined = false; tid = 77; name = [] };
  owner = waiting;
  child = has_tid;
  sem = some 0;
}

waits-Reach : Reach 77 plain waits
unfolding begin
waits-Reach = next (next (next here (prepare _ refl)) (create _ refl)) (store_tid _ refl)

start_progress_example :
    ((waits.owner ≡ returned) ⊎ ((u : System) × Step 77 waits u))
    × ((u : System) → Step 77 waits u → remaining u < remaining waits)
start_progress_example = start_progress waits-Reach
