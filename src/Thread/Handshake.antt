-- ===== src/Thread/Handshake.antt =====
-- `start()` returns with the new thread's id known, and no semaphore is used after its end.
use echo_server.Prelude.{
  ℕ, ◌+◌, ◌≡◌, ◌<◌, ◌∙◌, refl, true, false, Bool, Option, none, some, arith, ◌⊎◌, inl, inr,
}
use echo_server.Thread.{
  Thread, Owner, idle, prepared, waiting, woken, returned, Child, unborn, born, has_tid, posted,
  System, begin, Step, prepare, create, store_tid, post, wait, destroy_sem, Reach, here, next,
}

-- Where the owner and the new thread can be at one time, with the semaphore's value.
abbrev Meeting : Owner → Child → Option ℕ → Type 0
Meeting idle c sem = c ≡ unborn
Meeting prepared c sem = (c ≡ unborn) × (sem ≡ some 0)
Meeting waiting c sem =
    ((c ≡ posted) × (sem ≡ some 1)) ⊎ (((c ≡ born) ⊎ (c ≡ has_tid)) × (sem ≡ some 0))
Meeting woken c sem = (c ≡ posted) × (sem ≡ some 0)
Meeting returned c sem = (c ≡ posted) × (sem ≡ none)

abbrev knows_tid : Child → Bool
knows_tid unborn = false
knows_tid born = false
knows_tid has_tid = true
knows_tid posted = true

record Inv (id : ℕ) (s : System) : Type 0 where
  meeting : Meeting s.owner s.child s.sem
  stored : knows_tid s.child ≡ true → s.thread.tid ≡ id

Step-Inv : {id : ℕ} {s t : System} → Step id s t → Inv id s → Inv id t
Step-Inv (prepare s a) v = ground (arith, v.meeting, v.stored)
Step-Inv (create s a) v = ground (arith, v.meeting, v.stored)
Step-Inv (store_tid s a) v = ground (arith, v.meeting, v.stored)
Step-Inv (post s n a b) v = ground (arith, v.meeting, v.stored)
Step-Inv (wait s n a b) v = ground (arith, v.meeting, v.stored)
Step-Inv (destroy_sem s a) v = ground (arith, v.meeting, v.stored)

begin-Inv : {id : ℕ} (t : Thread) → Inv id (begin t)
unfolding begin
begin-Inv t = ground arith

Reach-Inv : {id : ℕ} {t : Thread} {s : System} → Reach id t s → Inv id s
Reach-Inv {t} here = begin-Inv t
Reach-Inv (next r st) = Step-Inv st (Reach-Inv r)

-- Once `start()` has returned, however owner and new thread ran, the new thread's id is stored, the
-- new thread has posted and will not touch the semaphore again, and the semaphore is destroyed.
pub start_returned :
    {id : ℕ} {t : Thread} {s : System}
    → Reach id t s
    → s.owner ≡ returned
    → (s.thread.tid ≡ id) × (s.child ≡ posted) × (s.sem ≡ none)
start_returned r h = let v = Reach-Inv r in ground (arith, v.meeting, v.stored)

-- Where the new thread is about to post, the semaphore lives.
pub post_alive :
    {id : ℕ} {t : Thread} {s : System} → Reach id t s → s.child ≡ has_tid → s.sem ≡ some 0
post_alive r h = let v = Reach-Inv r in ground (arith, v.meeting)

-- A bound on the steps that owner and new thread have still to make.
abbrev pub owner_left : Owner → ℕ
owner_left idle = 7
owner_left prepared = 6
owner_left waiting = 2
owner_left woken = 1
owner_left returned = 0

abbrev pub child_left : Child → ℕ
child_left unborn = 3
child_left born = 2
child_left has_tid = 1
child_left posted = 0

abbrev pub remaining : System → ℕ
remaining s = owner_left s.owner + child_left s.child

-- Every step leaves fewer to make.
pub Step-remaining : {id : ℕ} {s t : System} → Step id s t → remaining t < remaining s
Step-remaining (prepare s a) = ground arith
Step-remaining (create s a) = ground arith
Step-remaining (store_tid s a) = ground arith
Step-remaining (post s n a b) = ground arith
Step-remaining (wait s n a b) = ground arith
Step-remaining (destroy_sem s a) = ground arith

progress_from :
    (id : ℕ) (s : System) (o : Owner) (c : Child)
    → s.owner ≡ o
    → s.child ≡ c
    → Meeting o c s.sem
    → (o ≡ returned) ⊎ ((u : System) × Step id s u)
progress_from id s idle c e f m = inr (_, prepare s e)
progress_from id s prepared c e f m = inr (_, create s e)
progress_from id s waiting c e f (inl (_, full)) = inr (_, wait s 0 e (ground arith))
progress_from id s waiting c e f (inr (inl b, empty)) = inr (_, store_tid s (f ∙ b))
progress_from id s waiting c e f (inr (inr b, empty)) = inr (_, post s 0 (f ∙ b) empty)
progress_from id s woken c e f m = inr (_, destroy_sem s e)
progress_from id s returned c e f m = inl refl

-- `start()` returns. However owner and new thread have run, it has returned or one of them can
-- make a step; and every step that either makes lowers a bound on the steps still to make.
pub start_progress :
    {id : ℕ} {t : Thread} {s : System}
    → Reach id t s
    → ((s.owner ≡ returned) ⊎ ((u : System) × Step id s u))
      × ((u : System) → Step id s u → remaining u < remaining s)
start_progress {id} {t} {s} r = (
  progress_from id s s.owner s.child refl refl (Reach-Inv r).meeting,
  λ u step. Step-remaining step,
)
