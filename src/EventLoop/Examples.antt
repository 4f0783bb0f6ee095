-- ===== src/EventLoop/Examples.antt =====
-- A loop whose functors are numbers.
use echo_server.Prelude.{
  ℕ, ◌≡◌, ◌<◌, ◌+◌, refl, true, false, List, [], ◌∷◌, ◌++◌, inl, if◌then◌else◌, ◌==◌,
}
use echo_server.EventLoop.{EventLoop, init, push, queue_all, round, enter}
use echo_server.EventLoop.Interleaving.{
  System, start, queue_before, begin, go_on, remote_push, Reach, here, next, polling, checking,
}
use echo_server.EventLoop.Interleaving.Invariant.{polling_woken, run_order}

-- Functor 1 queues functors 5 and 6, the others queue nothing.
abbrev calls : ℕ → List ℕ
calls f = if f == 1 then 5 ∷ 6 ∷ [] else []

abbrev busy : EventLoop ℕ
busy = record {
  looping = true;
  quitting = false;
  calling = false;
  pending = 1 ∷ 2 ∷ [];
  wakeups = 1;
}

round_of_busy : round calls true (3 ∷ []) busy ≡ record busy { pending = 5 ∷ 6 ∷ []; wakeups = 2 }
unfolding round
round_of_busy = refl

-- Another thread has queued a functor, and not yet woken the loop, which is in `poll`.
abbrev waiting : System ℕ
waiting = record {
  loop = push 7 (enter (init ℕ));
  phase = polling;
  owed = 1;
  done = [];
  queued = 7 ∷ [];
  early = [];
}

waiting-Reach : Reach waiting
unfolding start push enter init
waiting-Reach =
    next
      (next (next here (begin (start ℕ) refl))
        (go_on (record (start ℕ) { loop = enter (init ℕ); phase = checking }) refl refl))
      (remote_push _ 7)

polling_woken_example : 0 < waiting.loop.wakeups + 1
unfolding push enter init
polling_woken_example = polling_woken waiting-Reach refl (inl (λ e. cc, λ e. cc))

run_order_example : [] ++ ([] ++ waiting.loop.pending) ≡ 7 ∷ []
unfolding push enter init
run_order_example = run_order waiting-Reach

-- The loop's own thread has queued a functor before `loop()`: no wakeup tells `poll` of it.
abbrev unannounced : System ℕ
unannounced = record {
  loop = record (enter (init ℕ)) { pending = 7 ∷ [] };
  phase = polling;
  owed = 0;
  done = [];
  queued = 7 ∷ [];
  early = 7 ∷ [];
}

unannounced-Reach : Reach unannounced
unfolding start push enter init queue_all
unannounced-Reach =
    next (next (next here (queue_before (start ℕ) (7 ∷ []) refl)) (begin _ refl))
      (go_on _ refl refl)

unannounced-wakeups : unannounced.loop.wakeups ≡ 0
unfolding enter init
unannounced-wakeups = refl
