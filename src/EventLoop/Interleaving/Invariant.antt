-- ===== src/EventLoop/Interleaving/Invariant.antt =====
-- Which functors and calls of `quit()` a wakeup announces, and the order in which functors run.
use echo_server.Prelude.{
  ◌+◌, ◌<◌, ◌≡◌, ◌≢◌, ◌⊎◌, inl, inr, refl, ap, ◌∙◌, true, false, [], ◌∷◌, ◌++◌, append-nil, arith,
}
use echo_server.EventLoop.{push, wakeup, take_pending, handle_read, quit, enter, leave}
use echo_server.EventLoop.Interleaving.{
  checking, polling, stopped, System, Step, remote_push, remote_quit, remote_wakeup, queue_before,
  quit_before, begin, go_on, stop, poll_returns, read_wakeup, handle, quit_here, take, run,
  quit_running, finish, Reach, here, next,
}
use echo_server.EventLoop.Interleaving.Kept.{
  taken, is_calling, is_handling, Inv, start-Inv, push_order, still, handle-Inv, queue_before-Inv,
  run-Inv,
}

module _ {F : Type 0} where
  -- Every step keeps the invariant.
  pub Step-Inv : {s t : System F} → Step s t → Inv s → Inv t
  unfolding push wakeup enter leave handle_read quit take_pending
  Step-Inv (remote_push s f) v = record {
    order = push_order s.done (taken s.phase) s.loop.pending s.queued (f ∷ []) v.order;
    flag = v.flag;
    woken = λ k ne. inl (omega arith);
    quit_woken = λ k q. omega arith;
    before = λ k. inl (omega arith);
  }
  Step-Inv (remote_quit s) v = record {
    order = v.order;
    flag = v.flag;
    woken = λ k ne. inl (omega arith);
    quit_woken = λ k q. omega arith;
    before = λ k. inl (omega arith);
  }
  Step-Inv (remote_wakeup s h) v = record {
    order = v.order;
    flag = v.flag;
    woken = λ k ne. inl (omega arith);
    quit_woken = λ k q. omega arith;
    before = λ k. inl (omega arith);
  }
  Step-Inv (queue_before s fs h) v = queue_before-Inv s fs h v
  Step-Inv (quit_before s h) v = record {
    order = v.order;
    flag = v.flag;
    woken =
        λ k ne. still s (quit true s.loop) s.phase (omega arith) (λ o. o.none_taken) (v.woken k ne);
    quit_woken = λ k q. cc;
    before = λ k. still s (quit true s.loop) s.phase (omega arith) (λ o. o.none_taken) (v.before k);
  }
  Step-Inv (begin s h) v = record {
    order = rw h at v.order;
    flag = v.flag ∙ ap is_calling h;
    woken = λ k ne.
        still s (enter s.loop) checking (omega arith) (λ o. refl) (v.woken (ap is_handling h) ne);
    quit_woken = λ k q. cc;
    before = λ k. cc;
  }
  Step-Inv (go_on s h q) v = record {
    order = rw h at v.order;
    flag = v.flag ∙ ap is_calling h;
    woken =
        λ k ne. still s s.loop polling (omega arith) (λ o. refl) (v.woken (ap is_handling h) ne);
    quit_woken = λ k p. cc;
    before = λ k. cc;
  }
  Step-Inv (stop s h q) v = record {
    order = rw h at v.order;
    flag = v.flag ∙ ap is_calling h;
    woken = λ k ne.
        still s (leave s.loop) stopped (omega arith) (λ o. refl) (v.woken (ap is_handling h) ne);
    quit_woken = λ k p. cc;
    before = λ k. cc;
  }
  Step-Inv (poll_returns s h) v = record {
    order = rw h at v.order;
    flag = v.flag ∙ ap is_calling h;
    woken = λ k ne. cc;
    quit_woken = λ k p. cc;
    before = λ k. cc;
  }
  Step-Inv (read_wakeup s h) v = record {
    order = v.order;
    flag = v.flag;
    woken = λ k ne. cc;
    quit_woken = λ k p. cc;
    before = λ k. cc;
  }
  Step-Inv (handle s fs h) v = handle-Inv s fs h v
  Step-Inv (quit_here s h) v = record {
    order = v.order;
    flag = v.flag;
    woken = λ k ne. cc;
    quit_woken = λ k p. cc;
    before = λ k. cc;
  }
  Step-Inv (take s h) v = record {
    order = rw (append-nil s.loop.pending) (rw h at v.order);
    flag = refl;
    woken = λ k ne. absurd (ne refl);
    quit_woken = λ k p. cc;
    before = λ k. cc;
  }
  Step-Inv (run s f rest calls h) v = run-Inv s f rest calls h v
  Step-Inv (quit_running s rest h) v = record {
    order = v.order;
    flag = v.flag;
    woken =
        λ k ne. still s (quit true s.loop) s.phase (omega arith) (λ o. o.none_taken) (v.woken k ne);
    quit_woken = λ k q. cc;
    before = λ k. cc;
  }
  Step-Inv (finish s h) v = record {
    order = rw h at v.order;
    flag = refl;
    woken = λ k ne.
        still s (record s.loop { calling = false }) checking (omega arith) (λ o. refl)
          (v.woken (ap is_handling h) ne);
    quit_woken = λ k p. cc;
    before = λ k. cc;
  }

  pub Reach-Inv : {s : System F} → Reach s → Inv s
  Reach-Inv here = start-Inv
  Reach-Inv (next r t) = Step-Inv t (Reach-Inv r)

  -- In every interleaving, while the loop is in `poll` a call of `quit()` since the loop was entered
  -- has been announced: a wakeup is in the descriptor, or the thread that made the call has still to
  -- write it. So has a functor that waits in the queue, unless each functor that was queued so far
  -- was queued by the loop's own thread before it called `loop()`.
  pub polling_woken :
      {s : System F}
      → Reach s
      → s.phase ≡ polling
      → ((s.loop.pending ≢ []) × (s.queued ≢ s.early)) ⊎ (s.loop.quitting ≡ true)
      → 0 < s.loop.wakeups + s.owed
  polling_woken r h (inl (ne, later)) = elim ((Reach-Inv r).woken (ap is_handling h) ne) [
    | inl a ↦ a
    | inr o ↦ absurd (later o.all_early)
  ]
  polling_woken r h (inr q) = (Reach-Inv r).quit_woken h q

  -- In every interleaving the functors run in the order in which they were queued, each at most
  -- once: those that ran, those that the loop has taken out, and those that wait are all that were
  -- queued.
  pub run_order : {s : System F} → Reach s → s.done ++ (taken s.phase ++ s.loop.pending) ≡ s.queued
  run_order r = (Reach-Inv r).order
