-- ===== src/EventLoop/Queue.antt =====
-- The queue of functors, seen from the loop's own thread.
use echo_server.Prelude.{
  ◌+◌, ◌≡◌, refl, ap, Bool, true, false, List, [], ◌∷◌, ◌++◌, append-nil, append_assoc, arith,
  length, length-append, ◌≤◌,
}
use echo_server.EventLoop.{
  EventLoop, queue_all, run_all, do_pending_functors, round, quit, enter, handle_read,
}

module _ {F : Type 0} where
  -- Everything that a list of functors queues, in order.
  abbrev pub calls_of : (F → List F) → List F → List F
  calls_of calls [] = []
  calls_of calls (f ∷ fs) = calls f ++ calls_of calls fs

  pub queue_all-calling :
      (fs : List F) (l : EventLoop F)
      → l.calling ≡ true
      → queue_all fs l ≡ record l { pending = l.pending ++ fs; wakeups = l.wakeups + length fs }
  unfolding queue_all
  queue_all-calling [] l h = ground (arith, append-nil l.pending)
  queue_all-calling (f ∷ fs) l h =
      let q : EventLoop F = record l { pending = l.pending ++ f ∷ []; wakeups = l.wakeups + 1 } in
      ground (arith, queue_all-calling fs q h, append_assoc l.pending (f ∷ []) fs)

  pub queue_all-quiet :
      (fs : List F) (l : EventLoop F)
      → l.calling ≡ false
      → queue_all fs l ≡ record l { pending = l.pending ++ fs }
  unfolding queue_all
  queue_all-quiet [] l h = ground (arith, append-nil l.pending)
  queue_all-quiet (f ∷ fs) l h =
      let q : EventLoop F = record l { pending = l.pending ++ f ∷ [] } in
      ground (arith, queue_all-quiet fs q h, append_assoc l.pending (f ∷ []) fs)

  run_all-calling :
      (calls : F → List F) (fs : List F) (l : EventLoop F)
      → l.calling ≡ true
      → run_all calls fs l ≡ record l {
        pending = l.pending ++ calls_of calls fs;
        wakeups = l.wakeups + length (calls_of calls fs);
      }
  unfolding run_all
  run_all-calling calls [] l h = ground (arith, append-nil l.pending)
  run_all-calling calls (f ∷ fs) l h =
      let q : EventLoop F = record l {
        pending = l.pending ++ calls f;
        wakeups = l.wakeups + length (calls f);
      } in
      ground (
        arith,
        queue_all-calling (calls f) l h,
        run_all-calling calls fs q h,
        append_assoc l.pending (calls f) (calls_of calls fs),
        length-append (calls f) (calls_of calls fs),
      )

  -- `doPendingFunctors` runs the functors that were queued before it, each once and in the order in
  -- which they were queued. What they queue themselves, in that order, is left for the next round,
  -- with one wakeup for each.
  pub do_pending_functors_lem :
      (calls : F → List F) (l : EventLoop F)
      → let next = calls_of calls l.pending in
        do_pending_functors calls l
        ≡ record l { calling = false; pending = next; wakeups = l.wakeups + length next }
  unfolding do_pending_functors
  do_pending_functors_lem calls l =
      rw (run_all-calling calls l.pending (record l { calling = true; pending = [] }) refl)

  pending_after :
      (calls : F → List F) (queued : List F) (l : EventLoop F)
      → l.calling ≡ false
      → let next = calls_of calls (l.pending ++ queued) in
        do_pending_functors calls (queue_all queued l)
        ≡ record l { calling = false; pending = next; wakeups = l.wakeups + length next }
  pending_after calls queued l h =
      rw (queue_all-quiet queued l h)
        (do_pending_functors_lem calls (record l { pending = l.pending ++ queued }))

  -- A round of a loop that is not running functors leaves in the queue exactly what the functors
  -- call for that were pending or that its callbacks queued. Each functor that is left has a
  -- wakeup that nobody has consumed, and `quit_` is as it was.
  pub round_lem :
      (calls : F → List F) (woken : Bool) (queued : List F) (l : EventLoop F)
      → l.calling ≡ false
      → let after = round calls woken queued l in
        (after.pending ≡ calls_of calls (l.pending ++ queued))
        × (length after.pending ≤ after.wakeups)
        × (after.quitting ≡ l.quitting)
  unfolding round
  round_lem calls true queued l h =
      let e = pending_after calls queued (handle_read l) h in
      (
        ap (λ (x : EventLoop F). x.pending) e,
        ground (arith, e),
        ap (λ (x : EventLoop F). x.quitting) e,
      )
  round_lem calls false queued l h =
      let e = pending_after calls queued l h in
      (
        ap (λ (x : EventLoop F). x.pending) e,
        ground (arith, e),
        ap (λ (x : EventLoop F). x.quitting) e,
      )

  -- A `quit()` that comes before `loop()` is entered is lost, from whichever thread it comes.
  pub enter-quit :
      (in_loop : Bool) (l : EventLoop F)
      → ((quit in_loop l).quitting ≡ true) × ((enter (quit in_loop l)).quitting ≡ false)
  unfolding quit enter
  enter-quit true l = (refl, refl)
  enter-quit false l = (refl, refl)
