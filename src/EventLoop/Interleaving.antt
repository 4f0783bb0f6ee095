-- ===== src/EventLoop/Interleaving.antt =====
-- One loop thread and any number of others. A step is what happens between two points at which
-- another thread can come in: the locked block of `queueInLoop`, a write to the wakeup descriptor,
-- the test of `quit_`, and each call of the loop's own thread. That thread queues and quits before
-- `loop()` too, as the callback of an `EventLoopThread` can, and from functors; it calls `loop()`
-- once.
pub mod Kept
pub mod Invariant
use echo_server.Prelude.{
  ℕ, ◌+◌, ◌-◌, ◌<◌, ◌≤◌, ◌≡◌, ◌≢◌, refl, sym, ap, ◌∙◌, Bool, true, false, List, [], ◌∷◌, ◌++◌,
  append-nil, append_assoc, arith, length, length-append, length-pos,
}
use echo_server.EventLoop.{
  EventLoop, init, push, wakeup, queue_in_loop, queue_all, take_pending, handle_read, quit, enter,
  leave,
}
use echo_server.EventLoop.Queue.{queue_all-calling, queue_all-quiet}

-- Where the loop's thread is: before `loop()`, at the test of `quit_`, in `poll`, between `poll`
-- and `doPendingFunctors`, running functors with these still to run, or behind `loop()`.
pub data Phase (F : Type 0) : Type 0 where
  idle checking polling handling stopped : Phase F
  running : List F → Phase F

-- `owed` counts the calls of other threads that have changed the loop and not yet woken it. The
-- last three fields record history: the functors that ran, all that were queued, in order, and
-- those of them that the loop's own thread queued before it called `loop()`.
pub record System (F : Type 0) : Type 0 where
  pub loop : EventLoop F
  pub phase : Phase F
  pub owed : ℕ
  pub done : List F
  pub queued : List F
  pub early : List F

unfoldable pub start : (F : Type 0) → System F
start F = record { loop = init F; phase = idle; owed = 0; done = []; queued = []; early = [] }

module _ {F : Type 0} where
  abbrev pub told : EventLoop F → EventLoop F
  told l = record l { quitting = true }

  pub data Step : System F → System F → Type 0 where
    -- Another thread queues a functor, or quits; it wakes the loop in a step of its own.
    remote_push :
        (s : System F) (f : F)
        → Step s (record s { loop = push f s.loop; owed = s.owed + 1; queued = s.queued ++ f ∷ [] })
    remote_quit : (s : System F) → Step s (record s { loop = told s.loop; owed = s.owed + 1 })
    remote_wakeup :
        (s : System F) → 0 < s.owed → Step s (record s { loop = wakeup s.loop; owed = s.owed - 1 })
    -- The loop's own thread.
    queue_before :
        (s : System F) (fs : List F)
        → s.phase ≡ idle
        → Step s (record s {
          loop = queue_all fs s.loop;
          queued = s.queued ++ fs;
          early = s.early ++ fs;
        })
    quit_before : (s : System F) → s.phase ≡ idle → Step s (record s { loop = quit true s.loop })
    begin :
        (s : System F)
        → s.phase ≡ idle
        → Step s (record s { loop = enter s.loop; phase = checking })
    go_on :
        (s : System F)
        → s.phase ≡ checking
        → s.loop.quitting ≡ false
        → Step s (record s { phase = polling })
    stop :
        (s : System F)
        → s.phase ≡ checking
        → s.loop.quitting ≡ true
        → Step s (record s { loop = leave s.loop; phase = stopped })
    poll_returns : (s : System F) → s.phase ≡ polling → Step s (record s { phase = handling })
    read_wakeup :
        (s : System F) → s.phase ≡ handling → Step s (record s { loop = handle_read s.loop })
    handle :
        (s : System F) (fs : List F)
        → s.phase ≡ handling
        → Step s (record s { loop = queue_all fs s.loop; queued = s.queued ++ fs })
    quit_here : (s : System F) → s.phase ≡ handling → Step s (record s { loop = quit true s.loop })
    take :
        (s : System F)
        → s.phase ≡ handling
        → Step s
            (record s { loop = (take_pending s.loop).1; phase = running (take_pending s.loop).0 })
    run :
        (s : System F) (f : F) (rest calls : List F)
        → s.phase ≡ running (f ∷ rest)
        → Step s (record s {
          loop = queue_all calls s.loop;
          phase = running rest;
          done = s.done ++ f ∷ [];
          queued = s.queued ++ calls;
        })
    quit_running :
        (s : System F) (rest : List F)
        → s.phase ≡ running rest
        → Step s (record s { loop = quit true s.loop })
    finish :
        (s : System F)
        → s.phase ≡ running []
        → Step s (record s { loop = record s.loop { calling = false }; phase = checking })

  pub data Reach : System F → Type 0 where
    here : Reach (start F)
    next : {s t : System F} → Reach s → Step s t → Reach t
