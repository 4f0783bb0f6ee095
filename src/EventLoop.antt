-- ===== src/EventLoop.antt =====
-- include/EventLoop.h and src/EventLoop.cc: the flags, the queue of functors and the wakeups of one
-- loop. What a functor does to the rest of the program is not looked at, only what it queues. The
-- descriptor `wakeupFd_` is the number of `wakeup()` calls that no `handleRead()` has consumed; the
-- calls of the poller are in `Poller`, those of the callbacks in `Channel`.
pub mod Queue
pub mod Interleaving
mod Life
mod Examples
use echo_server.Prelude.{
  ℕ, ◌+◌, Bool, true, false, not, ◌||◌, List, [], ◌∷◌, ◌++◌, if◌then◌else◌, Option, none, some,
}

pub record EventLoop (F : Type 0) : Type 0 where
  pub looping : Bool
  pub quitting : Bool
  pub calling : Bool
  pub pending : List F
  pub wakeups : ℕ

-- The constructor: not looping, and with `quit_` set.
unfoldable pub init : (F : Type 0) → EventLoop F
init F = record { looping = false; quitting = true; calling = false; pending = []; wakeups = 0 }

module _ {F : Type 0} where
  unfoldable pub wakeup : EventLoop F → EventLoop F
  wakeup l = record l { wakeups = l.wakeups + 1 }

  unfoldable pub handle_read : EventLoop F → EventLoop F
  handle_read l = record l { wakeups = 0 }

  -- The locked block of `queueInLoop`.
  unfoldable pub push : F → EventLoop F → EventLoop F
  push f l = record l { pending = l.pending ++ f ∷ [] }

  -- `in_loop` is `isInLoopThread()`.
  unfoldable pub queue_in_loop : Bool → F → EventLoop F → EventLoop F
  unfolding push wakeup
  queue_in_loop in_loop f l =
      let pushed = push f l in if not in_loop || pushed.calling then wakeup pushed else pushed

  -- The functor that is called at once, if any.
  unfoldable pub run_in_loop : Bool → F → EventLoop F → Option F × EventLoop F
  unfolding queue_in_loop
  run_in_loop in_loop f l = if in_loop then (some f, l) else (none, queue_in_loop in_loop f l)

  unfoldable pub quit : Bool → EventLoop F → EventLoop F
  unfolding wakeup
  quit in_loop l = let told = record l { quitting = true } in if in_loop then told else wakeup told

  -- The first lines of `loop()`, and the last one.
  unfoldable pub enter : EventLoop F → EventLoop F
  enter l = record l { looping = true; quitting = false }

  unfoldable pub leave : EventLoop F → EventLoop F
  leave l = record l { looping = false }

  -- The functors that one functor, or one callback, queues from the loop's own thread.
  unfoldable pub queue_all : List F → EventLoop F → EventLoop F
  unfolding queue_in_loop
  queue_all [] l = l
  queue_all (f ∷ fs) l = queue_all fs (queue_in_loop true f l)

  -- The start of `doPendingFunctors`: the functors to run, and the loop with an empty queue.
  unfoldable pub take_pending : EventLoop F → List F × EventLoop F
  take_pending l = (l.pending, record l { calling = true; pending = [] })

  -- `calls f` are the functors that `f` queues while it runs.
  unfoldable pub run_all : (F → List F) → List F → EventLoop F → EventLoop F
  unfolding queue_all
  run_all calls [] l = l
  run_all calls (f ∷ fs) l = run_all calls fs (queue_all (calls f) l)

  unfoldable pub do_pending_functors : (F → List F) → EventLoop F → EventLoop F
  unfolding take_pending run_all
  do_pending_functors calls l =
      let (fs, taken) = take_pending l in record (run_all calls fs taken) { calling = false }

  -- One round of the `while` of `loop()`, behind `poll`: whether the wakeup channel was active, and
  -- the functors that the callbacks of the active channels queue.
  unfoldable pub round : (F → List F) → Bool → List F → EventLoop F → EventLoop F
  unfolding do_pending_functors queue_all handle_read
  round calls woken queued l =
      do_pending_functors calls (queue_all queued (if woken then handle_read l else l))
