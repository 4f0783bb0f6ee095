-- ===== src/EventLoopThread.antt =====
-- include/EventLoopThread.h and src/EventLoopThread.cc: a thread with a loop of its own. The owner
-- starts the thread, waits for the loop's address, and at the end quits the loop and joins; the
-- thread makes the loop, publishes its address, runs the loop, and takes the address back. The
-- handshake of `Thread::start` is in `Thread`. What the loop does between two tests of `quit_` is
-- in `EventLoop`.
pub mod Start
pub mod Shutdown
mod Examples
use echo_server.Prelude.{ℕ, ◌≡◌, Bool, true, false, Option, none, some}
use echo_server.EventLoop
use echo_server.EventLoop.{EventLoop, enter, leave, quit}

-- The owner: before `startLoop()`, in `cond_.wait`, with the address that `startLoop()` returned;
-- in the destructor behind the test of `loop_`, behind `quit()`, and at the end.
pub data Owner : Type 0 where
  idle waiting : Owner
  has checked joining : ℕ → Owner
  gone : Owner

-- The thread: not there yet, there, with its loop, behind the callback, with the address
-- published, in `loop()`, behind it, and at the end, where its loop is gone.
pub data Child : Type 0 where
  unborn born made ready published looping left finished : Child

-- `loop_ptr` is `loop_`, and `called` says whether the callback has been given the loop.
pub record System : Type 0 where
  pub loop : EventLoop ℕ
  pub loop_ptr : Option ℕ
  pub called : Bool
  pub owner : Owner
  pub child : Child

-- The constructor.
unfoldable pub begin : System
begin = record {
  loop = EventLoop.init ℕ;
  loop_ptr = none;
  called = false;
  owner = idle;
  child = unborn;
}

-- The destructor's `loop_->quit()`, from another thread than the loop's, and the first lines of the
-- loop's `loop()`.
abbrev pub told : ℕ → System → System
told p s = record s { loop = quit false s.loop; owner = joining p }

abbrev pub entered : System → System
entered s = record s { loop = enter s.loop; child = looping }

-- `p` is the address of the thread's loop. `quits` says whether the loop's own functors and
-- callbacks may call `quit()`.
pub data Step (p : ℕ) (quits : Bool) : System → System → Type 0 where
  start :
      (s : System) → s.owner ≡ idle → Step p quits s (record s { owner = waiting; child = born })
  wake :
      (s : System) (q : ℕ)
      → s.owner ≡ waiting
      → s.loop_ptr ≡ some q
      → Step p quits s (record s { owner = has q })
  check :
      (s : System) (q r : ℕ)
      → s.owner ≡ has q
      → s.loop_ptr ≡ some r
      → Step p quits s (record s { owner = checked r })
  check_null :
      (s : System) (q : ℕ)
      → s.owner ≡ has q
      → s.loop_ptr ≡ none
      → Step p quits s (record s { owner = gone })
  tell : (s : System) (q : ℕ) → s.owner ≡ checked q → Step p quits s (told q s)
  join :
      (s : System) (q : ℕ)
      → s.owner ≡ joining q
      → s.child ≡ finished
      → Step p quits s (record s { owner = gone })
  make :
      (s : System)
      → s.child ≡ born
      → Step p quits s (record s { loop = EventLoop.init ℕ; child = made })
  call : (s : System) → s.child ≡ made → Step p quits s (record s { called = true; child = ready })
  publish :
      (s : System)
      → s.child ≡ ready
      → Step p quits s (record s { loop_ptr = some p; child = published })
  run : (s : System) → s.child ≡ published → Step p quits s (entered s)
  quit_inside :
      (s : System)
      → quits ≡ true
      → s.child ≡ looping
      → Step p quits s (record s { loop = quit true s.loop })
  stop :
      (s : System)
      → s.child ≡ looping
      → s.loop.quitting ≡ true
      → Step p quits s (record s { loop = leave s.loop; child = left })
  clear :
      (s : System)
      → s.child ≡ left
      → Step p quits s (record s { loop_ptr = none; child = finished })

pub data Steps (p : ℕ) (quits : Bool) (s : System) : System → Type 0 where
  here : Steps p quits s s
  next : {t u : System} → Steps p quits s t → Step p quits t u → Steps p quits s u
