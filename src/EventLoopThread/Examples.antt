-- ===== src/EventLoopThread/Examples.antt =====
-- A thread whose loop has the address 5.
use echo_server.Prelude.{ℕ, ◌≡◌, ◌≢◌, refl, true, false, Bool, some}
use echo_server.EventLoop
use echo_server.EventLoopThread.{
  has, checked, joining, published, looping, finished, System, begin, told, entered, start, wake,
  check, make, call, publish, run, quit_inside, stop, clear, Steps, here, next,
}
use echo_server.EventLoopThread.Shutdown.{checked_alive, lost_quit}

abbrev loop_address : ℕ
loop_address = 5

abbrev new_loop : System
new_loop = record {
  loop = EventLoop.init ℕ;
  loop_ptr = some 5;
  called = true;
  owner = has 5;
  child = published;
}

-- The owner has started the thread and waited for its loop.
new_loop-Steps : (quits : Bool) → Steps 5 quits begin new_loop
unfolding begin
new_loop-Steps quits =
    next
      (next (next (next (next here (start _ refl)) (make _ refl)) (call _ refl)) (publish _ refl))
      (wake _ 5 refl refl)

-- The owner is in its destructor before the thread is in `loop()`.
abbrev early : System
early = record new_loop { owner = checked 5 }

early-Steps : Steps 5 false begin early
early-Steps = next (new_loop-Steps false) (check _ 5 5 refl refl)

checked_alive_example : (loop_address ≡ 5) × (early.child ≢ finished)
checked_alive_example = checked_alive 5 early-Steps refl

lost_quit_example :
    let u = entered (told 5 early) in
    (u.owner ≡ joining 5) × (u.child ≡ looping) × (u.loop.quitting ≡ false)
lost_quit_example = lost_quit {p = 5} early 5 refl refl here

-- Where a functor of the loop quits it, the destructor may have tested `loop_` and the loop be
-- gone.
dangling : (s : System) × Steps 5 true begin s × (s.owner ≡ checked 5) × (s.child ≡ finished)
unfolding EventLoop.quit
dangling = (
  _,
  next
      (next
        (next (next (next (new_loop-Steps true) (run _ refl)) (quit_inside _ refl refl))
          (check _ 5 5 refl refl))
        (stop _ refl refl))
      (clear _ refl),
  refl,
  refl,
)
