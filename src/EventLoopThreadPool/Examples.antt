-- ===== src/EventLoopThreadPool/Examples.antt =====
-- A pool with three worker threads, whose loops are 10, 11 and 12.
use echo_server.Prelude.{◌+◌, ◌≡◌, refl, true, false, [], ◌∷◌}
use echo_server.EventLoopThreadPool.{EventLoopThreadPool, init, set_thread_num, start}

abbrev three : EventLoopThreadPool
three = record {
  base_loop = 77;
  started = true;
  num_threads = 3;
  next = 0;
  loops = 10 ∷ 11 ∷ 12 ∷ [];
}

started_three : (start (λ i. i + 10) false (set_thread_num 3 (init 77 1))).0 ≡ three
unfolding start set_thread_num init
started_three = refl
