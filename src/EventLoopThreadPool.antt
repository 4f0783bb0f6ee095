-- ===== src/EventLoopThreadPool.antt =====
-- include/EventLoopThreadPool.h and src/EventLoopThreadPool.cc: the loops of the worker threads,
-- handed out in turn. A loop is a number. The loop that the `i`-th thread makes is `spawn i`.
pub mod RoundRobin
mod Examples
use echo_server.Prelude.{
  ℕ, zero, suc, ◌+◌, Bool, true, false, ◌&&◌, List, [], ◌∷◌, ◌++◌, Option, none, some,
  if◌then◌else◌, leb, ◌==◌, length, get_elem?,
}

pub record EventLoopThreadPool : Type 0 where
  pub base_loop : ℕ
  pub started : Bool
  pub num_threads : ℕ
  pub next : ℕ
  pub loops : List ℕ

-- The constructor initialises `baseLoop_` with itself: what stands in the memory stays there, and
-- the argument `base` is not used.
unfoldable pub init : ℕ → ℕ → EventLoopThreadPool
init memory base = record {
  base_loop = memory;
  started = false;
  num_threads = 0;
  next = 0;
  loops = [];
}

unfoldable pub set_thread_num : ℕ → EventLoopThreadPool → EventLoopThreadPool
set_thread_num n p = record p { num_threads = n }

-- The loops of threads `i`, `i + 1`, …, of which `left` are still to come.
unfoldable pub spawn_from : (ℕ → ℕ) → ℕ → ℕ → List ℕ
spawn_from spawn zero i = []
spawn_from spawn (suc left) i = spawn i ∷ spawn_from spawn left (i + 1)

-- The second part is the loop on which the pool itself makes the callback, if it does.
unfoldable pub start : (ℕ → ℕ) → Bool → EventLoopThreadPool → EventLoopThreadPool × Option ℕ
unfolding spawn_from
start spawn has_callback p = (
  record p { started = true; loops = p.loops ++ spawn_from spawn p.num_threads 0 },
  if p.num_threads == 0 && has_callback then some p.base_loop else none,
)

is_empty : List ℕ → Bool
is_empty [] = true
is_empty (l ∷ ls) = false

-- `none` is an access out of range.
unfoldable pub get_next_loop : EventLoopThreadPool → Option ℕ × EventLoopThreadPool
unfolding is_empty
get_next_loop p = if is_empty p.loops then (some p.base_loop, p) else (
  get_elem? p.loops p.next,
  record p { next = if leb (length p.loops) (p.next + 1) then 0 else p.next + 1 },
)

unfoldable pub get_all_loops : EventLoopThreadPool → List ℕ
unfolding is_empty
get_all_loops p = if is_empty p.loops then p.base_loop ∷ [] else p.loops
