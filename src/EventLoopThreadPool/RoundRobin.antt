-- ===== src/EventLoopThreadPool/RoundRobin.antt =====
-- The loops take turns.
use native.Mathlib.Nat.{mod-eq_of_lt, mod-eq-sub-mod}
use echo_server.Prelude.{
  ℕ, zero, suc, ◌+◌, ◌-◌, ◌%◌, ◌<◌, ◌≡◌, ◌≢◌, refl, ap, ◌∙◌, inl, inr, Bool, false, List, [], ◌∷◌,
  Option, none, some, arith, if◌then◌else◌, leb, length, get_elem?, Bool-cases,
}
use echo_server.EventLoopThreadPool.{
  EventLoopThreadPool, init, set_thread_num, start, spawn_from, get_next_loop, get_all_loops,
  is_empty,
}

get_elem?-some : (xs : List ℕ) (i : ℕ) → i < length xs → (x : ℕ) × (get_elem? xs i ≡ some x)
get_elem?-some [] i h = absurd (omega arith)
get_elem?-some (x ∷ xs) zero h = (x, refl)
get_elem?-some (x ∷ xs) (suc i) h = get_elem?-some xs i (omega arith)

-- The index behind a call, for `n` loops.
abbrev pub next_index : ℕ → ℕ → ℕ
next_index n i = if leb n (i + 1) then 0 else i + 1

is_empty-false : (ls : List ℕ) → ls ≢ [] → is_empty ls ≡ false
unfolding is_empty
is_empty-false [] h = absurd (h refl)
is_empty-false (l ∷ ls) h = refl

pub get_next_loop_lem :
    (p : EventLoopThreadPool)
    → p.loops ≢ []
    → get_next_loop p
      ≡ (get_elem? p.loops p.next, record p { next = next_index (length p.loops) p.next })
unfolding get_next_loop
get_next_loop_lem p h = rw (is_empty-false p.loops h)

ne_nil : (ls : List ℕ) → 0 < length ls → ls ≢ []
ne_nil [] h = absurd (omega arith)
ne_nil (l ∷ ls) h = λ e. cc

-- The pool after `k` calls.
abbrev pub after : ℕ → EventLoopThreadPool → EventLoopThreadPool
after zero p = p
after (suc k) p = after k (get_next_loop p).1

next_index-mod : (n i k : ℕ) → i < n → (next_index n i + k) % n ≡ (i + suc k) % n
next_index-mod n i k h = elim (Bool-cases (leb n (i + 1))) [
  | inl wraps ↦
      let e : i + suc k ≡ n + k = ground arith in
      let f : n + k - n ≡ 0 + k = omega arith in
      rw (wraps, e) (rw (mod-eq-sub-mod {n = n + k} {m = n} (omega arith), f))
  | inr goes_on ↦ rw goes_on (ap (λ x. x % n) (omega arith))
]

-- A pool whose index is in the range of its loops hands them out in turn: the `k`-th call from any
-- point on gets the loop `k` places further on, going round at the end, and so never reads out of
-- range.
pub get_next_loop_turns :
    (k : ℕ) (p : EventLoopThreadPool)
    → p.next < length p.loops
    → ((get_next_loop (after k p)).0 ≡ get_elem? p.loops ((p.next + k) % length p.loops))
      × ((l : ℕ) × ((get_next_loop (after k p)).0 ≡ some l))
get_next_loop_turns zero p h =
    let first : (get_next_loop p).0 ≡ get_elem? p.loops p.next =
      ap (λ (r : Option ℕ × EventLoopThreadPool). r.0)
        (get_next_loop_lem p (ne_nil p.loops (omega arith))) in
    let here : (p.next + 0) % length p.loops ≡ p.next =
      let e : p.next + 0 ≡ p.next = omega arith in rw e (mod-eq_of_lt h) in
    let (l, e) = get_elem?-some p.loops p.next h in (rw here first, (l, first ∙ e))
get_next_loop_turns (suc k) p h =
    let n = length p.loops in
    let q : EventLoopThreadPool = record p { next = next_index n p.next } in
    let r = get_next_loop_turns k q (ground arith) in
    rw (get_next_loop_lem p (ne_nil p.loops (omega arith)), ← next_index-mod n p.next k h) r

-- Without worker threads the pool hands out whatever stood in the memory of its member `baseLoop_`,
-- and not the loop that it was made with.
pub get_next_loop-init :
    (memory base : ℕ) (spawn : ℕ → ℕ) (cb : Bool)
    → (get_next_loop (start spawn cb (init memory base)).0).0 ≡ some memory
unfolding get_next_loop start init
get_next_loop-init memory base spawn cb = refl

length-spawn_from : (spawn : ℕ → ℕ) (n i : ℕ) → length (spawn_from spawn n i) ≡ n
unfolding spawn_from
length-spawn_from spawn zero i = refl
length-spawn_from spawn (suc n) i = ap suc (length-spawn_from spawn n (i + 1))

-- A pool that is started with some threads is ready to hand out loops: it has one for each thread.
pub start_ready :
    (memory base n : ℕ) (spawn : ℕ → ℕ) (cb : Bool)
    → 0 < n
    → let (p, callback) = start spawn cb (set_thread_num n (init memory base)) in
      (length (get_all_loops p) ≡ n) × (p.next < length p.loops) × (callback ≡ none)
unfolding start set_thread_num init get_all_loops
start_ready memory base n spawn cb h = ground (
  arith,
  length-spawn_from spawn n 0,
  is_empty-false (spawn_from spawn n 0),
  ne_nil (spawn_from spawn n 0),
)
