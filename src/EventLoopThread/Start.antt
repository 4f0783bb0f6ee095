-- ===== src/EventLoopThread/Start.antt =====
-- `startLoop()` returns the thread's loop.
use echo_server.Prelude.{ℕ, ◌≡◌, ◌≢◌, true, false, Bool, Option, none, some, arith}
use echo_server.EventLoopThread.{
  Owner, idle, waiting, has, checked, joining, gone, Child, unborn, born, made, ready, published,
  looping, left, finished, System, begin, Step, start, wake, check, check_null, tell, join, make,
  call, publish, run, quit_inside, stop, clear, Steps, here, next,
}

-- Whether the loop's address stands in `loop_`, and whether the callback has run.
abbrev address : ℕ → Child → Option ℕ
address p published = some p
address p looping = some p
address p left = some p
address p unborn = none
address p born = none
address p made = none
address p ready = none
address p finished = none

abbrev is_ready : Child → Bool
is_ready unborn = false
is_ready born = false
is_ready made = false
is_ready ready = true
is_ready published = true
is_ready looping = true
is_ready left = true
is_ready finished = true

abbrev is_published : Child → Bool
is_published published = true
is_published looping = true
is_published left = true
is_published finished = true
is_published unborn = false
is_published born = false
is_published made = false
is_published ready = false

-- An owner that is past `startLoop()` has the thread's address, and the thread has published it.
abbrev Knows : ℕ → Owner → Child → Type 0
Knows p idle c = c ≡ unborn
Knows p waiting c = c ≢ unborn
Knows p (has q) c = (q ≡ p) × (is_published c ≡ true)
Knows p (checked q) c = (q ≡ p) × (is_published c ≡ true)
Knows p (joining q) c = (q ≡ p) × (is_published c ≡ true)
Knows p gone c = is_published c ≡ true

pub record Inv (p : ℕ) (s : System) : Type 0 where
  pub points : s.loop_ptr ≡ address p s.child
  pub callback : s.called ≡ is_ready s.child
  pub knows : Knows p s.owner s.child

begin-Inv : (p : ℕ) → Inv p begin
unfolding begin
begin-Inv p = ground arith

module _ {p : ℕ} {quits : Bool} where
  Step-Inv : {s t : System} → Step p quits s t → Inv p s → Inv p t
  Step-Inv (start s a) v = ground arith
  Step-Inv (wake s q a b) v = ground arith
  Step-Inv (check s q r a b) v = ground arith
  Step-Inv (check_null s q a b) v = ground arith
  Step-Inv (tell s q a) v = ground arith
  Step-Inv (join s q a b) v = ground arith
  Step-Inv (make s a) v = ground arith
  Step-Inv (call s a) v = ground arith
  Step-Inv (publish s a) v = ground arith
  Step-Inv (run s a) v = ground arith
  Step-Inv (quit_inside s q a) v = ground arith
  Step-Inv (stop s a b) v = ground arith
  Step-Inv (clear s a) v = ground arith

  pub Steps-Inv : {s : System} → Steps p quits begin s → Inv p s
  Steps-Inv here = begin-Inv p
  Steps-Inv (next r st) = Step-Inv st (Steps-Inv r)

  -- However owner and thread run: what the owner reads in `loop_` while it waits is the address of
  -- the thread's loop, which has been through the callback and still exists.
  pub loop_ptr_alive :
      {s : System} (q : ℕ)
      → Steps p quits begin s
      → s.loop_ptr ≡ some q
      → (q ≡ p) × (s.called ≡ true) × (s.child ≢ finished)
  loop_ptr_alive q r h = let v = Steps-Inv r in ground (arith, v.points, v.callback)

  -- However owner and thread run, what `startLoop()` has returned is the address of the thread's
  -- loop, and the thread has given the loop to the callback.
  pub start_loop_lem :
      {s : System} (q : ℕ) → Steps p quits begin s → s.owner ≡ has q → (q ≡ p) × (s.called ≡ true)
  start_loop_lem q r h = let v = Steps-Inv r in ground (arith, v.callback, v.knows)
