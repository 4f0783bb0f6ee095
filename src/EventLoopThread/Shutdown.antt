-- ===== src/EventLoopThread/Shutdown.antt =====
-- The destructor's `quit()` against the thread's `loop()`.
use echo_server.Prelude.{ℕ, ◌≡◌, ◌≢◌, refl, true, false, Bool, arith}
use echo_server.EventLoop.{enter, leave, quit}
use echo_server.EventLoopThread.{
  Owner, idle, waiting, has, checked, joining, gone, Child, unborn, born, made, ready, published,
  looping, left, finished, System, begin, told, entered, Step, start, wake, check, check_null, tell,
  join, make, call, publish, run, quit_inside, stop, clear, Steps, here, next,
}
use echo_server.EventLoopThread.Start.{Inv, Steps-Inv}

abbrev is_told : Owner → Bool
is_told (joining q) = true
is_told gone = true
is_told idle = false
is_told waiting = false
is_told (has q) = false
is_told (checked q) = false

-- Whether the loop has seen, or will see, that it shall stop.
abbrev is_ending : Child → Bool → Bool
is_ending looping quitting = quitting
is_ending left quitting = true
is_ending finished quitting = true
is_ending unborn quitting = false
is_ending born quitting = false
is_ending made quitting = false
is_ending ready quitting = false
is_ending published quitting = false

-- If nothing in the loop quits it, the destructor does.
abbrev Obeys : System → Type 0
Obeys s = is_ending s.child s.loop.quitting ≡ true → is_told s.owner ≡ true

Step-Obeys : {p : ℕ} {s t : System} → Step p false s t → Inv p s → Obeys s → Obeys t
unfolding quit enter leave
Step-Obeys (start s a) v o = ground arith
Step-Obeys (wake s q a b) v o = ground arith
Step-Obeys (check s q r a b) v o = ground arith
Step-Obeys (check_null s q a b) v o = ground arith
Step-Obeys (tell s q a) v o = ground arith
Step-Obeys (join s q a b) v o = ground arith
Step-Obeys (make s a) v o = ground arith
Step-Obeys (call s a) v o = ground arith
Step-Obeys (publish s a) v o = ground arith
Step-Obeys (run s a) v o = ground arith
Step-Obeys (quit_inside s q a) v o = cc
Step-Obeys (stop s a b) v o = ground arith
Step-Obeys (clear s a) v o = ground arith

begin-Obeys : Obeys begin
unfolding begin
begin-Obeys = λ h. cc

Steps-Obeys : {p : ℕ} {s : System} → Steps p false begin s → Obeys s
Steps-Obeys here = begin-Obeys
Steps-Obeys (next r st) = Step-Obeys st (Steps-Inv r) (Steps-Obeys r)

-- However owner and thread run, if nothing in the loop calls `quit()`: when the destructor has
-- tested `loop_` and is about to call `quit()` on it, it is the thread's loop, and the loop still
-- exists.
pub checked_alive :
    {p : ℕ} {s : System} (q : ℕ)
    → Steps p false begin s
    → s.owner ≡ checked q
    → (q ≡ p) × (s.child ≢ finished)
checked_alive q r h = let v = Steps-Inv r in ground (arith, v.knows, Steps-Obeys r)

-- The thread loops and does not stop, and the owner waits for it.
record Stuck (q : ℕ) (s : System) : Type 0 where
  waits : s.owner ≡ joining q
  loops : s.child ≡ looping
  goes_on : s.loop.quitting ≡ false

Step-Stuck : {p q : ℕ} {s t : System} → Step p false s t → Stuck q s → Stuck q t
Step-Stuck (start s a) k = ground arith
Step-Stuck (wake s q a b) k = ground arith
Step-Stuck (check s q r a b) k = ground arith
Step-Stuck (check_null s q a b) k = ground arith
Step-Stuck (tell s q a) k = ground arith
Step-Stuck (join s q a b) k = ground arith
Step-Stuck (make s a) k = ground arith
Step-Stuck (call s a) k = ground arith
Step-Stuck (publish s a) k = ground arith
Step-Stuck (run s a) k = ground arith
Step-Stuck (quit_inside s q a) k = cc
Step-Stuck (stop s a b) k = ground arith
Step-Stuck (clear s a) k = ground arith

Steps-Stuck : {p q : ℕ} {s t : System} → Steps p false s t → Stuck q s → Stuck q t
Steps-Stuck here k = k
Steps-Stuck (next r st) k = Step-Stuck st (Steps-Stuck r k)

-- Let the destructor call `quit()` between the thread's notification and its `loop()`, and let
-- nothing in the loop call `quit()`. Then the call is lost: however the two run on, the thread
-- stays in `loop()`, `quit_` is not set, and the destructor stays in `join()`.
pub lost_quit :
    {p : ℕ} (s : System) {u : System} (q : ℕ)
    → s.owner ≡ checked q
    → s.child ≡ published
    → Steps p false (entered (told q s)) u
    → (u.owner ≡ joining q) × (u.child ≡ looping) × (u.loop.quitting ≡ false)
unfolding enter
lost_quit s q a b r =
    let k = Steps-Stuck r (record { waits = refl; loops = refl; goes_on = refl }) in
    (k.waits, k.loops, k.goes_on)

-- If it calls `quit()` once the thread is in `loop()`, the loop can stop and the destructor finish.
pub quit_in_time :
    {p : ℕ} (s : System) (q : ℕ)
    → s.owner ≡ checked q
    → s.child ≡ looping
    → (u : System) × Steps p false (told q s) u × (u.owner ≡ gone) × (u.child ≡ finished)
unfolding quit
quit_in_time s q a b =
    (_, next (next (next here (stop _ b refl)) (clear _ refl)) (join _ q refl refl), refl, refl)
