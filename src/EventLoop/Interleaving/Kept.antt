-- ===== src/EventLoop/Interleaving/Kept.antt =====
-- What holds of a loop with other threads between two steps, and the longer steps that keep it.
use echo_server.Prelude.{
  ℕ, ◌+◌, ◌<◌, ◌≤◌, ◌≡◌, ◌≢◌, ◌⊎◌, inl, inr, refl, sym, ap, ◌∙◌, Bool, true, false, List, [], ◌∷◌,
  ◌++◌, append-nil, append_assoc, arith, length,
}
use echo_server.EventLoop.{EventLoop, init, queue_all}
use echo_server.EventLoop.Queue.{queue_all-calling, queue_all-quiet}
use echo_server.EventLoop.Interleaving.{
  Phase, idle, checking, polling, handling, stopped, running, System, start,
}

module _ {F : Type 0} where
  -- What is between the history and the queue: the functors that the loop has taken out.
  abbrev pub taken : Phase F → List F
  taken (running fs) = fs
  taken idle = []
  taken checking = []
  taken polling = []
  taken handling = []
  taken stopped = []

  abbrev pub is_calling : Phase F → Bool
  is_calling (running fs) = true
  is_calling idle = false
  is_calling checking = false
  is_calling polling = false
  is_calling handling = false
  is_calling stopped = false

  abbrev pub is_handling : Phase F → Bool
  is_handling handling = true
  is_handling idle = false
  is_handling checking = false
  is_handling polling = false
  is_handling (running fs) = false
  is_handling stopped = false

  abbrev pub is_idle : Phase F → Bool
  is_idle idle = true
  is_idle checking = false
  is_idle polling = false
  is_idle handling = false
  is_idle (running fs) = false
  is_idle stopped = false

  -- A wakeup is not consumed, or another thread still owes it.
  abbrev pub Announced : System F → Type 0
  Announced s = 0 < s.loop.wakeups + s.owed

  -- No functor was taken out or ran, and all that were queued, the loop's own thread queued before
  -- it called `loop()`.
  pub record OnlyEarly (s : System F) : Type 0 where
    pub all_early : s.queued ≡ s.early
    pub none_ran : s.done ≡ []
    pub none_taken : taken s.phase ≡ []

  -- The functors that ran, those that are taken out and those that wait are the history of all
  -- that were queued. Outside the handling of events, a functor that waits has been announced, if
  -- not all go back to the time before `loop()`; so has a `quit_` that a polling loop has not seen.
  pub record Inv (s : System F) : Type 0 where
    pub order : s.done ++ (taken s.phase ++ s.loop.pending) ≡ s.queued
    pub flag : s.loop.calling ≡ is_calling s.phase
    pub woken : is_handling s.phase ≡ false → s.loop.pending ≢ [] → Announced s ⊎ OnlyEarly s
    pub quit_woken : s.phase ≡ polling → s.loop.quitting ≡ true → Announced s
    pub before : is_idle s.phase ≡ true → Announced s ⊎ OnlyEarly s

  pub start-Inv : Inv (start F)
  unfolding start init
  start-Inv = record {
    order = refl;
    flag = refl;
    woken = λ h ne. absurd (ne refl);
    quit_woken = λ h q. cc;
    before = λ h. inr (record { all_early = refl; none_ran = refl; none_taken = refl });
  }

  -- What a step that takes no wakeup away leaves of it.
  pub still :
      (s : System F) (l : EventLoop F) (p : Phase F)
      → s.loop.wakeups ≤ l.wakeups
      → (OnlyEarly s → taken p ≡ [])
      → Announced s ⊎ OnlyEarly s
      → Announced (record s { loop = l; phase = p }) ⊎ OnlyEarly (record s { loop = l; phase = p })
  still s l p h k (inl a) = inl (omega arith)
  still s l p h k (inr o) =
      inr (record { all_early = o.all_early; none_ran = o.none_ran; none_taken = k o })

  pub push_order : (d t p q fs : List F) → d ++ (t ++ p) ≡ q → d ++ (t ++ (p ++ fs)) ≡ q ++ fs
  push_order d t p q fs h = rw (← h) (simp append_assoc)

  calls_order :
      (d r p q c : List F) (f : F)
      → d ++ (f ∷ (r ++ p)) ≡ q
      → (d ++ f ∷ []) ++ (r ++ (p ++ c)) ≡ q ++ c
  calls_order d r p q c f h = rw (← h) (simp append_assoc)

  -- What running code queues is announced: one wakeup for each functor.
  calls_woken : (p c : List F) (w o : ℕ) → (p ≢ [] → 0 < w + o) → p ++ c ≢ [] → 0 < w + length c + o
  calls_woken p [] w o h ne = let e = append-nil p in let k = h (λ z. ne (e ∙ z)) in omega arith
  calls_woken p (x ∷ c) w o h ne = omega arith

  pub handle-Inv :
      (s : System F) (fs : List F)
      → s.phase ≡ handling
      → Inv s
      → Inv (record s { loop = queue_all fs s.loop; queued = s.queued ++ fs })
  handle-Inv s fs h v =
      let quiet : s.loop.calling ≡ false = v.flag ∙ ap is_calling h in
      rw (queue_all-quiet fs s.loop quiet) (record {
        order = push_order s.done (taken s.phase) s.loop.pending s.queued fs v.order;
        flag = v.flag;
        woken = λ k. cc;
        quit_woken = λ k. cc;
        before = λ k. cc;
      })

  pub queue_before-Inv :
      (s : System F) (fs : List F)
      → s.phase ≡ idle
      → Inv s
      → Inv
          (record s { loop = queue_all fs s.loop; queued = s.queued ++ fs; early = s.early ++ fs })
  queue_before-Inv s fs h v =
      let quiet : s.loop.calling ≡ false = v.flag ∙ ap is_calling h in
      let after : System F = record s {
        loop = record s.loop { pending = s.loop.pending ++ fs };
        queued = s.queued ++ fs;
        early = s.early ++ fs;
      } in
      let now : Announced after ⊎ OnlyEarly after = elim (v.before (ap is_idle h)) [
        | inl a ↦ inl a
        | inr o ↦ inr (record {
          all_early = ap (λ q. q ++ fs) o.all_early;
          none_ran = o.none_ran;
          none_taken = o.none_taken;
        })
      ] in
      rw (queue_all-quiet fs s.loop quiet) (record {
        order = push_order s.done (taken s.phase) s.loop.pending s.queued fs v.order;
        flag = v.flag;
        woken = λ k ne. now;
        quit_woken = λ k. cc;
        before = λ k. now;
      })

  -- While functors run, one that waits has been announced.
  announced_running :
      (s : System F) (f : F) (rest : List F)
      → s.phase ≡ running (f ∷ rest)
      → Inv s
      → s.loop.pending ≢ []
      → Announced s
  announced_running s f rest h v ne = elim (v.woken (ap is_handling h) ne) [
    | inl a ↦ a
    | inr o ↦ let e = sym (ap taken h) ∙ o.none_taken in cc
  ]

  pub run-Inv :
      (s : System F) (f : F) (rest calls : List F)
      → s.phase ≡ running (f ∷ rest)
      → Inv s
      → Inv (record s {
        loop = queue_all calls s.loop;
        phase = running rest;
        done = s.done ++ f ∷ [];
        queued = s.queued ++ calls;
      })
  run-Inv s f rest calls h v =
      let busy : s.loop.calling ≡ true = v.flag ∙ ap is_calling h in
      rw (queue_all-calling calls s.loop busy) (record {
        order = calls_order s.done rest s.loop.pending s.queued calls f (rw h at v.order);
        flag = busy;
        woken = λ k ne. inl (
            calls_woken s.loop.pending calls s.loop.wakeups s.owed (announced_running s f rest h v)
              ne);
        quit_woken = λ k. cc;
        before = λ k. cc;
      })
