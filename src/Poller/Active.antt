-- ===== src/Poller/Active.antt =====
-- What `poll` hands to the loop.
use echo_server.Prelude.{
  ℕ, ◌*◌, ◌≡◌, refl, ap, ◌∙◌, some, List, [], ◌∷◌, arith, ◌==◌, if◌then◌else◌, length, Bool-cases,
  inl, inr,
}
use echo_server.Channel.{Channel, Events, save_revents}
use echo_server.Poller.{Epoll, Poller, put, fill_active_channels, poll}

-- The last events that were reported with this pointer, or else `old`.
abbrev pub last_report : ℕ → List (ℕ × Events) → Events → Events
last_report p [] old = old
last_report p ((q, e) ∷ es) old = last_report p es (if q == p then e else old)

abbrev pub pointers : List (ℕ × Events) → List ℕ
pointers [] = []
pointers ((p, e) ∷ es) = p ∷ pointers es

module _ (os : Epoll) where
  -- What a report leaves behind: the channels in the order of the report, with the reported events
  -- saved, and the map, the interest set and the length of the event list as they were.
  pub record Reported (es : List (ℕ × Events)) (r : Poller os) (out : List ℕ × Poller os)
      : Type 0 where
    pub active : out.0 ≡ pointers es
    pub saved :
        (p : ℕ)
        → out.1.store p ≡ record (r.store p) { revents = last_report p es (r.store p).revents }
    pub channels_same : out.1.channels ≡ r.channels
    pub interest_same : out.1.interest ≡ r.interest
    pub size_same : out.1.list_size ≡ r.list_size

  step_saved :
      (p q : ℕ) (e : Events) (es : List (ℕ × Events)) (store : ℕ → Channel)
      → let c = put store q (record (store q) { revents = e }) p in
        record c { revents = last_report p es c.revents }
        ≡ record (store p) { revents = last_report p es (if q == p then e else (store p).revents) }
  step_saved p q e es store = elim (Bool-cases (q == p)) [
    | inl same ↦ rw same (ground arith)
    | inr other ↦ rw other
  ]

  fill-Reported :
      (es : List (ℕ × Events)) (r : Poller os) → Reported es r (fill_active_channels os es r)
  unfolding fill_active_channels save_revents
  fill-Reported [] r = record {
    active = refl;
    saved = λ p. refl;
    channels_same = refl;
    interest_same = refl;
    size_same = refl;
  }
  fill-Reported ((q, e) ∷ es) r =
      let h =
        fill-Reported es
          (record r { store = put r.store q (record (r.store q) { revents = e }) }) in
      record {
        active = ap (◌∷◌ q) h.active;
        saved = λ p. h.saved p ∙ step_saved p q e es r.store;
        channels_same = h.channels_same;
        interest_same = h.interest_same;
        size_same = h.size_same;
      }

  -- A report of events makes exactly the reported channels active, in order, each with the events
  -- reported for it last, and changes nothing else of a channel, the map or the interest set; the
  -- event list doubles exactly when it was filled.
  pub poll-Reported :
      (e : ℕ × Events) (es : List (ℕ × Events)) (r : Poller os)
      → let (active, s) = poll os (some (e ∷ es)) r in
        Reported (e ∷ es) r (active, record s { list_size = r.list_size })
        × (s.list_size ≡ (if length (e ∷ es) == r.list_size then 2 * r.list_size else r.list_size))
  unfolding poll
  poll-Reported e es r =
      let h = fill-Reported (e ∷ es) r in
      elim (Bool-cases (length (e ∷ es) == r.list_size)) [
        | inl full ↦ rw full (
          record {
            active = h.active;
            saved = h.saved;
            channels_same = h.channels_same;
            interest_same = h.interest_same;
            size_same = refl;
          },
          refl,
        )
        | inr part ↦ rw part (
          record {
            active = h.active;
            saved = h.saved;
            channels_same = h.channels_same;
            interest_same = h.interest_same;
            size_same = refl;
          },
          h.size_same,
        )
      ]
