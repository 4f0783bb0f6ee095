-- ===== src/Reactor/Served.antt =====
-- What the connections of one loop and their poller agree on, and that calls of one connection and
-- `poll` keep it.
use echo_server.Prelude.{
  ℕ, ◌≡◌, ◌≢◌, refl, ap, true, false, Option, none, some, List, [], ◌∷◌, arith, ◌==◌, ℕ_discrete,
  Bool, ==-refl, ◌⊎◌, inl, inr, ◌∙◌,
}
use echo_server.Channel.{Channel, Events, Index, new, added, deleted}
use echo_server.Poller.{Epoll, Poller, poll, find}
use echo_server.Poller.Registration.{Matches}
use echo_server.Poller.Active.{Reported, poll-Reported}
use echo_server.TcpConnection.{TcpConnection, Effect}
use echo_server.TcpConnection.Wiring.{perform_all, IsWired}
use echo_server.TcpConnection.Neighbours.{perform_all-Framed, IsWired-Framed}
use echo_server.Poller.Frame.{Framed}
use echo_server.Reactor.{report_events, seat}

pub ≢→==-false : (a b : ℕ) → a ≢ b → (a == b) ≡ false
≢→==-false a b h = ground (arith, h)

module _ (os : Epoll) (live : ℕ → Bool) where
  open os use {entry}

  -- Neither the map nor the kernel knows descriptor `k`.
  abbrev pub Unknown : ℕ → Poller os → Type 0
  Unknown k r = (find k r.channels ≡ none) × (entry r.interest k ≡ none)

  -- Descriptor `k` is a living connection's.
  abbrev pub Owned : ℕ → Poller os → Type 0
  Owned k r = (q : ℕ) × (live q ≡ true) × ((r.store q).fd ≡ k)

  -- The connections that live agree with poller and kernel, no two have the same descriptor, and
  -- map and kernel know no other descriptors than theirs.
  pub record Served (conns : ℕ → TcpConnection) (r : Poller os) : Type 0 where
    pub wired : (p : ℕ) → live p ≡ true → IsWired os p (conns p) r
    pub apart : (p q : ℕ) → live p ≡ true → live q ≡ true → p ≢ q → (r.store p).fd ≢ (r.store q).fd
    pub owned : (k : ℕ) → Unknown k r ⊎ Owned k r

  Matches-Reported :
      (i : Index) (p fd : ℕ) (e : Events) (r s : Poller os)
      → s.channels ≡ r.channels
      → s.interest ≡ r.interest
      → Matches os i fd e p r
      → Matches os i fd e p s
  Matches-Reported new p fd e r s h k m = rw (h, k) m
  Matches-Reported deleted p fd e r s h k m = rw (h, k) m
  Matches-Reported added p fd e r s h k m = rw (h, k) m

  Served-Reported :
      (es : List (ℕ × Events)) (conns : ℕ → TcpConnection) (r : Poller os)
      (out : List ℕ × Poller os)
      → Reported os es r out
      → Served conns r
      → Served conns out.1
  Served-Reported es conns r out h w = record {
    wired = λ p lp. record {
      registered = rw (h.saved p) (
          Matches-Reported (r.store p).index p (r.store p).fd (r.store p).events r out.1
            h.channels_same h.interest_same (w.wired p lp).registered);
      agrees = rw (h.saved p) (w.wired p lp).agrees;
    };
    apart = λ p q lp lq ne. rw (h.saved p, h.saved q) (w.apart p q lp lq ne);
    owned = λ k. elim (w.owned k) [
      | inl (f, e) ↦ inl (rw (h.channels_same) f, rw (h.interest_same) e)
      | inr (q, lq, same) ↦ inr (q, lq, rw (h.saved q) same)
    ];
  }

  Served-resize :
      (n : ℕ) (conns : ℕ → TcpConnection) (s : Poller os)
      → Served conns (record s { list_size = n })
      → Served conns s
  Served-resize n conns s w = record {
    wired = λ p lp. record {
      registered =
          Matches-Reported (s.store p).index p (s.store p).fd (s.store p).events
            (record s { list_size = n }) s refl refl (w.wired p lp).registered;
      agrees = (w.wired p lp).agrees;
    };
    apart = w.apart;
    owned = w.owned;
  }

  -- `poll` changes nothing that connections and poller agree on.
  pub poll-Served :
      (report : Option (List (ℕ × Events))) (conns : ℕ → TcpConnection) (r : Poller os)
      → Served conns r
      → Served conns (poll os report r).1
  unfolding poll
  poll-Served none conns r w = w
  poll-Served (some []) conns r w = w
  poll-Served (some (e ∷ es)) conns r w =
      let (active, s) = poll os (some (e ∷ es)) r in
      Served-resize r.list_size conns s (
        Served-Reported (e ∷ es) conns r (active, record s { list_size = r.list_size })
          (poll-Reported os e es r).0 w)

  pub report-IsWired :
      (p : ℕ) (c : TcpConnection) (r : Poller os)
      → IsWired os p c r
      → IsWired os p (report_events (r.store p) c) r
  unfolding report_events
  report-IsWired p c r w = record { registered = w.registered; agrees = w.agrees }

  -- What work on one connection's channel leaves of the descriptor of any.
  fd-Framed : (p q : ℕ) (r s : Poller os) → Framed os p r s → (s.store q).fd ≡ (r.store q).fd
  fd-Framed p q r s h = elim (ℕ_discrete p q) [
    | yes same ↦ rw (← same) h.fd_same
    | no other ↦ ap (λ (x : Channel). x.fd) (h.others q other)
  ]

  seat-IsWired :
      (p q : ℕ) (d : TcpConnection) (conns : ℕ → TcpConnection) (r s : Poller os)
      → live p ≡ true
      → live q ≡ true
      → Served conns r
      → Framed os p r s
      → IsWired os p d s
      → IsWired os q (seat conns p d q) s
  seat-IsWired p q d conns r s lp lq w h v = elim (ℕ_discrete p q) [
    | yes same ↦ rw (← same, ==-refl p) v
    | no other ↦
        rw (≢→==-false p q other)
          (IsWired-Framed os p q (conns q) r s other (w.apart p q lp lq other) h (w.wired q lq))
  ]

  Owned-after :
      (p k : ℕ) (conns : ℕ → TcpConnection) (r s : Poller os)
      → live p ≡ true
      → Served conns r
      → Framed os p r s
      → Unknown k s ⊎ Owned k s
  Owned-after p k conns r s lp w h = elim (w.owned k) [
    | inr (q, lq, same) ↦ inr (q, lq, fd-Framed p q r s h ∙ same)
    | inl (f, e) ↦ elim (ℕ_discrete (r.store p).fd k) [
      | yes own ↦ inr (p, lp, h.fd_same ∙ own)
      | no other ↦ inl (h.mapped k other ∙ f, h.watched k other ∙ e)
    ]
  ]

  pub step-Served :
      (p : ℕ) (d : TcpConnection) (es : List Effect) (conns : ℕ → TcpConnection) (r s : Poller os)
      → live p ≡ true
      → Served conns r
      → perform_all os p es r ≡ some s
      → IsWired os p d s
      → Served (seat conns p d) s
  step-Served p d es conns r s lp w done v =
      let h = perform_all-Framed os es p r s done in
      record {
        wired = λ q lq. seat-IsWired p q d conns r s lp lq w h v;
        apart =
            λ q t lq lt ne. rw (fd-Framed p q r s h, fd-Framed p t r s h) (w.apart q t lq lt ne);
        owned = λ k. Owned-after p k conns r s lp w h;
      }
