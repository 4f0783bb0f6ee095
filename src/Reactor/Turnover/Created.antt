-- ===== src/Reactor/Turnover/Created.antt =====
-- A connection that is made, and one that is destroyed, leave the loop's others in agreement with
-- poller and kernel.
use echo_server.Prelude.{
  ℕ, ◌≡◌, ◌≢◌, refl, sym, ap, ◌∙◌, ◌⊎◌, inl, inr, true, false, arith, Bool, ==-refl, ℕ_discrete,
}
use echo_server.Channel
use echo_server.Channel.{Channel, Index, new, added, deleted}
use echo_server.Poller.{Epoll}
use echo_server.Poller.Registration.{Matches}
use echo_server.Poller.Frame.{Same}
use echo_server.TcpConnection
use echo_server.TcpConnection.{TcpConnection}
use echo_server.TcpConnection.Wiring.{IsWired}
use echo_server.TcpConnection.Neighbours.{IsWired-Same}
use echo_server.Reactor.Served.{Served, Unknown, Owned}
use echo_server.Reactor.Turnover.{World, mark, create, release}

mark_self : (live : ℕ → Bool) (p : ℕ) (b : Bool) → mark live p b p ≡ b
mark_self live p b = rw (==-refl p)

mark_other : (live : ℕ → Bool) (p q : ℕ) (b : Bool) → p ≢ q → mark live p b q ≡ live q
mark_other live p q b ne = ground arith

live-mark : (live : ℕ → Bool) (p q : ℕ) → p ≢ q → mark live p true q ≡ true → live q ≡ true
live-mark live p q ne h = sym (mark_other live p q true ne) ∙ h

module _ (os : Epoll) where
  module _ (p fd : ℕ) (x : World os) where
    abbrev made : World os
    made = create os p fd x

    store_self : made.poller.store p ≡ (TcpConnection.init fd).channel
    store_self = rw (==-refl p)

    conns_self : made.conns p ≡ TcpConnection.init fd
    conns_self = rw (==-refl p)

    store_other : (q : ℕ) → p ≢ q → made.poller.store q ≡ x.poller.store q
    store_other q ne = ground arith

    conns_other : (q : ℕ) → p ≢ q → made.conns q ≡ x.conns q
    conns_other q ne = ground arith

    fd_self : (made.poller.store p).fd ≡ fd
    unfolding TcpConnection.init Channel.init Channel.set_callback
    fd_self = ap (λ (c : Channel). c.fd) store_self

    fd_other : (q : ℕ) → p ≢ q → (made.poller.store q).fd ≡ (x.poller.store q).fd
    fd_other q ne = ap (λ (c : Channel). c.fd) (store_other q ne)

    -- A new channel is registered as one that neither map nor kernel knows.
    init-IsWired : Unknown os x.live fd x.poller → IsWired os p (TcpConnection.init fd) made.poller
    unfolding TcpConnection.init Channel.init Channel.set_callback
    init-IsWired h = record { registered = rw (store_self) h; agrees = rw (store_self) refl }

    module _ (w : Served os x.live x.conns x.poller) where
      abbrev Fresh : Type 0
      Fresh = (q : ℕ) → x.live q ≡ true → (x.poller.store q).fd ≢ fd

      made-IsWired : Fresh → (q : ℕ) → made.live q ≡ true → IsWired os q (made.conns q) made.poller
      made-IsWired fresh q lq = elim (ℕ_discrete p q) [
        | yes same ↦ elim (w.owned fd) [
          | inl h ↦ rw (← same, conns_self) (init-IsWired h)
          | inr (t, lt, own) ↦ absurd (fresh t lt own)
        ]
        | no other ↦
            let old = w.wired q (live-mark x.live p q other lq) in
            let same : Same os q x.poller made.poller = record {
              channel = store_other q other;
              mapped = refl;
              watched = refl;
            } in
            rw (conns_other q other) (IsWired-Same os q (x.conns q) x.poller made.poller same old)
      ]

      made_apart :
          Fresh
          → (q t : ℕ) → made.live q ≡ true
          → made.live t ≡ true
          → q ≢ t
          → (made.poller.store q).fd ≢ (made.poller.store t).fd
      made_apart fresh q t lq lt ne = elim (ℕ_discrete p q) [
        | yes pq ↦ elim (ℕ_discrete p t) [
          | yes pt ↦ absurd (ne (sym pq ∙ pt))
          | no pt ↦
              rw (← pq, fd_self, fd_other t pt) (λ e. fresh t (live-mark x.live p t pt lt) (sym e))
        ]
        | no pq ↦ elim (ℕ_discrete p t) [
          | yes pt ↦ rw (← pt, fd_self, fd_other q pq) (fresh q (live-mark x.live p q pq lq))
          | no pt ↦
              rw (fd_other q pq, fd_other t pt)
                (w.apart q t (live-mark x.live p q pq lq) (live-mark x.live p t pt lt) ne)
        ]
      ]

      made-Owned :
          x.live p ≡ false
          → (k : ℕ) → Unknown os made.live k made.poller ⊎ Owned os made.live k made.poller
      made-Owned free k = elim (w.owned k) [
        | inl h ↦ inl h
        | inr (q, lq, own) ↦
            let other : p ≢ q = λ same. cc in
            inr (q, mark_other x.live p q true other ∙ lq, fd_other q other ∙ own)
      ]

      pub create-Served : x.live p ≡ false → Fresh → Served os made.live made.conns made.poller
      create-Served free fresh = record {
        wired = made-IsWired fresh;
        apart = made_apart fresh;
        owned = made-Owned free;
      }

  -- A connection whose channel is off the poller leaves nothing behind.
  module _ (p : ℕ) (x : World os) (w : Served os x.live x.conns x.poller)
      (lp : x.live p ≡ true) where
    gone :
        (i : Index)
        → i ≡ new
        → Matches os i (x.poller.store p).fd (x.poller.store p).events p x.poller
        → Unknown os x.live (x.poller.store p).fd x.poller
    gone new e m = m
    gone added e m = cc
    gone deleted e m = cc

    left-Owned :
        (x.poller.store p).index ≡ new
        → (k : ℕ)
        → Unknown os (release os p x).live k x.poller ⊎ Owned os (release os p x).live k x.poller
    left-Owned off k = elim (w.owned k) [
      | inl h ↦ inl h
      | inr (q, lq, own) ↦ elim (ℕ_discrete p q) [
        | yes same ↦
            inl (rw (← own, ← same) (gone (x.poller.store p).index off (w.wired p lp).registered))
        | no other ↦ inr (q, mark_other x.live p q false other ∙ lq, own)
      ]
    ]

    still_live : (q : ℕ) → (release os p x).live q ≡ true → x.live q ≡ true
    still_live q h = ground arith

    pub release-Served :
        (x.poller.store p).index ≡ new → Served os (release os p x).live x.conns x.poller
    release-Served off = record {
      wired = λ q lq. w.wired q (still_live q lq);
      apart = λ q t lq lt ne. w.apart q t (still_live q lq) (still_live t lt) ne;
      owned = left-Owned off;
    }
