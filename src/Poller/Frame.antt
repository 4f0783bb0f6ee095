-- ===== src/Poller/Frame.antt =====
-- Work on one channel leaves the others as they were, and what a second `disableAll` does.
pub mod Removal
use echo_server.Prelude.{
  ℕ, ◌≡◌, ◌≢◌, refl, sym, ap, ◌∙◌, some, none, List, arith, inl, inr, ==-refl, Bool-cases,
  Option-cases, ℕ_discrete,
}
use echo_server.Channel.{
  Channel, Events, Index, new, added, deleted, Change, disable_all, change, is_none, none_event,
}
use echo_server.Poller.{
  Epoll, Poller, Operation, ctl_add, ctl_mod, ctl_del, find, insert, put, set_index, update,
  update_channel, apply_change,
}
use echo_server.Poller.Registration.{
  find-insert, Matches, Registered, next_index, apply_change-Changed,
}

module _ (os : Epoll) where
  open os use {State, entry, ctl, add_fresh, add_sets, others_stay}

  -- Nothing that is known of channel `q` has changed.
  pub record Same (q : ℕ) (r s : Poller os) : Type 0 where
    pub channel : s.store q ≡ r.store q
    pub mapped : find (r.store q).fd s.channels ≡ find (r.store q).fd r.channels
    pub watched : entry s.interest (r.store q).fd ≡ entry r.interest (r.store q).fd

  Matches-Same :
      (i : Index) (q : ℕ) (r s : Poller os) (e : Events)
      → Same q r s
      → Matches os i (r.store q).fd e q r
      → Matches os i (r.store q).fd e q s
  Matches-Same new q r s e h m = (h.mapped ∙ m.0, h.watched ∙ m.1)
  Matches-Same deleted q r s e h m = (h.mapped ∙ m.0, h.watched ∙ m.1)
  Matches-Same added q r s e h m = (h.mapped ∙ m.0, h.watched ∙ m.1)

  pub Registered-Same :
      (q : ℕ) (r s : Poller os) → Same q r s → Registered os q r → Registered os q s
  Registered-Same q r s h m =
      rw (h.channel) (Matches-Same (r.store q).index q r s (r.store q).events h m)

  -- What work on channel `p` leaves: its own descriptor, every other channel, the events that were
  -- saved in any channel, and what map and kernel have for any other descriptor.
  pub record Framed (p : ℕ) (r s : Poller os) : Type 0 where
    pub fd_same : (s.store p).fd ≡ (r.store p).fd
    pub others : (q : ℕ) → p ≢ q → s.store q ≡ r.store q
    pub saved : (q : ℕ) → (s.store q).revents ≡ (r.store q).revents
    pub mapped : (k : ℕ) → (r.store p).fd ≢ k → find k s.channels ≡ find k r.channels
    pub watched : (k : ℕ) → (r.store p).fd ≢ k → entry s.interest k ≡ entry r.interest k

  pub Framed-refl : (p : ℕ) (r : Poller os) → Framed p r r
  Framed-refl p r = record {
    fd_same = refl;
    others = λ q ne. refl;
    saved = λ q. refl;
    mapped = λ k ne. refl;
    watched = λ k ne. refl;
  }

  pub Framed-trans : (p : ℕ) (r s t : Poller os) → Framed p r s → Framed p s t → Framed p r t
  Framed-trans p r s t h g = record {
    fd_same = g.fd_same ∙ h.fd_same;
    others = λ q ne. g.others q ne ∙ h.others q ne;
    saved = λ q. g.saved q ∙ h.saved q;
    mapped = λ k ne. g.mapped k (rw (h.fd_same) ne) ∙ h.mapped k ne;
    watched = λ k ne. g.watched k (rw (h.fd_same) ne) ∙ h.watched k ne;
  }

  -- A write of the channel object that keeps its descriptor and its saved events.
  put-Framed :
      (p : ℕ) (r : Poller os) (c : Channel)
      → c.fd ≡ (r.store p).fd
      → c.revents ≡ (r.store p).revents
      → Framed p r (record r { store = put r.store p c })
  put-Framed p r c fd revents = record {
    fd_same = rw (==-refl p) fd;
    others = λ q ne. ground arith;
    saved = λ q. elim (ℕ_discrete p q) [
      | yes same ↦ rw (← same, ==-refl p) revents
      | no other ↦ ground arith
    ];
    mapped = λ k ne. refl;
    watched = λ k ne. refl;
  }

  pub set_index-Framed : (i : Index) (p : ℕ) (r : Poller os) → Framed p r (set_index os i p r)
  set_index-Framed i p r = put-Framed p r (record (r.store p) { index = i }) refl refl

  -- A write of the map at the channel's descriptor.
  pub map-Framed :
      (p : ℕ) (r : Poller os) (m : List (ℕ × ℕ))
      → ((k : ℕ) → (r.store p).fd ≢ k → find k m ≡ find k r.channels)
      → Framed p r (record r { channels = m })
  map-Framed p r m h = record {
    fd_same = refl;
    others = λ q ne. refl;
    saved = λ q. refl;
    mapped = h;
    watched = λ k ne. refl;
  }

  -- One call of `epoll_ctl`.
  control-Framed :
      (o : Operation) (p : ℕ) (r : Poller os) (t : State) (e : Events × ℕ)
      → ctl o (r.store p).fd e r.interest ≡ some t
      → Framed p r (record r { interest = t })
  control-Framed o p r t e done = record {
    fd_same = refl;
    others = λ q ne. refl;
    saved = λ q. refl;
    mapped = λ k ne. refl;
    watched = λ k ne. others_stay o r.interest t (r.store p).fd e k done ne;
  }

  pub update-Framed :
      (o : Operation) (p : ℕ) (r s : Poller os) → update os o p r ≡ some s → Framed p r s
  unfolding update
  update-Framed o p r s h =
      let e : Events × ℕ = ((r.store p).events, p) in
      elim (Option-cases (ctl o (r.store p).fd e r.interest)) [
        | inr (t, done) ↦
            let k : update os o p r ≡ some (record r { interest = t }) = rw (done, update) refl in
            let same : record r { interest = t } ≡ s = cc in
            rw (← same) (control-Framed o p r t e done)
        | inl failed ↦ rw (refused o failed h) (Framed-refl p r)
      ]
    where
      refused :
          (o : Operation)
          → ctl o (r.store p).fd ((r.store p).events, p) r.interest ≡ none
          → update os o p r ≡ some s
          → s ≡ r
      refused ctl_add failed h = ground arith
      refused ctl_mod failed h = ground arith
      refused ctl_del failed h = ground arith

  -- A step that is followed by `update`.
  then-Framed :
      (o : Operation) (p : ℕ) (r m s : Poller os)
      → Framed p r m
      → update os o p m ≡ some s
      → Framed p r s
  then-Framed o p r m s h e = Framed-trans p r m s h (update-Framed o p m s e)

  update_channel-Framed :
      (i : Index) (p : ℕ) (r s : Poller os)
      → (r.store p).index ≡ i
      → update_channel os p r ≡ some s
      → Framed p r s
  unfolding update_channel
  update_channel-Framed new p r s i e =
      let fd = (r.store p).fd in
      let m : Poller os = record r { channels = insert fd p r.channels } in
      let step : update_channel os p r ≡ update os ctl_add p (set_index os added p m) =
        rw (i, update_channel) in
      let inserted =
        map-Framed p r (insert fd p r.channels)
          (λ k ne. ground (arith, find-insert fd p k r.channels)) in
      then-Framed ctl_add p r (set_index os added p m) s
        (Framed-trans p r m (set_index os added p m) inserted (set_index-Framed added p m))
        (sym step ∙ e)
  update_channel-Framed deleted p r s i e =
      let step : update_channel os p r ≡ update os ctl_add p (set_index os added p r) =
        rw (i, update_channel) in
      then-Framed ctl_add p r (set_index os added p r) s (set_index-Framed added p r) (sym step ∙ e)
  update_channel-Framed added p r s i e = elim (Bool-cases (is_none (r.store p).events)) [
    | inl idle ↦
        let step : update_channel os p r ≡ update os ctl_del p (set_index os deleted p r) =
          rw (i, update_channel) (rw idle) in
        then-Framed ctl_del p r (set_index os deleted p r) s (set_index-Framed deleted p r)
          (sym step ∙ e)
    | inr busy ↦
        let step : update_channel os p r ≡ update os ctl_mod p r =
          rw (i, update_channel) (rw busy) in
        update-Framed ctl_mod p r s (sym step ∙ e)
  ]

  -- A change of a channel is work on this channel only.
  pub apply_change-Framed :
      (k : Change) (p : ℕ) (r s : Poller os) → apply_change os k p r ≡ some s → Framed p r s
  unfolding apply_change
  apply_change-Framed k p r s e =
      let c : Channel = record (r.store p) { events = change k (r.store p).events } in
      let m : Poller os = record r { store = put r.store p c } in
      Framed-trans p r m s (put-Framed p r c refl refl)
        (update_channel-Framed (m.store p).index p m s refl e)

  -- So nothing changes for another channel with another descriptor.
  pub Same-Framed :
      (p q : ℕ) (r s : Poller os)
      → p ≢ q
      → (r.store p).fd ≢ (r.store q).fd
      → Framed p r s
      → Same q r s
  Same-Framed p q r s ne fd h = record {
    channel = h.others q ne;
    mapped = h.mapped (r.store q).fd fd;
    watched = h.watched (r.store q).fd fd;
  }

  -- What the kernel knows of a channel that is on the interest set.
  pub entry-added :
      (p : ℕ) (r : Poller os) (i : Index)
      → i ≡ added
      → Matches os i (r.store p).fd (r.store p).events p r
      → entry r.interest (r.store p).fd ≡ some ((r.store p).events, p)
  entry-added p r new e m = cc
  entry-added p r deleted e m = cc
  entry-added p r added e m = m.1

  -- `disableAll` on a channel that is already off the interest set, as in a second close of one
  -- connection, puts its descriptor back in the set, with no event to listen to.
  pub disable_all-deleted :
      (p : ℕ) (r : Poller os)
      → Registered os p r
      → (r.store p).index ≡ deleted
      → (s : Poller os) × (apply_change os disable_all p r ≡ some s)
        × ((s.store p).index ≡ added)
        × (entry s.interest (r.store p).fd ≡ some (none_event, p))
  unfolding change
  disable_all-deleted p r m i =
      let (s, done, c) = apply_change-Changed os disable_all p r m in
      let back : (s.store p).index ≡ added = c.index_is ∙ ap (λ x. next_index os x none_event) i in
      (
        s,
        done,
        back,
        rw (← c.fd_same) (
            entry-added p s (s.store p).index back c.registered
            ∙ ap (λ e. some (e, p)) c.events_are),
      )
