-- ===== src/Poller/Registration.antt =====
-- A channel's index, the poller's map and the kernel's interest set tell the same story.
use echo_server.Prelude.{
  ℕ, ◌≡◌, refl, none, some, List, [], ◌∷◌, arith, inl, inr, ◌==◌, ==-refl, if◌then◌else◌,
  Bool-cases,
}
use echo_server.Channel.{Channel, Events, Index, new, added, deleted, Change, change, is_none}
use echo_server.Poller.{
  Epoll, Poller, Operation, find, insert, erase, put, update, update_channel, remove_channel,
  apply_change,
}

pub find-insert :
    (k p j : ℕ) (m : List (ℕ × ℕ)) → find j (insert k p m) ≡ (if k == j then some p else find j m)
unfolding find insert
find-insert k p j [] = refl
find-insert k p j ((i, q) ∷ m) = ground (arith, find-insert k p j m)

pub find-erase :
    (k j : ℕ) (m : List (ℕ × ℕ)) → find j (erase k m) ≡ (if k == j then none else find j m)
unfolding find erase
find-erase k j [] = ground arith
find-erase k j ((i, q) ∷ m) = ground (arith, find-erase k j m)

module _ (os : Epoll) where
  open os use {
    State, entry, ctl, add_fresh, mod_present, del_present, add_sets, mod_sets, del_clears,
    others_stay,
  }

  -- What the map and the interest set hold for a channel with this index, descriptor and events.
  abbrev pub Matches : Index → ℕ → Events → ℕ → Poller os → Type 0
  Matches new fd e p r = (find fd r.channels ≡ none) × (entry r.interest fd ≡ none)
  Matches deleted fd e p r = (find fd r.channels ≡ some p) × (entry r.interest fd ≡ none)
  Matches added fd e p r = (find fd r.channels ≡ some p) × (entry r.interest fd ≡ some (e, p))

  abbrev pub Registered : ℕ → Poller os → Type 0
  Registered p r = Matches (r.store p).index (r.store p).fd (r.store p).events p r

  -- The same with the kernel's events out of date, as between the change of `events_` and `update`.
  Stale : Index → ℕ → ℕ → Poller os → Type 0
  Stale i fd p r = (e : Events) × Matches i fd e p r

  -- Where `updateChannel` leaves the channel.
  abbrev pub next_index : Index → Events → Index
  next_index added e = if is_none e then deleted else added
  next_index new e = added
  next_index deleted e = added

  update-some :
      (o : Operation) (p : ℕ) (r : Poller os) (t : State)
      → ctl o (r.store p).fd ((r.store p).events, p) r.interest ≡ some t
      → update os o p r ≡ some (record r { interest = t })
  unfolding update
  update-some o p r t e = rw (e, update)

  record Updated (p : ℕ) (r s : Poller os) : Type 0 where
    registered : Registered p s
    index_is : (s.store p).index ≡ next_index (r.store p).index (r.store p).events
    events_same : (s.store p).events ≡ (r.store p).events
    fd_same : (s.store p).fd ≡ (r.store p).fd

  update_channel-Updated :
      (i : Index) (p : ℕ) (r : Poller os)
      → (r.store p).index ≡ i
      → Stale i (r.store p).fd p r
      → (s : Poller os) × (update_channel os p r ≡ some s) × Updated p r s
  unfolding update_channel Stale
  update_channel-Updated new p r e (old, m) =
      let (t, done) = add_fresh r.interest (r.store p).fd ((r.store p).events, p) m.1 in
      let s : Poller os = record {
        store = put r.store p (record (r.store p) { index = added });
        channels = insert (r.store p).fd p r.channels;
        interest = t;
        list_size = r.list_size;
      } in
      (
        s,
        ground arith,
        ground (
          arith,
          add_sets r.interest t (r.store p).fd ((r.store p).events, p) done,
          find-insert (r.store p).fd p (r.store p).fd r.channels,
        ),
      )
  update_channel-Updated deleted p r e (old, m) =
      let (t, done) = add_fresh r.interest (r.store p).fd ((r.store p).events, p) m.1 in
      let s : Poller os = record r {
        store = put r.store p (record (r.store p) { index = added });
        interest = t;
      } in
      (
        s,
        ground arith,
        ground (arith, add_sets r.interest t (r.store p).fd ((r.store p).events, p) done),
      )
  update_channel-Updated added p r e (old, m) = elim (Bool-cases (is_none (r.store p).events)) [
    | inl idle ↦
        let (t, done) =
          del_present r.interest (r.store p).fd ((r.store p).events, p) (old, p) m.1 in
        let s : Poller os = record r {
          store = put r.store p (record (r.store p) { index = deleted });
          interest = t;
        } in
        (
          s,
          ground arith,
          ground (arith, del_clears r.interest t (r.store p).fd ((r.store p).events, p) done),
        )
    | inr busy ↦
        let (t, done) =
          mod_present r.interest (r.store p).fd ((r.store p).events, p) (old, p) m.1 in
        let s : Poller os = record r { interest = t } in
        (
          s,
          ground arith,
          ground (arith, mod_sets r.interest t (r.store p).fd ((r.store p).events, p) done),
        )
  ]

  -- What a change of a registered channel leads to: the program does not abort, the channel is
  -- registered again under the changed events, and its index is what `updateChannel` makes of them.
  pub record Changed (k : Change) (p : ℕ) (r s : Poller os) : Type 0 where
    pub registered : Registered p s
    pub events_are : (s.store p).events ≡ change k (r.store p).events
    pub index_is : (s.store p).index ≡ next_index (r.store p).index (change k (r.store p).events)
    pub fd_same : (s.store p).fd ≡ (r.store p).fd

  -- `events_` has changed, and `update()` is still to come.
  abbrev touched : Change → ℕ → Poller os → Poller os
  touched k p r = record r {
    store = put r.store p (record (r.store p) { events = change k (r.store p).events });
  }

  Matches-store :
      (store : ℕ → Channel) (i : Index) (fd : ℕ) (e : Events) (p : ℕ) (r : Poller os)
      → Matches i fd e p r
      → Matches i fd e p (record r { store = store })
  Matches-store store new fd e p r m = m
  Matches-store store deleted fd e p r m = m
  Matches-store store added fd e p r m = m

  touched-Stale :
      (k : Change) (p : ℕ) (r : Poller os)
      → Registered p r
      → Stale (r.store p).index ((touched k p r).store p).fd p (touched k p r)
  unfolding Stale
  touched-Stale k p r m = rw (==-refl p) (
    (r.store p).events,
    Matches-store (touched k p r).store (r.store p).index (r.store p).fd (r.store p).events p r m,
  )

  Updated-Changed :
      (k : Change) (p : ℕ) (r s : Poller os) → Updated p (touched k p r) s → Changed k p r s
  Updated-Changed k p r s u = ground (arith, u)

  -- `enableReading` and its relatives keep a registered channel registered and never abort; the
  -- index afterwards is the one that `updateChannel` sets for the changed events.
  pub apply_change-Changed :
      (k : Change) (p : ℕ) (r : Poller os)
      → Registered p r
      → (s : Poller os) × (apply_change os k p r ≡ some s) × Changed k p r s
  unfolding apply_change
  apply_change-Changed k p r m =
      let same : ((touched k p r).store p).index ≡ (r.store p).index = rw (==-refl p) in
      let (s, done, u) =
        update_channel-Updated (r.store p).index p (touched k p r) same (touched-Stale k p r m) in
      (s, done, Updated-Changed k p r s u)

  record Removed (p : ℕ) (r s : Poller os) : Type 0 where
    registered : Registered p s
    index_is : (s.store p).index ≡ new
    unknown : entry s.interest (r.store p).fd ≡ none
    events_kept : (s.store p).events ≡ (r.store p).events
    fd_same : (s.store p).fd ≡ (r.store p).fd

  removed :
      (p : ℕ) (r : Poller os) (t : State)
      → entry t (r.store p).fd ≡ none
      → Removed p r (record {
        store = put r.store p (record (r.store p) { index = new });
        channels = erase (r.store p).fd r.channels;
        interest = t;
        list_size = r.list_size;
      })
  removed p r t gone = ground (
    arith,
    ==-refl p,
    find-erase (r.store p).fd (r.store p).fd r.channels,
    ==-refl (r.store p).fd,
  )

  remove_channel-Removed :
      (i : Index) (p : ℕ) (r : Poller os)
      → (r.store p).index ≡ i
      → Matches i (r.store p).fd (r.store p).events p r
      → (s : Poller os) × (remove_channel os p r ≡ some s) × Removed p r s
  unfolding remove_channel
  remove_channel-Removed new p r e m = (_, ground arith, removed p r r.interest m.1)
  remove_channel-Removed deleted p r e m = (_, ground arith, removed p r r.interest m.1)
  remove_channel-Removed added p r e m =
      let ev : Events × ℕ = ((r.store p).events, p) in
      let (t, done) = del_present r.interest (r.store p).fd ev ev m.1 in
      (_, ground arith, removed p r t (del_clears r.interest t (r.store p).fd ev done))

  -- A channel that is taken off is new again, and neither the map nor the kernel knows its
  -- descriptor. The call does not abort, and the channel keeps its descriptor and the events that
  -- it asks for.
  pub remove_channel-Registered :
      (p : ℕ) (r : Poller os)
      → Registered p r
      → (s : Poller os) × (remove_channel os p r ≡ some s)
        × Registered p s
        × ((s.store p).index ≡ new)
        × (entry s.interest (r.store p).fd ≡ none)
        × ((s.store p).events ≡ (r.store p).events)
        × ((s.store p).fd ≡ (r.store p).fd)
  remove_channel-Registered p r m =
      let (s, done, w) = remove_channel-Removed (r.store p).index p r refl m in
      (s, done, w.registered, w.index_is, w.unknown, w.events_kept, w.fd_same)
