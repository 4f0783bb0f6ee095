-- ===== src/Poller/Frame/Removal.antt =====
-- Taking one channel off leaves the others as they were.
use echo_server.Prelude.{ℕ, ◌≡◌, refl, none, some, arith, Option-cases, inl, inr}
use echo_server.Channel.{Index, new, added, deleted, disable_all}
use echo_server.Poller.{
  Epoll, Poller, ctl_del, find, erase, set_index, update, remove_channel, apply_change,
}
use echo_server.Poller.Registration.{
  find-erase, Matches, Registered, apply_change-Changed, remove_channel-Registered,
}
use echo_server.Poller.Frame.{Framed, Framed-trans, set_index-Framed, map-Framed, update-Framed}

module _ (os : Epoll) where
  open os use {entry}

  abbrev erased : ℕ → Poller os → Poller os
  erased p r = record r { channels = erase (r.store p).fd r.channels }

  erased-Framed : (p : ℕ) (r : Poller os) → Framed os p r (erased p r)
  erased-Framed p r =
      map-Framed os p r (erase (r.store p).fd r.channels)
        (λ k ne. ground (arith, find-erase (r.store p).fd k r.channels))

  -- The write of the index at the end.
  ended-Framed : (p : ℕ) (r m : Poller os) → Framed os p r m → Framed os p r (set_index os new p m)
  ended-Framed p r m h =
      Framed-trans os p r m (set_index os new p m) h (set_index-Framed os new p m)

  remove_channel-Framed_at :
      (i : Index) (p : ℕ) (r s : Poller os)
      → (r.store p).index ≡ i
      → remove_channel os p r ≡ some s
      → Framed os p r s
  unfolding remove_channel
  remove_channel-Framed_at new p r s i e =
      let step : remove_channel os p r ≡ some (set_index os new p (erased p r)) =
        rw (i, remove_channel) refl in
      let done : set_index os new p (erased p r) ≡ s = cc in
      rw (← done) (ended-Framed p r (erased p r) (erased-Framed p r))
  remove_channel-Framed_at deleted p r s i e =
      let step : remove_channel os p r ≡ some (set_index os new p (erased p r)) =
        rw (i, remove_channel) refl in
      let done : set_index os new p (erased p r) ≡ s = cc in
      rw (← done) (ended-Framed p r (erased p r) (erased-Framed p r))
  remove_channel-Framed_at added p r s i e =
      elim (Option-cases (update os ctl_del p (erased p r))) [
        | inl d ↦
            let step : remove_channel os p r ≡ none = rw (i, remove_channel) (rw (d) refl) in cc
        | inr (m, d) ↦
            let step : remove_channel os p r ≡ some (set_index os new p m) =
              rw (i, remove_channel) (rw (d) refl) in
            let done : set_index os new p m ≡ s = cc in
            rw (← done) (
              ended-Framed p r m (
                Framed-trans os p r (erased p r) m (erased-Framed p r)
                  (update-Framed os ctl_del p (erased p r) m d)))
      ]

  -- Taking a channel off is work on this channel only.
  pub remove_channel-Framed :
      (p : ℕ) (r s : Poller os) → remove_channel os p r ≡ some s → Framed os p r s
  remove_channel-Framed p r s e = remove_channel-Framed_at (r.store p).index p r s refl e

  new_unmapped :
      (p : ℕ) (r : Poller os) (i : Index)
      → i ≡ new
      → Matches os i (r.store p).fd (r.store p).events p r
      → find (r.store p).fd r.channels ≡ none
  new_unmapped p r new e m = m.0
  new_unmapped p r deleted e m = cc
  new_unmapped p r added e m = cc

  -- Neither map nor kernel has anything of a descriptor that was channel `p`'s.
  pub record TakenOff (p fd : ℕ) (t : Poller os) : Type 0 where
    pub unmapped : find fd t.channels ≡ none
    pub unwatched : entry t.interest fd ≡ none
    pub is_new : (t.store p).index ≡ new

  -- `disableAll` and `remove`, as destructors call them.
  pub taken_off :
      (p : ℕ) (r : Poller os)
      → Registered os p r
      → (s t : Poller os) × (apply_change os disable_all p r ≡ some s)
        × (remove_channel os p s ≡ some t)
        × TakenOff p (r.store p).fd t
  taken_off p r m =
      let (s, done, c) = apply_change-Changed os disable_all p r m in
      let (t, removed, again, is_new, unknown, kept, same) =
        remove_channel-Registered os p s c.registered in
      (
        s,
        t,
        done,
        removed,
        record {
          unmapped = rw (← c.fd_same, ← same) (new_unmapped p t (t.store p).index is_new again);
          unwatched = rw (← c.fd_same) unknown;
          is_new = is_new;
        },
      )
