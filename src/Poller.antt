-- ===== src/Poller.antt =====
-- include/Poller.h, include/EPollPoller.h, src/Poller.cc, src/EPollPoller.cc, and `update` and
-- `remove` of src/Channel.cc, which reach the poller through the loop. The kernel's epoll instance
-- is the parameter `Epoll`. Channels are shared objects: the poller's state holds them in a store,
-- and a pointer is a number. `LOG_FATAL` aborts the program, and is `none`.
pub mod Registration
pub mod Frame
pub mod Active
pub mod Table
mod Examples
use echo_server.Prelude.{
  ℕ, ◌+◌, ◌*◌, ◌≡◌, ◌≢◌, Bool, true, false, Option, none, some, List, [], ◌∷◌, ◌++◌, ◌==◌, length,
  if◌then◌else◌,
}
use echo_server.Channel.{
  Channel, Events, Index, new, added, deleted, Change, change, is_none_event, save_revents,
}

-- EPOLL_CTL_ADD, EPOLL_CTL_MOD and EPOLL_CTL_DEL.
pub data Operation : Type 0 where
  ctl_add ctl_mod ctl_del : Operation

-- An epoll instance: the interest set by descriptor, with the events and the data pointer of each
-- entry, and `epoll_ctl`, which gives the new set, or none on an error. As its manual page says,
-- ADD wants a descriptor that is not in the set, MOD and DEL one that is. That the kernel has
-- memory for another entry is assumed.
pub record Epoll : Type 1 where
  pub State : Type 0
  pub entry : State → ℕ → Option (Events × ℕ)
  pub ctl : Operation → ℕ → Events × ℕ → State → Option State
  pub add_fresh :
      (s : State) (fd : ℕ) (e : Events × ℕ)
      → entry s fd ≡ none
      → (t : State) × (ctl ctl_add fd e s ≡ some t)
  pub mod_present :
      (s : State) (fd : ℕ) (e old : Events × ℕ)
      → entry s fd ≡ some old
      → (t : State) × (ctl ctl_mod fd e s ≡ some t)
  pub del_present :
      (s : State) (fd : ℕ) (e old : Events × ℕ)
      → entry s fd ≡ some old
      → (t : State) × (ctl ctl_del fd e s ≡ some t)
  pub add_sets :
      (s t : State) (fd : ℕ) (e : Events × ℕ) → ctl ctl_add fd e s ≡ some t → entry t fd ≡ some e
  pub mod_sets :
      (s t : State) (fd : ℕ) (e : Events × ℕ) → ctl ctl_mod fd e s ≡ some t → entry t fd ≡ some e
  pub del_clears :
      (s t : State) (fd : ℕ) (e : Events × ℕ) → ctl ctl_del fd e s ≡ some t → entry t fd ≡ none
  pub others_stay :
      (o : Operation) (s t : State) (fd : ℕ) (e : Events × ℕ) (other : ℕ)
      → ctl o fd e s ≡ some t
      → fd ≢ other
      → entry t other ≡ entry s other

-- `std::unordered_map<int, Channel*>`, as an association list.
unfoldable pub find : ℕ → List (ℕ × ℕ) → Option ℕ
find k [] = none
find k ((j, p) ∷ m) = if j == k then some p else find k m

unfoldable pub insert : ℕ → ℕ → List (ℕ × ℕ) → List (ℕ × ℕ)
insert k p [] = (k, p) ∷ []
insert k p ((j, q) ∷ m) = if j == k then (k, p) ∷ m else (j, q) ∷ insert k p m

unfoldable pub erase : ℕ → List (ℕ × ℕ) → List (ℕ × ℕ)
erase k [] = []
erase k ((j, q) ∷ m) = if j == k then erase k m else (j, q) ∷ erase k m

-- The channel objects by address.
abbrev pub put : (ℕ → Channel) → ℕ → Channel → ℕ → Channel
put store p c q = if p == q then c else store q

abbrev pub init_event_list_size : ℕ
init_event_list_size = 16

module _ (os : Epoll) where
  open os use {State, ctl}

  -- `revents_` is measured only: the events are an argument of `poll`.
  pub record Poller : Type 0 where
    pub store : ℕ → Channel
    pub channels : List (ℕ × ℕ)
    pub interest : State
    pub list_size : ℕ

  -- `EPollPoller::update`: only a failed DEL goes on, with an error in the log.
  unfoldable pub update : Operation → ℕ → Poller → Option Poller
  update o p r = elim (ctl o c.fd (c.events, p) r.interest) [
    | some t ↦ some (record r { interest = t })
    | none ↦ elim o [ ctl_del ↦ some r | _ ↦ none ]
  ]
    where
      c : Channel
      c = r.store p

  abbrev pub set_index : Index → ℕ → Poller → Poller
  set_index i p r = record r { store = put r.store p (record (r.store p) { index = i }) }

  unfoldable pub update_channel : ℕ → Poller → Option Poller
  unfolding update
  update_channel p r = elim (r.store p).index [
    | new ↦
        update ctl_add p
          (set_index added p (record r { channels = insert (r.store p).fd p r.channels }))
    | deleted ↦ update ctl_add p (set_index added p r)
    | added ↦
        if is_none_event (r.store p)
        then update ctl_del p (set_index deleted p r)
        else update ctl_mod p r
  ]

  unfoldable pub remove_channel : ℕ → Poller → Option Poller
  unfolding update
  remove_channel p r =
      let erased = record r { channels = erase (r.store p).fd r.channels } in
      elim (r.store p).index [
        | added ↦ elim (update ctl_del p erased) [ none ↦ none | some s ↦ some (set_index new p s) ]
        | _ ↦ some (set_index new p erased)
      ]

  -- `enableReading` and its relatives: `events_` first, then `update()`.
  unfoldable pub apply_change : Change → ℕ → Poller → Option Poller
  unfolding update_channel
  apply_change k p r = update_channel p (record r {
    store = put r.store p (record (r.store p) { events = change k (r.store p).events });
  })

  unfoldable pub has_channel : ℕ → Poller → Bool
  has_channel p r = elim (find (r.store p).fd r.channels) [ none ↦ false | some q ↦ q == p ]

  -- The entries that `epoll_wait` filled in, each with its data pointer and its events.
  unfoldable pub fill_active_channels : List (ℕ × Events) → Poller → List ℕ × Poller
  fill_active_channels [] r = ([], r)
  fill_active_channels ((p, e) ∷ es) r =
      let (ps, s) =
        fill_active_channels es (record r { store = put r.store p (save_revents e (r.store p)) }) in
      (p ∷ ps, s)

  -- `epoll_wait` reports entries, or fails. A full list doubles.
  unfoldable pub poll : Option (List (ℕ × Events)) → Poller → List ℕ × Poller
  unfolding fill_active_channels
  poll none r = ([], r)
  poll (some []) r = ([], r)
  poll (some (e ∷ es)) r =
      let (ps, s) = fill_active_channels (e ∷ es) r in
      (ps, if length (e ∷ es) == r.list_size then record s { list_size = 2 * r.list_size } else s)
