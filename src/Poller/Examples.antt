-- ===== src/Poller/Examples.antt =====
-- A poller with two channels on an interest set that is a function.
use echo_server.Prelude.{◌+◌, ◌≡◌, refl, none, some, [], ◌∷◌}
use echo_server.Channel.{
  added, deleted, enable_writing, disable_all, change, none_event, read_event, write_event, init,
}
use echo_server.Poller.{Poller, find, put, poll, apply_change}
use echo_server.Poller.Table.{write, table}
use echo_server.Poller.Registration.{Registered, Changed, apply_change-Changed}
use echo_server.Poller.Active.{Reported, poll-Reported}

-- Channel 0 on descriptor 3 is read, channel 1 on descriptor 4 has been switched off, and all
-- other channels are new.
abbrev two : Poller table
two = record {
  store =
      put
        (put (λ p. record (init (3 + p)) { fd = 3 + p }) 0
          (record (init 3) { events = read_event; index = added }))
        1 (record (init 4) { index = deleted });
  channels = (3, 0) ∷ (4, 1) ∷ [];
  interest = write 3 (some (read_event, 0)) (λ k. none);
  list_size = 16;
}

two-Registered : Registered table 0 two × Registered table 1 two
unfolding find init
two-Registered = ((refl, refl), (refl, refl))

-- Channel 0 also listens to writing, and then to nothing.
switched_off :
    (s : Poller table) × (apply_change table disable_all 0 two ≡ some s)
    × (find 3 s.channels ≡ some 0)
    × (s.interest 3 ≡ none)
unfolding apply_change change find init
switched_off = (_, refl, refl, refl)

apply_change-Changed_example :
    (s : Poller table) × (apply_change table enable_writing 0 two ≡ some s)
    × Changed table enable_writing 0 two s
apply_change-Changed_example = apply_change-Changed table enable_writing 0 two two-Registered.0

after_change : Poller table
unfolding apply_change change find init
after_change = elim (apply_change table enable_writing 0 two) [ some s ↦ s | none ↦ two ]

-- Both channels are reported, the first one twice.
poll-Reported_example :
    let (active, s) =
      poll table (some ((0, read_event) ∷ (1, none_event) ∷ (0, write_event) ∷ [])) two in
    Reported table
      ((0, read_event) ∷ (1, none_event) ∷ (0, write_event) ∷ [])
      two
      (active, record s { list_size = 16 })
    × (s.list_size ≡ 16)
poll-Reported_example =
    poll-Reported table (0, read_event) ((1, none_event) ∷ (0, write_event) ∷ []) two
