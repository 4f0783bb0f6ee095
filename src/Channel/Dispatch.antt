-- ===== src/Channel/Dispatch.antt =====
-- Which callbacks a channel makes for the events that the poller reported.
use echo_server.Prelude.{Bool, true, false, ◌≡◌, ◌↔◌, ◌⊎◌, refl, List, [], ◌∷◌, arith}
use echo_server.Channel.{
  Channel, Callback, on_close, on_error, on_read, on_write, Change, enable_reading, enable_writing,
  disable_reading, disable_writing, disable_all, change, read_event, meets, is_none_event,
  is_reading, is_writing, handle_event,
}

abbrev pub Calls : Callback → List Callback → Type 0
Calls c [] = ⊥
Calls c (d ∷ ds) = (c ≡ d) ⊎ Calls c ds

-- The callback fires: it is set, and what it is for is reported. For the close callback that is a
-- hangup with nothing to read.
abbrev pub Fires : Channel → Callback → Type 0
Fires c on_close =
    (c.revents.hangup ≡ true) × (meets c.revents read_event ≡ false) × (c.has_close ≡ true)
Fires c on_error = (c.revents.error ≡ true) × (c.has_error ≡ true)
Fires c on_read = (meets c.revents read_event ≡ true) × (c.has_read ≡ true)
Fires c on_write = (c.revents.output ≡ true) × (c.has_write ≡ true)

-- The object that the channel is tied to, if any, lives.
abbrev pub Owned : Channel → Bool → Type 0
Owned c alive = (c.tied ≡ false) ⊎ (alive ≡ true)

complete :
    (c : Channel) (alive : Bool) (k : Callback)
    → Owned c alive
    → Fires c k
    → Calls k (handle_event c alive)
unfolding handle_event
complete c alive on_close h f = ground arith
complete c alive on_error h f = ground arith
complete c alive on_read h f = ground arith
complete c alive on_write h f = ground arith

sound :
    (c : Channel) (alive : Bool) (k : Callback)
    → Calls k (handle_event c alive)
    → Owned c alive × Fires c k
unfolding handle_event
sound c alive on_close m = ground arith
sound c alive on_error m = ground arith
sound c alive on_read m = ground arith
sound c alive on_write m = ground arith

-- A callback is made exactly when it is set, the object that the channel is tied to, if any, lives,
-- and the report asks for it: for the close callback a hangup with nothing to read (neither EPOLLIN
-- nor EPOLLPRI), for the error callback an error, for the read callback EPOLLIN or EPOLLPRI, and for
-- the write callback EPOLLOUT.
pub handle_event_iff :
    (c : Channel) (alive : Bool) (k : Callback)
    → Calls k (handle_event c alive) ↔ (Owned c alive × Fires c k)
handle_event_iff c alive k = (sound c alive k, λ h. complete c alive k h.0 h.1)

-- Where the owner lives and close, error and write all fire, exactly these three callbacks are
-- made, in this order.
pub handle_event_order :
    (c : Channel) (alive : Bool)
    → Owned c alive
    → Fires c on_close
    → Fires c on_error
    → Fires c on_write
    → handle_event c alive ≡ on_close ∷ on_error ∷ on_write ∷ []
unfolding handle_event
handle_event_order c alive o f g h = ground arith

-- What a change means for the two tests, from the channel before to the channel after.
abbrev pub Tells : Change → Channel → Channel → Type 0
Tells enable_reading c d = (is_reading d ≡ true) × (is_writing d ≡ is_writing c)
Tells enable_writing c d = (is_writing d ≡ true) × (is_reading d ≡ is_reading c)
Tells disable_reading c d = (is_reading d ≡ false) × (is_writing d ≡ is_writing c)
Tells disable_writing c d = (is_writing d ≡ false) × (is_reading d ≡ is_reading c)
Tells disable_all c d = (is_none_event d ≡ true) × (is_writing d ≡ false) × (is_reading d ≡ false)

-- Each change turns the one kind of event on or off and leaves the other as it was, and
-- `disableAll` leaves no event.
pub change_tests : (k : Change) (c : Channel) → Tells k c (record c { events = change k c.events })
unfolding change
change_tests enable_reading c = ground arith
change_tests enable_writing c = ground arith
change_tests disable_reading c = ground arith
change_tests disable_writing c = ground arith
change_tests disable_all c = (refl, refl, refl)
