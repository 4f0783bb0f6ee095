-- ===== src/Channel/Examples.antt =====
-- A connected channel on which the poller reports events.
use echo_server.Prelude.{true, false, ◌≡◌, inr, refl, [], ◌∷◌}
use echo_server.Channel.{
  added, Channel, on_close, on_error, on_write, read_event, write_event, handle_event,
}
use echo_server.Channel.Dispatch.{Calls, handle_event_iff}

abbrev reset_channel : Channel
reset_channel = record {
  fd = 7;
  events = read_event;
  revents = record write_event { hangup = true; error = true };
  index = added;
  tied = true;
  has_read = true;
  has_write = true;
  has_close = true;
  has_error = true;
}

reset_calls : handle_event reset_channel true ≡ on_close ∷ on_error ∷ on_write ∷ []
unfolding handle_event
reset_calls = refl

dead_owner : handle_event reset_channel false ≡ []
unfolding handle_event
dead_owner = refl

handle_event_iff_example : Calls on_error (handle_event reset_channel true)
handle_event_iff_example = (handle_event_iff reset_channel true on_error).1 (inr refl, (refl, refl))
