-- ===== src/TcpConnection/Examples.antt =====
-- An open connection, and one that waits to be shut down.
mod Closing
use echo_server.Prelude.{
  ℕ, ◌+◌, ◌≤◌, ◌≡◌, ◌≢◌, ◌⊎◌, inl, inr, refl, ap, Bool, true, false, Option, none, some, List, [],
  ◌∷◌, ◌++◌, arith, length, replicate, if◌then◌else◌, ◌==◌,
}
use echo_server.Buffer
use echo_server.Buffer.{Buffer, Reply, moved, failed, count, readable_bytes, write_fd}
use echo_server.Buffer.Invariant.{IsValid, init-IsValid}
use echo_server.Buffer.Refine.{contents}
use echo_server.Channel.{
  Channel, on_close, none_event, read_event, write_event, union, is_writing, new, added,
  disable_all, change, enable_reading, enable_writing, disable_writing,
}
use echo_server.Channel
use echo_server.TcpConnection.{
  TcpConnection, Run, Effect, changed, connection_callback, close_callback, written, queued,
  shutdown_write, SendReply, sent, refused, would_block, pipe, State, connected, disconnecting,
  disconnected, unregistered, init, send_in_loop, send, handle_write, handle_close,
  shutdown_in_loop, dispatch, connect_established, connect_destroyed, direct, wrote, fault,
  ◌then_run◌, send_raw, read_member, write_complete,
}
use echo_server.TcpConnection.Stream.{
  accepted, send_in_loop_stream, send_in_loop-fault, send_in_loop_disconnected, send_from_outside,
}
use echo_server.TcpConnection.Interest.{
  Inv, KeepsWriting, Occurs, send_in_loop-Inv, handle_write-Inv, shutdown_in_loop_drained,
  handle_write_completes,
}

-- An empty buffer with room for four bytes.
abbrev room : Buffer
room = record {
  storage = 0 ∷ 0 ∷ 0 ∷ 0 ∷ 0 ∷ 0 ∷ 0 ∷ 0 ∷ 0 ∷ 0 ∷ 0 ∷ 0 ∷ [];
  reader_index = 8;
  writer_index = 8;
}

abbrev pub socket : Channel
socket = record {
  fd = 3;
  events = read_event;
  revents = none_event;
  index = added;
  tied = true;
  has_read = true;
  has_write = true;
  has_close = true;
  has_error = true;
}

abbrev pub open_connection : TcpConnection
open_connection = record {
  state = connected;
  channel = socket;
  input = room;
  output = room;
  high_water_mark = 64;
  has_write_complete = true;
  has_high_water = false;
}

-- Two bytes are left to write, and `shutdown` was called.
abbrev closing : TcpConnection
closing = record open_connection {
  state = disconnecting;
  channel = record socket { events = union read_event write_event };
  output = record room {
    storage = 0 ∷ 0 ∷ 0 ∷ 0 ∷ 0 ∷ 0 ∷ 0 ∷ 0 ∷ 5 ∷ 6 ∷ 0 ∷ 0 ∷ [];
    writer_index = 10;
  };
}

-- The kernel takes two bytes.
abbrev takes_two : List ℕ → SendReply
takes_two bytes = sent 2

abbrev gone : List ℕ → SendReply
gone bytes = refused pipe

-- Three bytes to send, two of which the socket takes.
partly_sent : send_in_loop takes_two (1 ∷ 2 ∷ 3 ∷ []) open_connection ≡ (
  record open_connection {
    channel = record socket { events = union read_event write_event };
    output = record room {
      storage = 0 ∷ 0 ∷ 0 ∷ 0 ∷ 0 ∷ 0 ∷ 0 ∷ 0 ∷ 3 ∷ 0 ∷ 0 ∷ 0 ∷ [];
      writer_index = 9;
    };
  },
  written (1 ∷ 2 ∷ 3 ∷ []) ∷ changed enable_writing ∷ [],
)
unfolding send_in_loop Buffer.append Buffer.ensure_writable_bytes
partly_sent = refl

-- The completion functor of a direct write reads the member and calls nothing.
completed :
    (send_in_loop takes_two (1 ∷ 2 ∷ []) open_connection).1
    ≡ written (1 ∷ 2 ∷ []) ∷ queued read_member ∷ []
unfolding send_in_loop
completed = refl

-- The peer is sent the two zeros behind the bytes 5 and 6.
wrong_bytes :
    (handle_write moved closing).1
    ≡ written (0 ∷ 0 ∷ []) ∷ changed disable_writing ∷ queued write_complete ∷ shutdown_write ∷ []
unfolding handle_write write_fd Buffer.offered Buffer.retrieve
wrong_bytes = refl

room-IsValid : IsValid room
room-IsValid = omega arith

open-Inv : Inv open_connection
open-Inv = record { valid = room-IsValid; interest = λ a b. absurd (b refl) }

closing-Inv : Inv closing
closing-Inv = record { valid = omega arith; interest = λ a b. refl }

send_in_loop_stream_example :
    (1 ∷ 2 ∷ []) ++ contents (send_in_loop takes_two (1 ∷ 2 ∷ 3 ∷ []) open_connection).0.output
    ≡ 1 ∷ 2 ∷ 3 ∷ []
send_in_loop_stream_example =
    send_in_loop_stream takes_two (1 ∷ 2 ∷ 3 ∷ []) open_connection room-IsValid (omega arith)
      (omega arith) refl

send_in_loop-Inv_example : Inv (send_in_loop takes_two (1 ∷ 2 ∷ 3 ∷ []) open_connection).0
send_in_loop-Inv_example =
    send_in_loop-Inv takes_two (1 ∷ 2 ∷ 3 ∷ []) open_connection (omega arith) open-Inv

handle_write-Inv_example :
    Inv (handle_write moved closing).0 × KeepsWriting closing (handle_write moved closing).0
handle_write-Inv_example = handle_write-Inv moved closing closing-Inv
