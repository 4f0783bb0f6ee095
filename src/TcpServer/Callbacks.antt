-- ===== src/TcpServer/Callbacks.antt =====
-- The callbacks of include/TcpServer.h and include/TcpConnection.h, and how `newConnection` of
-- src/TcpServer.cc hands them on. A `std::function` is the number of what it holds, and `none` when
-- it is empty; to call an empty one is an exception, which nothing catches.
pub mod Called
use echo_server.Prelude.{ℕ, Bool, true, false, Option, none, some, List, [], ◌∷◌, ◌&&◌}
use echo_server.TcpConnection
use echo_server.TcpConnection.{
  TcpConnection, Effect, connection_callback, close_callback, queued, write_complete, high_water,
}

abbrev pub Function : Type 0
Function = Option ℕ

-- Those of a server.
pub record Callbacks : Type 0 where
  pub thread_init : Function
  pub connection : Function
  pub message : Function
  pub write_complete_cb : Function

unfoldable pub no_callbacks : Callbacks
no_callbacks = record {
  thread_init = none;
  connection = none;
  message = none;
  write_complete_cb = none;
}

unfoldable pub set_thread_init_callback : Function → Callbacks → Callbacks
set_thread_init_callback cb s = record s { thread_init = cb }

unfoldable pub set_connection_callback : Function → Callbacks → Callbacks
set_connection_callback cb s = record s { connection = cb }

unfoldable pub set_message_callback : Function → Callbacks → Callbacks
set_message_callback cb s = record s { message = cb }

unfoldable pub set_write_complete_callback : Function → Callbacks → Callbacks
set_write_complete_callback cb s = record s { write_complete_cb = cb }

-- Those of a connection, behind its constructor.
pub record Handlers : Type 0 where
  pub on_connection : Function
  pub on_close : Function
  pub on_message : Function
  pub on_write_complete : Function
  pub on_high_water : Function

unfoldable pub no_handlers : Handlers
no_handlers = record {
  on_connection = none;
  on_close = none;
  on_message = none;
  on_write_complete = none;
  on_high_water = none;
}

-- The four calls in `newConnection`. `remover` is `removeConnection`, bound to the server.
unfoldable pub equip : ℕ → Callbacks → Handlers → Handlers
equip remover s h = record h {
  on_connection = s.connection;
  on_message = s.message;
  on_write_complete = s.write_complete_cb;
  on_close = some remover;
}

-- Which callback a call of a connection's handlers goes to. A functor in the queue holds a copy.
abbrev pub target : Handlers → Effect → Option Function
target h (connection_callback s) = some h.on_connection
target h close_callback = some h.on_close
target h (queued write_complete) = some h.on_write_complete
target h (queued (high_water n)) = some h.on_high_water
target h _ = none

-- The functions that are called, in order; `none` is the exception.
unfoldable pub invoke : Handlers → List Effect → Option (List ℕ)
invoke h [] = some []
invoke h (e ∷ es) =
    let rest = invoke h es in
    elim (target h e) [
      | none ↦ rest
      | some none ↦ none
      | some (some f) ↦ elim rest [ none ↦ none | some fs ↦ some (f ∷ fs) ]
    ]
