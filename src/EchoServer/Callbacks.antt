-- ===== src/EchoServer/Callbacks.antt =====
-- src/main.cc: the callbacks that the constructor of `EchoServer` sets, and what they mean for its
-- connections. `up_down` stands for `onConnection`, `echo` for `onMessage` and `remover` for
-- `removeConnection`, each bound to its object.
use echo_server.Prelude.{ℕ, ◌≡◌, ◌⊎◌, inl, inr, refl, Option, none, some, List, [], ◌∷◌, arith}
use echo_server.Buffer
use echo_server.Buffer.{Reply}
use echo_server.Channel.{Events}
use echo_server.TcpConnection
use echo_server.TcpConnection.{
  TcpConnection, Run, ◌then_run◌, SendReply, State, connected, Effect, changed, unregistered,
  connection_callback, close_callback, queued, written, shutdown_write, write_complete, read_member,
  high_water, shutdown_task, send_raw, dispatch, send,
}
use echo_server.TcpServer.Callbacks
use echo_server.TcpServer.Callbacks.{
  Handlers, no_handlers, no_callbacks, set_connection_callback, set_message_callback, equip, invoke,
}
use echo_server.TcpServer.Callbacks.Called.{
  Equipped, IsSafe, invoke-safe, then_run-IsSafe, dispatch-IsSafe, send_in_loop-IsSafe,
  do_job-IsSafe,
}
use echo_server.Reactor.{Job, do_job}
use echo_server.EchoServer.{on_message}

-- The constructor's two calls.
unfoldable pub echo_callbacks : ℕ → ℕ → Callbacks.Callbacks
echo_callbacks up_down echo =
    set_message_callback (some echo) (set_connection_callback (some up_down) no_callbacks)

-- What `newConnection` gives a connection of this server.
unfoldable pub echo_handlers : ℕ → ℕ → ℕ → Handlers
unfolding equip echo_callbacks
echo_handlers remover up_down echo = equip remover (echo_callbacks up_down echo) no_handlers

-- What happens to a connection in its loop: its channel is active, or a functor runs.
pub data Turn : Type 0 where
  active : Events → Reply → (List ℕ → Reply) → (List ℕ → SendReply) → Turn
  functor : Job → Turn

unfoldable pub turn : Turn → TcpConnection → Run
unfolding do_job
turn (active events reply kernel answer) c =
    dispatch (on_message answer 0) reply kernel
      (record c { channel = record c.channel { revents = events } })
turn (functor j) c = do_job j c

unfoldable pub all_turns : List Turn → TcpConnection → Run
unfolding turn
all_turns [] c = (c, [])
all_turns (t ∷ ts) c = turn t c then_run all_turns ts

-- Every function is one of two.
abbrev pub Among : ℕ → ℕ → List ℕ → Type 0
Among a b [] = Unit
Among a b (f ∷ fs) = ((f ≡ a) ⊎ (f ≡ b)) × Among a b fs

module _ (remover up_down echo : ℕ) where
  abbrev handlers : Handlers
  handlers = echo_handlers remover up_down echo

  on_message-IsSafe :
      (answer : List ℕ → SendReply) (address : ℕ) → IsSafe handlers (on_message answer address)
  unfolding on_message send
  on_message-IsSafe answer address c v =
      let (msg, rest) = Buffer.retrieve_all_as_string c.input in
      let d : TcpConnection = record c { input = rest } in
      let w : Equipped handlers d = record {
        connection_set = v.connection_set;
        close_set = v.close_set;
        write_complete_known = v.write_complete_known;
        high_water_known = v.high_water_known;
      } in
      ground (arith, w, send_in_loop-IsSafe handlers answer msg d w)

  turn-IsSafe : (t : Turn) → IsSafe handlers (turn t)
  unfolding turn
  turn-IsSafe (functor j) c v = do_job-IsSafe handlers j c v
  turn-IsSafe (active events reply kernel answer) c v =
      dispatch-IsSafe handlers (on_message answer 0) reply kernel (on_message-IsSafe answer 0) _
        (record {
          connection_set = v.connection_set;
          close_set = v.close_set;
          write_complete_known = v.write_complete_known;
          high_water_known = v.high_water_known;
        })

  all_turns-IsSafe : (ts : List Turn) → IsSafe handlers (all_turns ts)
  unfolding all_turns
  all_turns-IsSafe [] c v = record { equipped = v; all_set = refl }
  all_turns-IsSafe (t ∷ ts) c v =
      then_run-IsSafe handlers (turn t) (all_turns ts) (turn-IsSafe t) (all_turns-IsSafe ts) c v

  init-Equipped : (fd : ℕ) → Equipped handlers (TcpConnection.init fd)
  unfolding TcpConnection.init echo_handlers no_handlers set_message_callback
      set_connection_callback no_callbacks
  init-Equipped fd = record {
    connection_set = refl;
    close_set = refl;
    write_complete_known = refl;
    high_water_known = refl;
  }

  more :
      (f : ℕ) (o : Option (List ℕ)) (fs : List ℕ)
      → elim o [ none ↦ none | some gs ↦ some (f ∷ gs) ] ≡ some fs
      → (gs : List ℕ) × (o ≡ some gs) × (fs ≡ f ∷ gs)
  more f none fs e = ground (arith, e)
  more f (some gs) fs e = (gs, refl, cc)

  invoke-Among :
      (es : List Effect) (fs : List ℕ) → invoke handlers es ≡ some fs → Among up_down remover fs
  unfolding invoke echo_handlers no_handlers set_message_callback set_connection_callback
      no_callbacks
  invoke-Among [] [] e = tt
  invoke-Among [] (f ∷ fs) e = ground (arith, e)
  invoke-Among (connection_callback s ∷ es) fs e =
      let (gs, rest, is) = more up_down (invoke handlers es) fs e in
      rw is (inl refl, invoke-Among es gs rest)
  invoke-Among (close_callback ∷ es) fs e =
      let (gs, rest, is) = more remover (invoke handlers es) fs e in
      rw is (inr refl, invoke-Among es gs rest)
  invoke-Among (queued write_complete ∷ es) fs e = ground (arith, e)
  invoke-Among (queued (high_water n) ∷ es) fs e = ground (arith, e)
  invoke-Among (queued read_member ∷ es) fs e = invoke-Among es fs e
  invoke-Among (queued shutdown_task ∷ es) fs e = invoke-Among es fs e
  invoke-Among (queued (send_raw a n) ∷ es) fs e = invoke-Among es fs e
  invoke-Among (changed k ∷ es) fs e = invoke-Among es fs e
  invoke-Among (unregistered ∷ es) fs e = invoke-Among es fs e
  invoke-Among (written bs ∷ es) fs e = invoke-Among es fs e
  invoke-Among (shutdown_write ∷ es) fs e = invoke-Among es fs e

  -- A connection that the echo server makes never calls a callback that is not set, whatever its
  -- poller reports and the kernel answers, and whichever functors run, in whatever order: no
  -- exception is thrown, and each call goes to `onConnection` or to `removeConnection`. The
  -- message callback is `onMessage`.
  pub all_turns-Among :
      (ts : List Turn) (fd : ℕ)
      → (fs : List ℕ) × (invoke
            (echo_handlers remover up_down echo)
            (all_turns ts (TcpConnection.init fd)).1
          ≡ some fs)
        × Among up_down remover fs
        × ((echo_handlers remover up_down echo).on_message ≡ some echo)
  unfolding echo_handlers set_message_callback
  all_turns-Among ts fd =
      let es = (all_turns ts (TcpConnection.init fd)).1 in
      let s = all_turns-IsSafe ts (TcpConnection.init fd) (init-Equipped fd) in
      let (fs, done) = invoke-safe handlers es s.all_set in
      (fs, done, invoke-Among es fs done, refl)
