-- ===== src/TcpServer/Callbacks/Called.antt =====
-- A connection's handlers call no callback that is not set.
use echo_server.Prelude.{
  ℕ, ◌≡◌, refl, Bool, true, false, Option, none, some, List, [], ◌∷◌, ◌++◌, arith, ◌&&◌,
  if◌then◌else◌, drop, Bool-cases, inl, inr,
}
use echo_server.Buffer
use echo_server.Buffer.{Reply, Outcome, count, error, read_fd, write_fd}
use echo_server.Channel.{
  disable_writing, Callback, on_close, on_error, on_read, on_write, handle_event, is_writing,
}
use echo_server.TcpConnection.{
  TcpConnection, Run, ◌then_run◌, Effect, queued, write_complete, State, connecting, disconnecting,
  switch, when_set, connect_established, connect_destroyed, handle_close, handle_error, handle_read,
  handle_write, after_write, drained, shutdown_if_asked, shutdown_in_loop, keep_rest, send_in_loop,
  SendReply, sent, wrote, direct, call, call_all, dispatch,
}
use echo_server.Reactor.{Job, establish, destroy, close_writing, send_bytes, do_job}
use echo_server.TcpServer.Callbacks.{Function, Handlers, target, invoke}

abbrev pub is_set : Function → Bool
is_set none = false
is_set (some f) = true

abbrev pub safe : Handlers → Effect → Bool
safe h e = elim (target h e) [ none ↦ true | some f ↦ is_set f ]

abbrev pub all_safe : Handlers → List Effect → Bool
all_safe h [] = true
all_safe h (e ∷ es) = safe h e && all_safe h es

all_safe-append :
    (h : Handlers) (es fs : List Effect)
    → all_safe h es ≡ true
    → all_safe h fs ≡ true
    → all_safe h (es ++ fs) ≡ true
all_safe-append h [] fs p q = q
all_safe-append h (e ∷ es) fs p q = elim (Bool-cases (safe h e)) [
  | inl yes_safe ↦ rw yes_safe (all_safe-append h es fs (rw yes_safe at p) q)
  | inr unsafe ↦ ground (arith, p)
]

pub invoke-safe :
    (h : Handlers) (es : List Effect)
    → all_safe h es ≡ true
    → (fs : List ℕ) × (invoke h es ≡ some fs)
unfolding invoke
invoke-safe h [] p = ([], refl)
invoke-safe h (e ∷ es) p = elim (Bool-cases (safe h e)) [
  | inl yes_safe ↦
      let (fs, done) = invoke-safe h es (rw yes_safe at p) in
      one (target h e) (invoke h es) fs yes_safe done
  | inr unsafe ↦ ground (arith, p)
]
  where
    one :
        (t : Option Function) (rest : Option (List ℕ)) (fs : List ℕ)
        → elim t [ none ↦ true | some f ↦ is_set f ] ≡ true
        → rest ≡ some fs
        → (gs : List ℕ) × (elim t [
          | none ↦ rest
          | some none ↦ none
          | some (some f) ↦ elim rest [ none ↦ none | some gs ↦ some (f ∷ gs) ]
        ]
            ≡ some gs)
    one none rest fs g e = (fs, e)
    one (some none) rest fs g e = ground (arith, g)
    one (some (some f)) rest fs g e = (f ∷ fs, rw e refl)

-- The connection callback and the close callback are set, and the connection knows which of the
-- other two are.
pub record Equipped (h : Handlers) (c : TcpConnection) : Type 0 where
  pub connection_set : is_set h.on_connection ≡ true
  pub close_set : is_set h.on_close ≡ true
  pub write_complete_known : c.has_write_complete ≡ is_set h.on_write_complete
  pub high_water_known : c.has_high_water ≡ is_set h.on_high_water

module _ (h : Handlers) where
  pub record SafeRun (r : Run) : Type 0 where
    pub equipped : Equipped h r.0
    pub all_set : all_safe h r.1 ≡ true

  abbrev pub IsSafe : (TcpConnection → Run) → Type 0
  IsSafe f = (c : TcpConnection) → Equipped h c → SafeRun (f c)

  pub then_run-IsSafe :
      (f g : TcpConnection → Run) → IsSafe f → IsSafe g → IsSafe (λ c. f c then_run g)
  then_run-IsSafe f g p q c v =
      let a = p c v in
      let b = q (f c).0 a.equipped in
      record {
        equipped = b.equipped;
        all_set = all_safe-append h (f c).1 (g (f c).0).1 a.all_set b.all_set;
      }

  pub connect_established-IsSafe : IsSafe connect_established
  unfolding connect_established
  connect_established-IsSafe c v = ground arith

  pub connect_destroyed-IsSafe : IsSafe connect_destroyed
  unfolding connect_destroyed
  connect_destroyed-IsSafe c v = ground arith

  handle_close-IsSafe : IsSafe handle_close
  unfolding handle_close
  handle_close-IsSafe c v = ground arith

  shutdown_if_asked-IsSafe : (s : State) → IsSafe (shutdown_if_asked s)
  unfolding shutdown_if_asked
  shutdown_if_asked-IsSafe disconnecting c v = ground arith
  shutdown_if_asked-IsSafe connecting c v = record { equipped = v; all_set = refl }
  shutdown_if_asked-IsSafe _ c v = record { equipped = v; all_set = refl }

  drained-IsSafe : IsSafe drained
  unfolding drained
  drained-IsSafe c v =
      then_run-IsSafe
        (λ d.
          switch disable_writing d then_run when_set d.has_write_complete (queued write_complete))
        (λ d. shutdown_if_asked d.state d) (λ d w. ground arith)
        (λ d. shutdown_if_asked-IsSafe d.state d) c v

  after_write-IsSafe : (o : Outcome) → IsSafe (after_write o)
  unfolding after_write
  after_write-IsSafe (error e) c v = record { equipped = v; all_set = refl }
  after_write-IsSafe (count n) c v =
      let d = record c { output = Buffer.retrieve c.output n } in
      let w : Equipped h d = record {
        connection_set = v.connection_set;
        close_set = v.close_set;
        write_complete_known = v.write_complete_known;
        high_water_known = v.high_water_known;
      } in
      ground (arith, drained-IsSafe d w)

  handle_write-IsSafe : (kernel : List ℕ → Reply) → IsSafe (handle_write kernel)
  unfolding handle_write
  handle_write-IsSafe kernel c v = elim (Bool-cases (is_writing c.channel)) [
    | inl on ↦
        let a = after_write-IsSafe (write_fd kernel c.output) c v in
        rw on (record { equipped = a.equipped; all_set = a.all_set })
    | inr off ↦ rw off (record { equipped = v; all_set = refl })
  ]

  keep_rest-IsSafe : (rest : List ℕ) → IsSafe (keep_rest rest)
  unfolding keep_rest
  keep_rest-IsSafe rest c v = ground arith

  pub send_in_loop-IsSafe :
      (kernel : List ℕ → SendReply) (bytes : List ℕ) → IsSafe (send_in_loop kernel bytes)
  unfolding send_in_loop
  send_in_loop-IsSafe kernel bytes c v =
      let reply = if direct c then kernel bytes else sent 0 in
      ground (arith, keep_rest-IsSafe (drop (wrote reply) bytes) c v)

  handle_read-IsSafe :
      (on_message : TcpConnection → Run) (reply : Reply)
      → IsSafe on_message
      → IsSafe (handle_read on_message reply)
  unfolding handle_read handle_error
  handle_read-IsSafe on_message reply p c v =
      let d = record c { input = (read_fd c.input reply).0 } in
      let w : Equipped h d = record {
        connection_set = v.connection_set;
        close_set = v.close_set;
        write_complete_known = v.write_complete_known;
        high_water_known = v.high_water_known;
      } in
      ground (arith, p d w, handle_close-IsSafe d w)

  call-IsSafe :
      (on_message : TcpConnection → Run) (reply : Reply) (kernel : List ℕ → Reply) (k : Callback)
      → IsSafe on_message
      → IsSafe (call on_message reply kernel k)
  unfolding call handle_error
  call-IsSafe on_message reply kernel on_close p c v = handle_close-IsSafe c v
  call-IsSafe on_message reply kernel on_error p c v = handle_close-IsSafe c v
  call-IsSafe on_message reply kernel on_read p c v = handle_read-IsSafe on_message reply p c v
  call-IsSafe on_message reply kernel on_write p c v = handle_write-IsSafe kernel c v

  call_all-IsSafe :
      (on_message : TcpConnection → Run) (reply : Reply) (kernel : List ℕ → Reply)
      (ks : List Callback)
      → IsSafe on_message
      → IsSafe (call_all on_message reply kernel ks)
  unfolding call_all
  call_all-IsSafe on_message reply kernel [] p c v = record { equipped = v; all_set = refl }
  call_all-IsSafe on_message reply kernel (k ∷ ks) p c v =
      then_run-IsSafe (call on_message reply kernel k) (call_all on_message reply kernel ks)
        (call-IsSafe on_message reply kernel k p) (call_all-IsSafe on_message reply kernel ks p) c v

  pub dispatch-IsSafe :
      (on_message : TcpConnection → Run) (reply : Reply) (kernel : List ℕ → Reply)
      → IsSafe on_message
      → IsSafe (dispatch on_message reply kernel)
  unfolding dispatch
  dispatch-IsSafe on_message reply kernel p c v =
      call_all-IsSafe on_message reply kernel (handle_event c.channel true) p c v

  shutdown_in_loop-IsSafe : IsSafe shutdown_in_loop
  unfolding shutdown_in_loop
  shutdown_in_loop-IsSafe c v = ground arith

  pub do_job-IsSafe : (j : Job) → IsSafe (do_job j)
  unfolding do_job
  do_job-IsSafe establish c v = connect_established-IsSafe c v
  do_job-IsSafe destroy c v = connect_destroyed-IsSafe c v
  do_job-IsSafe close_writing c v = shutdown_in_loop-IsSafe c v
  do_job-IsSafe (send_bytes kernel bytes) c v = send_in_loop-IsSafe kernel bytes c v
