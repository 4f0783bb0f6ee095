-- ===== src/TcpServer/Table.antt =====
-- Every connection has a name of its own, so none is thrown out of the table by another.
use echo_server.Prelude.{
  ℕ, ◌+◌, ◌^◌, ◌≤◌, ◌<◌, ◌≡◌, refl, sym, ap, ◌∙◌, inl, inr, Bool, List, [], ◌∷◌, ◌++◌, none, some,
  arith, if◌then◌else◌, Bool-cases, length, Option-cases,
}
use echo_server.EventLoopThreadPool.{get_next_loop}
use echo_server.TcpServer.{
  Text, text_eq, Connections, find, insert, erase, TcpServer, suffix, conn_name, new_connection,
  remove_connection_in_loop, Call, run_established, queue_destroyed, start, run_listen,
}
use echo_server.TcpServer.Names.{text_eq_sound, text_eq_iff, append_cancel, suffix-injective}

pub find-insert :
    (k j : Text) (c : ℕ) (m : Connections)
    → find j (insert k c m) ≡ (if text_eq k j then some c else find j m)
unfolding find insert
find-insert k j c [] = refl
find-insert k j c ((i, d) ∷ m) =
    ground (arith, text_eq_iff k j, text_eq_iff i k, text_eq_iff i j, find-insert k j c m)

pub find-erase :
    (k j : Text) (m : Connections) → find j (erase k m) ≡ (if text_eq k j then none else find j m)
unfolding find erase
find-erase k j [] = ground arith
find-erase k j ((i, d) ∷ m) =
    ground (arith, text_eq_iff k j, text_eq_iff i k, text_eq_iff i j, find-erase k j m)

-- Every entry was made for a number below `n`.
abbrev pub Below : Text → Text → ℕ → Connections → Type 0
Below name ip n [] = Unit {0}
Below name ip n ((k, c) ∷ m) = ((i : ℕ) × (i < n) × (k ≡ name ++ suffix ip i)) × Below name ip n m

Below-mono :
    (name ip : Text) (a b : ℕ) (m : Connections) → a ≤ b → Below name ip a m → Below name ip b m
Below-mono name ip a b [] h v = tt
Below-mono name ip a b ((k, c) ∷ m) h ((i, lt, e), rest) =
    ((i, omega arith, e), Below-mono name ip a b m h rest)

Below-insert :
    (name ip : Text) (n i c : ℕ) (m : Connections)
    → i < n
    → Below name ip n m
    → Below name ip n (insert (name ++ suffix ip i) c m)
unfolding insert
Below-insert name ip n i c [] h v = ((i, h, refl), tt)
Below-insert name ip n i c ((k, d) ∷ m) h (v, rest) =
    elim (Bool-cases (text_eq k (name ++ suffix ip i))) [
      | inl same ↦ rw same ((i, h, refl), rest)
      | inr other ↦ rw other (v, Below-insert name ip n i c m h rest)
    ]

Below-erase :
    (name ip k : Text) (n : ℕ) (m : Connections) → Below name ip n m → Below name ip n (erase k m)
unfolding erase
Below-erase name ip k n [] v = tt
Below-erase name ip k n ((j, d) ∷ m) (v, rest) = elim (Bool-cases (text_eq j k)) [
  | inl same ↦ rw same (Below-erase name ip k n m rest)
  | inr other ↦ rw other (v, Below-erase name ip k n m rest)
]

find-fresh :
    (name ip : Text) (n : ℕ) (m : Connections)
    → length ip ≤ 21
    → n < 2 ^ 31
    → Below name ip n m
    → find (name ++ suffix ip n) m ≡ none
unfolding find
find-fresh name ip n [] h k v = refl
find-fresh name ip n ((j, d) ∷ m) h k ((i, lt, e), rest) =
    elim (Bool-cases (text_eq j (name ++ suffix ip n))) [
      | inl same ↦
          let clash = append_cancel name (sym e ∙ text_eq_sound j (name ++ suffix ip n) same) in
          absurd (omega (arith, suffix-injective ip i n h (omega arith) k clash))
      | inr other ↦ rw other (find-fresh name ip n m h k rest)
    ]

-- The names in the table were made for the numbers that have been used.
pub record Inv (s : TcpServer) : Type 0 where
  pub short : length s.ip_port ≤ 21
  pub small : s.next_conn_id < 2 ^ 31
  pub named : Below s.name s.ip_port s.next_conn_id s.connections

-- What `newConnection` leaves behind.
record Added (conn : ℕ) (s t : TcpServer) (calls : List Call) : Type 0 where
  table : t.connections ≡ insert (conn_name s) conn s.connections
  next_id : t.next_conn_id ≡ s.next_conn_id + 1
  same_name : t.name ≡ s.name
  same_ip : t.ip_port ≡ s.ip_port
  on_loop : (l : ℕ) × ((get_next_loop s.pool).0 ≡ some l) × (calls ≡ run_established l conn ∷ [])

new_connection-Added :
    (conn : ℕ) (s t : TcpServer) (calls : List Call)
    → new_connection conn s ≡ some (t, calls)
    → Added conn s t calls
unfolding new_connection
new_connection-Added conn s t calls e = elim (Option-cases (get_next_loop s.pool).0) [
  | inl no_loop ↦ ground arith
  | inr (l, loop) ↦ record {
    table = ground arith;
    next_id = ground arith;
    same_name = ground arith;
    same_ip = ground arith;
    on_loop = (l, loop, ground arith);
  }
]

-- Let the address have at most 21 characters, and the names in the table be made for numbers used
-- so far, of which there are fewer than 2^31. A new connection that gets a loop then gets a name
-- that no connection in the table has: its entry is added and every other entry stays. It is set
-- up on the loop that the pool hands out, and the names in the table stay those of the numbers
-- used so far.
pub new_connection-fresh :
    (conn : ℕ) (s t : TcpServer) (calls : List Call)
    → Inv s
    → s.next_conn_id + 1 < 2 ^ 31
    → new_connection conn s ≡ some (t, calls)
    → (find (conn_name s) s.connections ≡ none)
      × ((k : Text)
          → find k t.connections
            ≡ (if text_eq (conn_name s) k then some conn else find k s.connections))
      × ((l : ℕ) × ((get_next_loop s.pool).0 ≡ some l) × (calls ≡ run_established l conn ∷ []))
      × Inv t
new_connection-fresh conn s t calls v h e =
    let a = new_connection-Added conn s t calls e in
    (
      find-fresh s.name s.ip_port s.next_conn_id s.connections v.short v.small v.named,
      λ k. ap (find k) a.table ∙ find-insert (conn_name s) k conn s.connections,
      a.on_loop,
      Added-Inv a,
    )
  where
    Added-Inv : Added conn s t calls → Inv t
    Added-Inv a = record {
      short = rw (a.same_ip) v.short;
      small = rw (a.next_id) h;
      named =
          rw (a.same_name, a.same_ip, a.next_id, a.table)
            (Below-insert s.name s.ip_port (s.next_conn_id + 1) s.next_conn_id conn s.connections
              (omega arith)
              (Below-mono s.name s.ip_port s.next_conn_id (s.next_conn_id + 1) s.connections
                (omega arith) v.named));
    }

-- Removing a connection from a table whose names are in order takes its entry out and no other,
-- keeps the names in order, and queues the connection's destruction on its loop.
pub remove_connection_lem :
    (conn conn_loop : ℕ) (label : Text) (s : TcpServer)
    → Inv s
    → let (t, calls) = remove_connection_in_loop conn conn_loop label s in
      Inv t
      × ((k : Text)
          → find k t.connections ≡ (if text_eq label k then none else find k s.connections))
      × (calls ≡ queue_destroyed conn_loop conn ∷ [])
unfolding remove_connection_in_loop
remove_connection_lem conn conn_loop label s v = (
  record {
    short = v.short;
    small = v.small;
    named = Below-erase s.name s.ip_port label s.next_conn_id s.connections v.named;
  },
  λ k. find-erase label k s.connections,
  refl,
)

-- A server that is started twice listens once: the second call makes no call and leaves the pool.
pub start_once :
    (spawn : ℕ → ℕ) (cb : Bool) (s : TcpServer)
    → s.started ≡ 0
    → let (t, first) = start spawn cb s in
      let (u, second) = start spawn cb t in
      (first ≡ run_listen ∷ []) × (second ≡ []) × (u.pool ≡ t.pool)
unfolding start
start_once spawn cb s h = ground arith
