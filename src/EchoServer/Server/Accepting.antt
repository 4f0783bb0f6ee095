-- ===== src/EchoServer/Server/Accepting.antt =====
-- New connections of the running server get the loops in turn and names of their own.
use echo_server.Prelude.{
  ℕ, zero, suc, ◌+◌, ◌%◌, ◌^◌, ◌<◌, ◌≤◌, ◌≡◌, refl, sym, ap, ◌∙◌, List, [], ◌∷◌, ◌++◌, some, arith,
  length, get_elem?, if◌then◌else◌, ◌==◌, ◌⊎◌, inl, inr, false, ==-refl,
}
use echo_server.EventLoopThreadPool.{EventLoopThreadPool, get_next_loop}
use echo_server.EventLoopThreadPool.RoundRobin.{get_next_loop_lem, next_index}
use echo_server.TcpServer.{
  Text, TcpServer, Call, run_established, find, insert, suffix, conn_name, new_connection,
}
use echo_server.TcpServer.Names.{name_eq}
use echo_server.TcpServer.Table.{Inv, new_connection-fresh}
use echo_server.EchoServer.Server.{accept_all}

-- The calls that set the connections up, the first of them on the loop of thread `i`, going round.
abbrev pub in_turn : (ℕ → ℕ) → ℕ → List ℕ → List Call
in_turn spawn i [] = []
in_turn spawn i (c ∷ cs) = run_established (spawn (i % 3)) c ∷ in_turn spawn (i + 1) cs

-- The name of the connection with this number.
abbrev pub label : TcpServer → ℕ → Text
label s n = s.name ++ suffix s.ip_port n

-- Three threads run, and the next connection is for thread `i`, going round.
pub record Ready (spawn : ℕ → ℕ) (i : ℕ) (s : TcpServer) : Type 0 where
  pub table : Inv s
  pub loops_are : s.pool.loops ≡ spawn 0 ∷ spawn 1 ∷ spawn 2 ∷ []
  pub next_is : s.pool.next ≡ i % 3

mod3_cases :
    (i : ℕ)
    → ((i % 3 ≡ 0) × ((i + 1) % 3 ≡ 1))
      ⊎ (((i % 3 ≡ 1) × ((i + 1) % 3 ≡ 2)) ⊎ ((i % 3 ≡ 2) × ((i + 1) % 3 ≡ 0)))
mod3_cases i = omega arith

three-turns :
    (spawn : ℕ → ℕ) (i : ℕ)
    → let ls : List ℕ = spawn 0 ∷ spawn 1 ∷ spawn 2 ∷ [] in
      (get_elem? ls (i % 3) ≡ some (spawn (i % 3))) × (next_index (length ls) (i % 3) ≡ (i + 1) % 3)
three-turns spawn i = elim (mod3_cases i) [
  | inl (e, f) ↦ rw (e, f) (refl, refl)
  | inr (inl (e, f)) ↦ rw (e, f) (refl, refl)
  | inr (inr (e, f)) ↦ rw (e, f) (refl, refl)
]

get_next_loop-three :
    (spawn : ℕ → ℕ) (i : ℕ) (p : EventLoopThreadPool)
    → p.loops ≡ spawn 0 ∷ spawn 1 ∷ spawn 2 ∷ []
    → p.next ≡ i % 3
    → get_next_loop p ≡ (some (spawn (i % 3)), record p { next = (i + 1) % 3 })
get_next_loop-three spawn i p h k =
    let (e, f) = three-turns spawn i in get_next_loop_lem p (λ g. cc) ∙ rw (h, k, e, f) refl

record Taken (spawn : ℕ → ℕ) (i c : ℕ) (s t : TcpServer) : Type 0 where
  pub done : new_connection c s ≡ some (t, run_established (spawn (i % 3)) c ∷ [])
  same_name : t.name ≡ s.name
  same_ip : t.ip_port ≡ s.ip_port
  next_id : t.next_conn_id ≡ s.next_conn_id + 1
  loops_are : t.pool.loops ≡ spawn 0 ∷ spawn 1 ∷ spawn 2 ∷ []
  next_is : t.pool.next ≡ (i + 1) % 3

new_connection-Taken :
    (spawn : ℕ → ℕ) (i c : ℕ) (s : TcpServer)
    → Ready spawn i s
    → (t : TcpServer) × Taken spawn i c s t
unfolding new_connection
new_connection-Taken spawn i c s v =
    let e = get_next_loop-three spawn i s.pool v.loops_are v.next_is in
    (
      record s {
        pool = record s.pool { next = (i + 1) % 3 };
        next_conn_id = s.next_conn_id + 1;
        connections = insert (conn_name s) c s.connections;
      },
      record {
        done = ground (arith, e);
        same_name = refl;
        same_ip = refl;
        next_id = refl;
        loops_are = v.loops_are;
        next_is = refl;
      },
    )

label-Taken :
    (spawn : ℕ → ℕ) (i c n : ℕ) (s t : TcpServer) → Taken spawn i c s t → label t n ≡ label s n
label-Taken spawn i c n s t k = rw (k.same_name, k.same_ip) refl

-- What one new connection leaves in the table under the name with number `j`.
find-Taken :
    (spawn : ℕ → ℕ) (i c j : ℕ) (s t : TcpServer)
    → Ready spawn i s
    → s.next_conn_id + 1 < 2 ^ 31
    → j ≤ s.next_conn_id
    → Taken spawn i c s t
    → find (label s j) t.connections
      ≡ (if s.next_conn_id == j then some c else find (label s j) s.connections)
find-Taken spawn i c j s t v small le k =
    let (_, finds, _, _) = new_connection-fresh c s t _ v.table small k.done in
    finds (label s j)
    ∙ rw (name_eq s.name s.ip_port s.next_conn_id j v.table.short (omega arith) (omega arith)) refl

Ready-Taken :
    (spawn : ℕ → ℕ) (i c : ℕ) (s t : TcpServer)
    → Ready spawn i s
    → s.next_conn_id + 1 < 2 ^ 31
    → Taken spawn i c s t
    → Ready spawn (i + 1) t
Ready-Taken spawn i c s t v small k =
    let (_, _, _, inv) = new_connection-fresh c s t _ v.table small k.done in
    record { table = inv; loops_are = k.loops_are; next_is = k.next_is }

pub record Accepted (spawn : ℕ → ℕ) (i : ℕ) (cs : List ℕ) (s t : TcpServer) : Type 0 where
  pub done : accept_all cs s ≡ some (t, in_turn spawn i cs)
  pub own :
      (k : ℕ) → k < length cs → find (label s (s.next_conn_id + k)) t.connections ≡ get_elem? cs k
  pub old :
      (j : ℕ) → j < s.next_conn_id → find (label s j) t.connections ≡ find (label s j) s.connections

module _ (spawn : ℕ → ℕ) (i c : ℕ) (cs : List ℕ) (s t u : TcpServer) (v : Ready spawn i s)
    (small : s.next_conn_id + 1 < 2 ^ 31) (k : Taken spawn i c s t)
    (rest : Accepted spawn (i + 1) cs t u) where
  own_found :
      (n : ℕ)
      → n < suc (length cs)
      → find (label s (s.next_conn_id + n)) u.connections ≡ get_elem? (c ∷ cs) n
  own_found zero h =
      let e : s.next_conn_id + 0 ≡ s.next_conn_id = omega arith in
      rw e (
        ap (λ (n : Text). find n u.connections) (sym (label-Taken spawn i c s.next_conn_id s t k))
        ∙ rest.old s.next_conn_id (rw (k.next_id) (omega arith))
        ∙ ap (λ (n : Text). find n t.connections) (label-Taken spawn i c s.next_conn_id s t k)
        ∙ find-Taken spawn i c s.next_conn_id s t v small (omega arith) k
        ∙ rw (==-refl s.next_conn_id) refl)
  own_found (suc n) h =
      let e : s.next_conn_id + suc n ≡ s.next_conn_id + 1 + n = omega arith in
      rw e (
        ap (λ (x : Text). find x u.connections)
          (sym (label-Taken spawn i c (s.next_conn_id + 1 + n) s t k))
        ∙ rw (k.next_id) at rest.own n (omega arith))

  old_found :
      (j : ℕ) → j < s.next_conn_id → find (label s j) u.connections ≡ find (label s j) s.connections
  old_found j h =
      let differ : (s.next_conn_id == j) ≡ false = ground arith in
      ap (λ (n : Text). find n u.connections) (sym (label-Taken spawn i c j s t k))
      ∙ rest.old j (rw (k.next_id) (omega arith))
      ∙ ap (λ (n : Text). find n t.connections) (label-Taken spawn i c j s t k)
      ∙ find-Taken spawn i c j s t v small (omega arith) k
      ∙ rw differ refl

pub accept_all-Accepted :
    (spawn : ℕ → ℕ) (i : ℕ) (cs : List ℕ) (s : TcpServer)
    → Ready spawn i s
    → s.next_conn_id + length cs < 2 ^ 31
    → (t : TcpServer) × Accepted spawn i cs s t
unfolding accept_all
accept_all-Accepted spawn i [] s v small =
    (s, record { done = refl; own = λ k h. absurd (omega arith); old = λ j h. refl })
accept_all-Accepted spawn i (c ∷ cs) s v small =
    let (t, k) = new_connection-Taken spawn i c s v in
    let (u, rest) =
      accept_all-Accepted spawn (i + 1) cs t (Ready-Taken spawn i c s t v (omega arith) k)
        (rw (k.next_id) (omega arith)) in
    (
      u,
      record {
        done = rw (k.done, accept_all) (rw (rest.done) refl);
        own = own_found spawn i c cs s t u v (omega arith) k rest;
        old = old_found spawn i c cs s t u v (omega arith) k rest;
      },
    )
