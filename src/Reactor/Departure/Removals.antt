-- ===== src/Reactor/Departure/Removals.antt =====
-- What the base loop does about the calls of a connection's handlers.
use echo_server.Prelude.{
  ℕ, zero, suc, ◌<◌, ◌≡◌, refl, ap, ◌∙◌, Option, none, List, [], ◌∷◌, arith, if◌then◌else◌, inl,
  inr, ◌⊎◌,
}
use echo_server.TcpConnection.{
  Effect, changed, unregistered, connection_callback, close_callback, queued, written,
  shutdown_write,
}
use echo_server.TcpConnection.Lifecycle.{closes}
use echo_server.TcpServer
use echo_server.TcpServer.{TcpServer, Text, text_eq, Call, remove_connection_in_loop}
use echo_server.TcpServer.Table.{Inv, remove_connection_lem}
use echo_server.Reactor.{Job, destroy}
use echo_server.Reactor.Departure.{told, remove_all, jobs_of}

-- The functors for `n` removals of connection `p`.
abbrev pub destructions : ℕ → ℕ → List (ℕ × Job)
destructions p zero = []
destructions p (suc n) = (p, destroy) ∷ destructions p n

-- The table behind removals of one connection.
pub record Removed (label : Text) (s t : TcpServer) : Type 0 where
  pub in_order : Inv t
  pub entries :
      (k : Text)
      → TcpServer.find k t.connections
        ≡ (if text_eq label k then none else TcpServer.find k s.connections)

remove_again :
    (label k : Text) (o : Option ℕ)
    → (if text_eq label k then none else (if text_eq label k then none else o))
      ≡ (if text_eq label k then none else o)
remove_again label k o = ground arith

module _ (p conn_loop : ℕ) (label : Text) where
  abbrev pub behind : List Effect → TcpServer → TcpServer × List Call
  behind es s = remove_all conn_loop label (told p es) s

  pub behind-jobs :
      (es : List Effect) (s : TcpServer) → jobs_of (behind es s).1 ≡ destructions p (closes es)
  unfolding remove_all told jobs_of
  behind-jobs [] s = refl
  behind-jobs (close_callback ∷ es) s = ap (◌∷◌ (p, destroy)) (behind-jobs es _)
  behind-jobs (changed k ∷ es) s = behind-jobs es s
  behind-jobs (unregistered ∷ es) s = behind-jobs es s
  behind-jobs (connection_callback c ∷ es) s = behind-jobs es s
  behind-jobs (queued t ∷ es) s = behind-jobs es s
  behind-jobs (written bs ∷ es) s = behind-jobs es s
  behind-jobs (shutdown_write ∷ es) s = behind-jobs es s

  one-Removed :
      (s : TcpServer) → Inv s → Removed label s (remove_connection_in_loop p conn_loop label s).0
  one-Removed s v =
      let (again, gone, _) = remove_connection_lem p conn_loop label s v in
      record { in_order = again; entries = gone }

  Removed-trans : (s t u : TcpServer) → Removed label s t → Removed label t u → Removed label s u
  Removed-trans s t u h g = record {
    in_order = g.in_order;
    entries = λ k.
        g.entries k
        ∙ ap (λ o. if text_eq label k then none else o) (h.entries k)
        ∙ remove_again label k (TcpServer.find k s.connections);
  }

  -- Either nobody was told of a close, or the entry is gone.
  abbrev Settled : List Effect → TcpServer → Type 0
  Settled es s = ((closes es ≡ 0) × ((behind es s).0 ≡ s)) ⊎ Removed label s (behind es s).0

  behind-Settled : (es : List Effect) (s : TcpServer) → Inv s → Settled es s
  unfolding remove_all told
  behind-Settled [] s v = inl (refl, refl)
  behind-Settled (close_callback ∷ es) s v =
      let t = (remove_connection_in_loop p conn_loop label s).0 in
      let one = one-Removed s v in
      elim (behind-Settled es t one.in_order) [
        | inl (_, same) ↦ inr (rw same one)
        | inr more ↦ inr (Removed-trans s t (behind es t).0 one more)
      ]
  behind-Settled (changed k ∷ es) s v = behind-Settled es s v
  behind-Settled (unregistered ∷ es) s v = behind-Settled es s v
  behind-Settled (connection_callback c ∷ es) s v = behind-Settled es s v
  behind-Settled (queued t ∷ es) s v = behind-Settled es s v
  behind-Settled (written bs ∷ es) s v = behind-Settled es s v
  behind-Settled (shutdown_write ∷ es) s v = behind-Settled es s v

  pub behind-Removed :
      (es : List Effect) (s : TcpServer) → Inv s → 0 < closes es → Removed label s (behind es s).0
  behind-Removed es s v some_close = elim (behind-Settled es s v) [
    | inl (none_close, _) ↦ absurd (omega arith)
    | inr gone ↦ gone
  ]
