-- ===== src/TcpConnection/Neighbours.antt =====
-- Connections that share a poller do not disturb each other.
use echo_server.Prelude.{chain_some, ℕ, ◌≡◌, ◌≢◌, ap, ◌∙◌, some, List, [], ◌∷◌}
use echo_server.Channel.{Channel}
use echo_server.Poller.{Epoll, Poller}
use echo_server.Poller.Frame.{
  Same, Registered-Same, Framed, Framed-refl, Framed-trans, Same-Framed, apply_change-Framed,
}
use echo_server.Poller.Frame.Removal.{remove_channel-Framed}
use echo_server.TcpConnection.{TcpConnection, Effect, changed, unregistered}
use echo_server.TcpConnection.Wiring.{perform, perform_all, IsWired}

module _ (os : Epoll) where
  perform-Framed :
      (e : Effect) (p : ℕ) (r s : Poller os) → perform os p e r ≡ some s → Framed os p r s
  unfolding perform
  perform-Framed (changed k) p r s done = apply_change-Framed os k p r s done
  perform-Framed unregistered p r s done = remove_channel-Framed os p r s done
  perform-Framed _ p r s done = let same : r ≡ s = cc in rw (← same) (Framed-refl os p r)

  -- Any calls of a channel are work on this channel only.
  pub perform_all-Framed :
      (es : List Effect) (p : ℕ) (r s : Poller os)
      → perform_all os p es r ≡ some s
      → Framed os p r s
  unfolding perform_all
  perform_all-Framed [] p r s done = let same : r ≡ s = cc in rw (← same) (Framed-refl os p r)
  perform_all-Framed (e ∷ es) p r s done =
      let (t, d, rest) = chain_some (perform os p e r) (perform_all os p es) s done in
      Framed-trans os p r t s (perform-Framed e p r t d) (perform_all-Framed es p t s rest)

  -- A connection with another address and another descriptor stays wired.
  pub IsWired-Same :
      (q : ℕ) (d : TcpConnection) (r s : Poller os)
      → Same os q r s
      → IsWired os q d r
      → IsWired os q d s
  IsWired-Same q d r s same w = record {
    registered = Registered-Same os q r s same w.registered;
    agrees = ap (λ (x : Channel). x.events) same.channel ∙ w.agrees;
  }

  pub IsWired-Framed :
      (p q : ℕ) (d : TcpConnection) (r s : Poller os)
      → p ≢ q
      → (r.store p).fd ≢ (r.store q).fd
      → Framed os p r s
      → IsWired os q d r
      → IsWired os q d s
  IsWired-Framed p q d r s ne fd h w = IsWired-Same q d r s (Same-Framed os p q r s ne fd h) w
