-- ===== src/Reactor/Turnover.antt =====
-- Connections come and go between the rounds of a loop: `newConnection` of src/TcpServer.cc makes
-- one for a descriptor that no living connection has, and the last `shared_ptr` to a connection
-- destroys it, with its socket, once its channel is off the poller. Addresses and descriptors are
-- used again. A functor in the queue is taken to keep its connection alive.
pub mod Created
pub mod Reached
use echo_server.Prelude.{
  ℕ, ◌≡◌, ◌≢◌, refl, sym, ap, ◌∙◌, ◌⊎◌, inl, inr, true, false, Option, none, some, List, [], ◌∷◌,
  arith, ◌==◌, if◌then◌else◌, Bool, ==-refl, ℕ_discrete,
}
use echo_server.Channel
use echo_server.Channel.{Channel, Events, Index, new, added, deleted}
use echo_server.Poller.{Epoll, Poller, poll, put, find}
use echo_server.Poller.Registration.{Matches}
use echo_server.TcpConnection
use echo_server.TcpConnection.{TcpConnection, Run}
use echo_server.TcpConnection.Synced.{IsSynced}
use echo_server.TcpConnection.Wiring.{IsWired}
use echo_server.Reactor.{seat, Round, Reactor, round}
use echo_server.Reactor.Served.{Served, Unknown, Owned}
use echo_server.Reactor.Serving.{all_live, reported, owners, and-true, poll-reported, round-Served}

abbrev pub mark : (ℕ → Bool) → ℕ → Bool → ℕ → Bool
mark live p b q = if p == q then b else live q

module _ (os : Epoll) where
  open os use {State, entry}

  -- The connections that live, and what the loop has.
  pub record World : Type 0 where
    pub live : ℕ → Bool
    pub conns : ℕ → TcpConnection
    pub poller : Poller os

  -- `new TcpConnection(...)` at address `p` for descriptor `fd`.
  abbrev pub create : ℕ → ℕ → World → World
  create p fd x = record {
    live = mark x.live p true;
    conns = seat x.conns p (TcpConnection.init fd);
    poller = record x.poller { store = put x.poller.store p (TcpConnection.init fd).channel };
  }

  abbrev pub release : ℕ → World → World
  release p x = record x { live = mark x.live p false }

  -- A report of `epoll_wait` consists of entries of the interest set, with their data pointers.
  abbrev pub Genuine : List (ℕ × Events) → State → Type 0
  Genuine [] t = Unit
  Genuine ((p, e) ∷ es) t =
      ((k : ℕ) × (asked : Events) × (entry t k ≡ some (asked, p))) × Genuine es t

  abbrev pub GenuineReport : Option (List (ℕ × Events)) → State → Type 0
  GenuineReport none t = Unit
  GenuineReport (some es) t = Genuine es t

  module _ (on_message : ℕ → TcpConnection → Run) where
    pub data Step : World → World → Type 0 where
      created :
          (p fd : ℕ) (x : World)
          → x.live p ≡ false
          → ((q : ℕ) → x.live q ≡ true → (x.poller.store q).fd ≢ fd)
          → Step x (create p fd x)
      released :
          (p : ℕ) (x : World)
          → x.live p ≡ true
          → (x.poller.store p).index ≡ new
          → Step x (release p x)
      turned :
          (w : Round) (x : World) (y : Reactor os on_message)
          → GenuineReport w.report x.poller.interest
          → all_live x.live (owners w.jobs) ≡ true
          → round os on_message w (x.conns, x.poller) ≡ some y
          → Step x (record x { conns = y.0; poller = y.1 })

    -- What can be reached from a loop with no connection.
    pub data Reach : World → Type 0 where
      started :
          (x : World)
          → ((p : ℕ) → x.live p ≡ false)
          → ((k : ℕ) → Unknown os x.live k x.poller)
          → Reach x
      stepped : (x y : World) → Reach x → Step x y → Reach y
