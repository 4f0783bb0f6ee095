-- ===== src/Acceptor/Hand.antt =====
-- What becomes of the descriptors that `accept` gives.
use echo_server.Prelude.{
  ℕ, ◌≡◌, refl, ap, ◌∙◌, Bool, true, false, List, [], ◌∷◌, ◌++◌, if◌then◌else◌,
}
use echo_server.InetAddress.{InetAddress}
use echo_server.Socket.{Call, closed, handed, Accepted, connection, failed}
use echo_server.Acceptor.{Acceptor, handle_read}

-- The channel's read callback, time after time.
pub handle_reads : List Accepted → InetAddress → Acceptor → List Call
unfolding handle_read
handle_reads [] empty a = []
handle_reads (r ∷ rs) empty a = handle_read r empty a ++ handle_reads rs empty a

-- The connections among the answers, each with what is done about it.
unfoldable pub each_connection : (ℕ → InetAddress → Call) → List Accepted → List Call
each_connection f [] = []
each_connection f (connection fd peer ∷ rs) = f fd peer ∷ each_connection f rs
each_connection f (failed errno ∷ rs) = each_connection f rs

-- What is due to a connection, with the callback and without.
abbrev pub due : Bool → ℕ → InetAddress → Call
due true fd peer = handed fd peer
due false fd peer = closed fd

if-due :
    (b : Bool) (fd : ℕ) (peer : InetAddress)
    → (if b then handed fd peer ∷ [] else closed fd ∷ []) ≡ due b fd peer ∷ []
if-due true fd peer = refl
if-due false fd peer = refl

-- No descriptor leaks: with a callback each accepted descriptor is handed over with its peer's
-- address, once and in order, and without one each is closed. A failed `accept` leads to no call.
pub handle_reads_lem :
    (rs : List Accepted) (empty : InetAddress) (a : Acceptor)
    → handle_reads rs empty a ≡ each_connection (due a.has_callback) rs
unfolding handle_reads each_connection
handle_reads_lem [] empty a = refl
handle_reads_lem (connection fd peer ∷ rs) empty a =
    ap (λ calls. calls ++ handle_reads rs empty a) (if-due a.has_callback fd peer)
    ∙ ap (◌∷◌ (due a.has_callback fd peer)) (handle_reads_lem rs empty a)
handle_reads_lem (failed errno ∷ rs) empty a = handle_reads_lem rs empty a
