-- ===== src/InetAddress.antt =====
-- include/InetAddress.h and src/InetAddress.cc: an address of the internet protocol, version 4. The
-- functions of the C library that turn its parts into text and back are the parameter `Net`.
pub mod Text
pub mod Examples
use echo_server.Prelude.{
  ℕ, ◌^◌, ◌≤◌, ◌<◌, ◌≡◌, Bool, false, ◌||◌, List, [], ◌∷◌, ◌++◌, Option, none, some, ◌==◌, length,
  contains, if◌then◌else◌,
}
use echo_server.Decimal.{decimal}

-- `htons`, `ntohs`, `inet_pton` and `inet_ntop`, and what their manual pages say: the first two
-- turn a number of 16 bits into another, each other's inverse; an address has 32 bits; a dotted
-- quad has at most 15 characters, no colon among them, and reads back to the address that it was
-- made of.
pub record Net : Type 0 where
  pub htons : ℕ → ℕ
  pub ntohs : ℕ → ℕ
  pub inet_pton : List ℕ → Option ℕ
  pub inet_ntop : ℕ → List ℕ
  pub htons_range : (p : ℕ) → p < 2 ^ 16 → htons p < 2 ^ 16
  pub ntohs_range : (p : ℕ) → p < 2 ^ 16 → ntohs p < 2 ^ 16
  pub ntohs-htons : (p : ℕ) → p < 2 ^ 16 → ntohs (htons p) ≡ p
  pub htons-ntohs : (p : ℕ) → p < 2 ^ 16 → htons (ntohs p) ≡ p
  pub length-ntop : (a : ℕ) → a < 2 ^ 32 → length (inet_ntop a) ≤ 15
  pub ntop_plain : (a : ℕ) → a < 2 ^ 32 → contains b':' (inet_ntop a) ≡ false
  pub pton_range : (t : List ℕ) (a : ℕ) → inet_pton t ≡ some a → a < 2 ^ 32
  pub pton-ntop : (a : ℕ) → a < 2 ^ 32 → inet_pton (inet_ntop a) ≡ some a

abbrev pub af_inet : ℕ
af_inet = 2

-- `sockaddr_in`: the port is in network order.
pub record InetAddress : Type 0 where
  pub family : ℕ
  pub port : ℕ
  pub addr : ℕ

-- `setSockAddr`, which leaves nothing of the old address.
abbrev pub set_sock_addr : InetAddress → InetAddress → InetAddress
set_sock_addr addr old = addr

module _ (net : Net) where
  open net use {htons, ntohs, inet_pton, inet_ntop}

  -- The constructor from a port and a text. A text that is no address leaves the zeros of `memset`.
  unfoldable pub from_parts : ℕ → List ℕ → InetAddress
  from_parts port ip = record {
    family = af_inet;
    port = htons port;
    addr = elim (inet_pton ip) [ none ↦ 0 | some a ↦ a ];
  }

  unfoldable pub to_ip : InetAddress → List ℕ
  to_ip a = inet_ntop a.addr

  unfoldable pub to_port : InetAddress → ℕ
  to_port a = ntohs a.port

  -- `sprintf(buf + end, ":%u", port)` into 64 bytes.
  unfoldable pub to_ip_port : InetAddress → List ℕ
  to_ip_port a = inet_ntop a.addr ++ (b':' ∷ decimal (ntohs a.port))
