-- ===== src/InetAddress/Text.antt =====
-- The text of an address, and what a reader takes from it.
use echo_server.Prelude.{
  Option-cases, inl, inr, ℕ, ◌^◌, ◌≤◌, ◌<◌, ◌≡◌, refl, ap, ◌∙◌, inl, inr, false, List, [], ◌∷◌,
  ◌++◌, arith, ◌==◌, if◌then◌else◌, Bool-cases, length, length-append, contains,
}
use echo_server.Decimal.{decimal, value, value-decimal}
use echo_server.Decimal.Padded.{length-decimal-le}
use echo_server.InetAddress.{Net, af_inet, InetAddress, from_parts, to_ip, to_port, to_ip_port}

-- A text up to its first colon, and what follows that.
pub split_colon : List ℕ → List ℕ × List ℕ
split_colon [] = ([], [])
split_colon (c ∷ cs) =
    if c == b':' then ([], cs) else (let (before, after) = split_colon cs in (c ∷ before, after))

split_colon-joined :
    (xs ys : List ℕ) → contains b':' xs ≡ false → split_colon (xs ++ (b':' ∷ ys)) ≡ (xs, ys)
unfolding split_colon contains
split_colon-joined [] ys h = refl
split_colon-joined (x ∷ xs) ys h =
    let ih = split_colon-joined xs ys in
    elim (Bool-cases (x == b':')) [
      | inl colon ↦ absurd (cc)
      | inr plain ↦ rw (plain, ih (rw plain at h)) refl
    ]

-- An address of the family AF_INET, within the widths of its fields.
pub record IsValid (a : InetAddress) : Type 0 where
  pub is_inet : a.family ≡ af_inet
  pub port_range : a.port < 2 ^ 16
  pub addr_range : a.addr < 2 ^ 32

module _ (net : Net) where
  -- A valid address is made again from its own port and its own text.
  pub from_parts-to :
      (a : InetAddress) → IsValid a → from_parts net (to_port net a) (to_ip net a) ≡ a
  unfolding from_parts to_port to_ip
  from_parts-to a v =
      rw (net.htons-ntohs a.port v.port_range, net.pton-ntop a.addr v.addr_range) (ground arith)

  -- The constructor makes a valid address, also of a text that is none.
  pub from_parts-IsValid :
      (port : ℕ) (ip : List ℕ) → port < 2 ^ 16 → IsValid (from_parts net port ip)
  unfolding from_parts
  from_parts-IsValid port ip h = record {
    is_inet = refl;
    port_range = net.htons_range port h;
    addr_range = elim (Option-cases (net.inet_pton ip)) [
      | inl bad ↦ rw bad (omega arith)
      | inr (a, good) ↦ rw good (net.pton_range ip a good)
    ];
  }

  -- The text of a valid address with its port has at most 21 characters. A reader finds the text of
  -- the address in front of the first colon, and behind it the port.
  pub to_ip_port-parts :
      (a : InetAddress)
      → IsValid a
      → (length (to_ip_port net a) ≤ 21)
        × ((split_colon (to_ip_port net a)).0 ≡ to_ip net a)
        × (value (split_colon (to_ip_port net a)).1 ≡ to_port net a)
  unfolding to_ip_port to_ip to_port
  to_ip_port-parts a v =
      let ip = net.inet_ntop a.addr in
      let port = net.ntohs a.port in
      let range = net.ntohs_range a.port v.port_range in
      let parts = split_colon-joined ip (decimal port) (net.ntop_plain a.addr v.addr_range) in
      (
        omega (
          arith,
          length-append ip (b':' ∷ decimal port),
          net.length-ntop a.addr v.addr_range,
          length-decimal-le 4 port (omega arith),
        ),
        ap (λ (p : List ℕ × List ℕ). p.0) parts,
        ap (λ (p : List ℕ × List ℕ). value p.1) parts ∙ value-decimal port (omega arith),
      )
