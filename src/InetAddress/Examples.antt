-- ===== src/InetAddress/Examples.antt =====
-- The address 127.0.0.1 with port 8080, on a machine that prints an address as one number.
use echo_server.Prelude.{
  ℕ, zero, suc, ◌+◌, ◌*◌, ◌/◌, ◌%◌, ◌^◌, ◌≤◌, ◌≡◌, refl, ap, inl, inr, false, [], ◌∷◌, some, arith,
  length, Bool-cases, ltb, contains, contains-append,
}
use echo_server.Decimal.{digits, decimal, value, value-decimal}
use echo_server.Decimal.Padded.{length-decimal-le}
use echo_server.InetAddress.{Net, InetAddress, af_inet, to_ip, to_port, to_ip_port}
use echo_server.InetAddress.Text.{IsValid, split_colon, to_ip_port-parts}

abbrev pub swap_bytes : ℕ → ℕ
swap_bytes p = p % 256 * 256 + p / 256 % 256

digits_plain : (fuel n : ℕ) → contains b':' (digits fuel n) ≡ false
unfolding digits contains
digits_plain zero n = refl
digits_plain (suc fuel) n = elim (Bool-cases (ltb n 10)) [
  | inl small ↦ rw small (ground arith)
  | inr big ↦
      let last : contains b':' ((48 + n % 10) ∷ []) ≡ false = ground arith in
      rw big (
        contains-append b':' (digits fuel (n / 10)) ((48 + n % 10) ∷ [])
          (digits_plain fuel (n / 10)) last)
]

pub decimal_plain : (n : ℕ) → contains b':' (decimal n) ≡ false
unfolding decimal
decimal_plain n = digits_plain 20 n

abbrev pub numbers : Net
numbers = record {
  htons = swap_bytes;
  ntohs = swap_bytes;
  inet_pton = λ text. some (value text % 2 ^ 32);
  inet_ntop = decimal;
  htons_range = λ p h. omega arith;
  ntohs_range = λ p h. omega arith;
  ntohs-htons = λ p h. omega arith;
  htons-ntohs = λ p h. omega arith;
  length-ntop = λ a h. omega (arith, length-decimal-le 9 a (omega arith));
  ntop_plain = λ a h. decimal_plain a;
  pton_range = λ t a h. ground arith;
  pton-ntop = λ a h. rw (value-decimal a (omega arith)) (ap some (omega arith));
}

abbrev local_host : InetAddress
local_host = record { family = af_inet; port = 36895; addr = 16777343 }

local_host-IsValid : IsValid local_host
local_host-IsValid = record { is_inet = refl; port_range = omega arith; addr_range = omega arith }

port_8080 : to_port numbers local_host ≡ 8080
unfolding to_port
port_8080 = refl

to_ip_port-parts_example :
    (length (to_ip_port numbers local_host) ≤ 21)
    × ((split_colon (to_ip_port numbers local_host)).0 ≡ to_ip numbers local_host)
    × (value (split_colon (to_ip_port numbers local_host)).1 ≡ to_port numbers local_host)
to_ip_port-parts_example = to_ip_port-parts numbers local_host local_host-IsValid
