-- ===== src/Guard/Addr.antt =====
-- IP addresses, with the tests of `std::net` that the policy calls, and `classify` and `normalize` of
-- crates/pawrly-sources/http/src/guard.rs.
pub mod Ranges
use pawrly.Prelude.{
  ℕ, ◌/◌, ◌%◌, ◌==◌, leb, ltb, bit_and, Bool, ◌&&◌, ◌||◌, if◌then◌else◌, Option, none, some,
}

-- Four octets.
pub record Ipv4 : Type 0 where
  pub a : ℕ
  pub b : ℕ
  pub c : ℕ
  pub d : ℕ

-- Eight segments of 16 bits.
pub record Ipv6 : Type 0 where
  pub s0 : ℕ
  pub s1 : ℕ
  pub s2 : ℕ
  pub s3 : ℕ
  pub s4 : ℕ
  pub s5 : ℕ
  pub s6 : ℕ
  pub s7 : ℕ

pub data IpAddr : Type 0 where
  v4 : Ipv4 → IpAddr
  v6 : Ipv6 → IpAddr

pub data IpClass : Type 0 where
  allow private always_refuse : IpClass

-- The tests of `std::net::Ipv4Addr`.
abbrev is_loopback : Ipv4 → Bool
is_loopback ip = ip.a == 127

abbrev is_link_local : Ipv4 → Bool
is_link_local ip = ip.a == 169 && ip.b == 254

abbrev is_unspecified : Ipv4 → Bool
is_unspecified ip = ip.a == 0 && ip.b == 0 && ip.c == 0 && ip.d == 0

abbrev is_broadcast : Ipv4 → Bool
is_broadcast ip = ip.a == 255 && ip.b == 255 && ip.c == 255 && ip.d == 255

abbrev is_private : Ipv4 → Bool
is_private ip =
    ip.a == 10 || (ip.a == 172 && leb 16 ip.b && leb ip.b 31) || (ip.a == 192 && ip.b == 168)

-- The tests of `std::net::Ipv6Addr`.
abbrev high_zero : Ipv6 → Bool
high_zero ip = ip.s0 == 0 && ip.s1 == 0 && ip.s2 == 0 && ip.s3 == 0 && ip.s4 == 0

abbrev is_loopback6 : Ipv6 → Bool
is_loopback6 ip = high_zero ip && ip.s5 == 0 && ip.s6 == 0 && ip.s7 == 1

abbrev is_unspecified6 : Ipv6 → Bool
is_unspecified6 ip = high_zero ip && ip.s5 == 0 && ip.s6 == 0 && ip.s7 == 0

abbrev to_ipv4_mapped : Ipv6 → Option Ipv4
to_ipv4_mapped ip =
    if high_zero ip && ip.s5 == 0xffff
    then some (record { a = ip.s6 / 256; b = ip.s6 % 256; c = ip.s7 / 256; d = ip.s7 % 256 })
    else none

classify_v4 : Ipv4 → IpClass
classify_v4 ip =
    if is_loopback ip
    then allow
    else if is_link_local ip || is_unspecified ip || is_broadcast ip
    then always_refuse
    else if is_private ip || (ip.a == 100 && (leb 64 ip.b && ltb ip.b 128))
    then private
    else allow

classify_v6 : Ipv6 → IpClass
classify_v6 ip =
    if is_loopback6 ip
    then allow
    else if is_unspecified6 ip || bit_and ip.s0 0xffc0 == 0xfe80
    then always_refuse
    else if bit_and ip.s0 0xfe00 == 0xfc00
    then private
    else allow

unfoldable pub classify : IpAddr → IpClass
unfolding classify_v4 classify_v6
classify (v4 ip) = classify_v4 ip
classify (v6 ip) = classify_v6 ip

unfoldable pub normalize : IpAddr → IpAddr
normalize (v6 ip) = elim (to_ipv4_mapped ip) [ none ↦ v6 ip | some m ↦ v4 m ]
normalize (v4 ip) = v4 ip
