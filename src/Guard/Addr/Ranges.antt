-- ===== src/Guard/Addr/Ranges.antt =====
-- The classes of addresses as ranges: an IPv4 address as one number of 32 bits, an IPv6 address by
-- its first segment.
use pawrly.Prelude.{
  ℕ, zero, suc, ◌+◌, ◌*◌, ◌<◌, ◌≤◌, ◌≡◌, ◌↔◌, ◌⊎◌, ◌==◌, refl, &&-eq-true, leb, bit_and, Bool, true,
  false, ◌&&◌, Bool-cases, ==_iff, inl, inr, not, arith,
}
use pawrly.Guard.Addr.{Ipv4, Ipv6, v4, v6, private, always_refuse, classify}

-- The address in network order.
abbrev pub value : Ipv4 → ℕ
value ip = ((ip.a * 256 + ip.b) * 256 + ip.c) * 256 + ip.d

pub record IsOctets (ip : Ipv4) : Type 0 where
  pub a_lt : ip.a < 256
  pub b_lt : ip.b < 256
  pub c_lt : ip.c < 256
  pub d_lt : ip.d < 256

-- `lo ≤ n ≤ hi`.
abbrev pub Between : ℕ → ℕ → ℕ → Type 0
Between lo hi n = (lo ≤ n) × (n ≤ hi)

-- 169.254.0.0/16, 0.0.0.0 and 255.255.255.255.
abbrev pub IsNeverReachable : ℕ → Type 0
IsNeverReachable n = Between 0xa9fe0000 0xa9feffff n ⊎ (n ≡ 0) ⊎ (n ≡ 0xffffffff)

-- 10.0.0.0/8, 172.16.0.0/12, 192.168.0.0/16 and 100.64.0.0/10.
abbrev pub IsPrivateRange : ℕ → Type 0
IsPrivateRange n =
    Between 0x0a000000 0x0affffff n
    ⊎ Between 0xac100000 0xac1fffff n
    ⊎ Between 0xc0a80000 0xc0a8ffff n
    ⊎ Between 0x64400000 0x647fffff n

module _ (ip : Ipv4) (octets : IsOctets ip) where
  refuse_of_range : IsNeverReachable (value ip) → classify (v4 ip) ≡ always_refuse
  unfolding classify
  refuse_of_range h = ground arith

  range_of_refuse : classify (v4 ip) ≡ always_refuse → IsNeverReachable (value ip)
  unfolding classify
  range_of_refuse h = ground arith

  private_of_range : IsPrivateRange (value ip) → classify (v4 ip) ≡ private
  unfolding classify
  private_of_range h = ground arith

  range_of_private : classify (v4 ip) ≡ private → IsPrivateRange (value ip)
  unfolding classify
  range_of_private h = ground arith

-- The class of an IPv4 address, its octets below 256, is read off its number: what is never reachable
-- is 169.254.0.0/16, 0.0.0.0 and 255.255.255.255, and what is private is 10/8, 172.16/12, 192.168/16
-- and 100.64/10.
pub classify-v4_iff :
    (ip : Ipv4)
    → IsOctets ip
    → ((classify (v4 ip) ≡ always_refuse) ↔ IsNeverReachable (value ip))
      × ((classify (v4 ip) ≡ private) ↔ IsPrivateRange (value ip))
classify-v4_iff ip h =
    ((range_of_refuse ip h, refuse_of_range ip h), (range_of_private ip h, private_of_range ip h))

-- The segments from the first one on, as many as are asked for, pass the test.
segments_pass : (ℕ → Bool) → (count first : ℕ) → Bool
segments_pass test zero first = true
segments_pass test (suc count) first = test first && segments_pass test count (first + 1)

passed_segment :
    (test : ℕ → Bool) (count first : ℕ)
    → segments_pass test count first ≡ true
    → (segment : ℕ) → first ≤ segment
    → segment < first + count
    → test segment ≡ true
unfolding segments_pass
passed_segment test zero first passed segment low high = absurd (omega arith)
passed_segment test (suc count) first passed segment low high =
    elim (Bool-cases (segment == first)) [
      | inl e ↦ ground (arith, ==_iff segment first)
      | inr n ↦
          passed_segment test count (first + 1)
            (&&-eq-true (test first) (segments_pass test count (first + 1)) passed).1 segment
            (above n) (omega arith)
    ]
  where
    above : (segment == first) ≡ false → first + 1 ≤ segment
    above n = ground (arith, ==_iff segment first)

abbrev eqb : Bool → Bool → Bool
eqb true b = b
eqb false b = not b

eqb_sound : (a b : Bool) → eqb a b ≡ true → a ≡ b
eqb_sound a b h = ground arith

-- A mask of the high ten bits, or seven, is a range.
masks_agree : ℕ → Bool
masks_agree s =
    eqb (bit_and s 0xffc0 == 0xfe80) (leb 0xfe80 s && leb s 0xfebf)
    && eqb (bit_and s 0xfe00 == 0xfc00) (leb 0xfc00 s && leb s 0xfdff)

mask_table : segments_pass masks_agree 65536 0 ≡ true
unfolding segments_pass masks_agree
mask_table = refl

masks : (s : ℕ) → s < 65536 → masks_agree s ≡ true
masks s h = passed_segment masks_agree 65536 0 mask_table s (omega arith) (omega arith)

module _ (s : ℕ) (h : s < 65536) where
  link_local_mask : (bit_and s 0xffc0 == 0xfe80) ≡ (leb 0xfe80 s && leb s 0xfebf)
  unfolding masks_agree
  link_local_mask = eqb_sound _ _ (&&-eq-true _ _ (masks s h)).0

  unique_local_mask : (bit_and s 0xfe00 == 0xfc00) ≡ (leb 0xfc00 s && leb s 0xfdff)
  unfolding masks_agree
  unique_local_mask = eqb_sound _ _ (&&-eq-true _ _ (masks s h)).1

-- All segments but the last are 0, and the last is `n`.
abbrev pub IsLow : ℕ → Ipv6 → Type 0
IsLow n ip =
    (ip.s0 ≡ 0)
    × (ip.s1 ≡ 0)
    × (ip.s2 ≡ 0)
    × (ip.s3 ≡ 0)
    × (ip.s4 ≡ 0)
    × (ip.s5 ≡ 0)
    × (ip.s6 ≡ 0)
    × (ip.s7 ≡ n)

-- An IPv6 address, its first segment below 65536, is never reachable exactly if it is `::` or lies
-- in fe80::/10, and private exactly if it lies in fc00::/7.
pub classify-v6_iff :
    (ip : Ipv6)
    → ip.s0 < 65536
    → ((classify (v6 ip) ≡ always_refuse) ↔ (IsLow 0 ip ⊎ Between 0xfe80 0xfebf ip.s0))
      × ((classify (v6 ip) ≡ private) ↔ Between 0xfc00 0xfdff ip.s0)
unfolding classify
classify-v6_iff ip h =
    rw (link_local_mask ip.s0 h, unique_local_mask ip.s0 h)
      ((λ k. ground arith, λ k. ground arith), (λ k. ground arith, λ k. ground arith))
