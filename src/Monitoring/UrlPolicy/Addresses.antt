-- ===== src/Monitoring/UrlPolicy/Addresses.antt =====
-- The decision on an address, as ranges.
use link_alive.Common.{
  ℕ, ◌-◌, ◌*◌, ◌/◌, ◌%◌, ◌^◌, ◌<◌, ◌≡◌, refl, ap, ◌≢◌, Bool-cases, inl, inr, Bool, false, not, ◌&&◌,
  ◌||◌, List, [], ◌∷◌, Option, none, some, Result, ok, throw, any, arith, ◌==◌, if◌then◌else◌,
}
use link_alive.Monitoring.UrlPolicy.Ipv4.{AddressError, ipv4_to_number, is_blocked_ipv4}
use link_alive.Monitoring.UrlPolicy.Dotted.{dotted, ipv4_to_number-dotted, ipv4_to_number-lt}
use link_alive.Monitoring.UrlPolicy.Ranges.{
  blocked_ranges, is_between, is_blocked_number-is_between,
}
use link_alive.Monitoring.UrlPolicy.Ipv6.{
  parse_ipv6, global_unicast, blocked_ipv6_cidrs, is_in, is_in_ipv6_cidr, mapped_ipv4,
  is_blocked_unmapped, is_blocked_value, is_blocked_ipv6, is_public_address, is_allowed,
}

cidrs6-known :
    blocked_ipv6_cidrs
    ≡ (0x20010000 * 2 ^ 96, 23)
      ∷ (0x20010db8 * 2 ^ 96, 32)
      ∷ (0x20020000 * 2 ^ 96, 16)
      ∷ (0x3fff0000 * 2 ^ 96, 20)
      ∷ []
unfolding blocked_ipv6_cidrs
cidrs6-known = refl

global_unicast-known : global_unicast ≡ 0x20000000 * 2 ^ 96
unfolding global_unicast
global_unicast-known = refl

-- The first and the last address of a range, given by the first 32 bits that lie in it and the first
-- behind it.
abbrev pub prefixes : ℕ → ℕ → ℕ × ℕ
prefixes low high = (low * 2 ^ 96, high * 2 ^ 96 - 1)

-- 2000::/3 without 2001::/23, 2001:db8::/32, 2002::/16 and 3fff::/20.
abbrev pub global_range : ℕ × ℕ
global_range = prefixes 0x20000000 0x40000000

abbrev pub blocked_ipv6_ranges : List (ℕ × ℕ)
blocked_ipv6_ranges =
    prefixes 0x20010000 0x20010200
    ∷ prefixes 0x20010db8 0x20010db9
    ∷ prefixes 0x20020000 0x20030000
    ∷ prefixes 0x3fff0000 0x3fff1000
    ∷ []

-- The rule for an IPv4 address, for an IPv6 address, and for the IPv4 address in an IPv6 address.
abbrev pub may_reach_ipv4 : ℕ → Bool
may_reach_ipv4 v = not (any (is_between v) blocked_ranges)

abbrev pub may_reach_ipv6 : ℕ → Bool
may_reach_ipv6 v =
    if v / 2 ^ 32 == 65535
    then may_reach_ipv4 (v % 2 ^ 32)
    else is_between v global_range && not (any (is_between v) blocked_ipv6_ranges)

module _ (v : ℕ) where
  in_global : is_in_ipv6_cidr v (0x20000000 * 2 ^ 96) 3 ≡ is_between v global_range
  unfolding is_in_ipv6_cidr
  in_global = ground arith

  in_0 : is_in v (0x20010000 * 2 ^ 96, 23) ≡ is_between v (prefixes 0x20010000 0x20010200)
  unfolding is_in_ipv6_cidr
  in_0 = ground arith

  in_1 : is_in v (0x20010db8 * 2 ^ 96, 32) ≡ is_between v (prefixes 0x20010db8 0x20010db9)
  unfolding is_in_ipv6_cidr
  in_1 = ground arith

  in_2 : is_in v (0x20020000 * 2 ^ 96, 16) ≡ is_between v (prefixes 0x20020000 0x20030000)
  unfolding is_in_ipv6_cidr
  in_2 = ground arith

  in_3 : is_in v (0x3fff0000 * 2 ^ 96, 20) ≡ is_between v (prefixes 0x3fff0000 0x3fff1000)
  unfolding is_in_ipv6_cidr
  in_3 = ground arith

  unmapped :
      (base : ℕ) (networks : List (ℕ × ℕ))
      → base ≡ 0x20000000 * 2 ^ 96
      → networks
        ≡ (0x20010000 * 2 ^ 96, 23)
          ∷ (0x20010db8 * 2 ^ 96, 32)
          ∷ (0x20020000 * 2 ^ 96, 16)
          ∷ (0x3fff0000 * 2 ^ 96, 20)
          ∷ []
      → not (not (is_in_ipv6_cidr v base 3) || any (is_in v) networks)
        ≡ (is_between v global_range && not (any (is_between v) blocked_ipv6_ranges))
  unmapped base networks same_base same =
      rw (same_base, same, in_global, in_0, in_1, in_2, in_3)
        (no_others (is_between v global_range) _)
    where
      no_others : (a b : Bool) → not (not a || b) ≡ (a && not b)
      no_others a b = ground arith

-- The IPv4 test of a number that is read from a text.
is_allowed-ipv4 :
    (address : List ℕ) (v : ℕ)
    → v < 2 ^ 32
    → ipv4_to_number address ≡ ok v
    → is_allowed (is_blocked_ipv4 address) ≡ may_reach_ipv4 v
unfolding is_blocked_ipv4
is_allowed-ipv4 address v lt read = rw read (ap not (is_blocked_number-is_between v lt))

is_allowed-value :
    (v : ℕ) (mapped : Option (List ℕ))
    → mapped_ipv4 v ≡ mapped
    → is_allowed (is_blocked_value v mapped) ≡ may_reach_ipv6 v
unfolding is_blocked_value mapped_ipv4 is_blocked_unmapped
is_allowed-value v mapped same = elim (Bool-cases (v / 2 ^ 32 == 65535)) [
  | inl is_mapped ↦
      let text_of : some (dotted (v % 2 ^ 32)) ≡ mapped = rw is_mapped at same in
      rw (← text_of, is_mapped)
        (is_allowed-ipv4 (dotted (v % 2 ^ 32)) (v % 2 ^ 32) (omega arith)
          (ipv4_to_number-dotted (v % 2 ^ 32) (omega arith)))
  | inr unmapped_v ↦
      let nothing : none ≡ mapped = rw unmapped_v at same in
      rw (← nothing, unmapped_v)
        (unmapped v global_unicast blocked_ipv6_cidrs global_unicast-known cidrs6-known)
]

is_allowed-ipv6 :
    (address : List ℕ) (v : ℕ)
    → parse_ipv6 address ≡ ok v
    → is_allowed (is_blocked_ipv6 address) ≡ may_reach_ipv6 v
unfolding is_blocked_ipv6
is_allowed-ipv6 address v read = rw read (is_allowed-value v (mapped_ipv4 v) refl)

-- A rule on the number that was read; a text that cannot be read is refused.
abbrev pub rule_on : Result AddressError ℕ → (ℕ → Bool) → Bool
rule_on (throw e) rule = false
rule_on (ok v) rule = rule v

ipv4-rule :
    (address : List ℕ) (r : Result AddressError ℕ)
    → ipv4_to_number address ≡ r
    → is_allowed (is_blocked_ipv4 address) ≡ rule_on r may_reach_ipv4
ipv4-rule address (throw e) read = unfold is_blocked_ipv4 in rw read refl
ipv4-rule address (ok v) read = is_allowed-ipv4 address v (ipv4_to_number-lt address v read) read

ipv6-rule :
    (address : List ℕ) (r : Result AddressError ℕ)
    → parse_ipv6 address ≡ r
    → is_allowed (is_blocked_ipv6 address) ≡ rule_on r may_reach_ipv6
ipv6-rule address (throw e) read = unfold is_blocked_ipv6 in rw read refl
ipv6-rule address (ok v) read = is_allowed-ipv6 address v read

neither :
    (n : ℕ) (a b : Bool)
    → n ≢ 4
    → n ≢ 6
    → (if n == 4 then a else (if n == 6 then b else false)) ≡ false
neither n a b h k = ground arith

-- An IPv4 address may be checked exactly if it can be read and lies in none of the blocked ranges;
-- an IPv6 address exactly if it can be read and, where it is a mapped IPv4 address, that lies in
-- none of them, and otherwise it lies in 2000::/3 and in none of the four blocked ranges there; and
-- a text that Node takes for no address never.
pub is_public_address-ranges :
    (is_ip : List ℕ → ℕ) (address : List ℕ)
    → (is_ip address ≡ 4
        → is_public_address is_ip address ≡ rule_on (ipv4_to_number address) may_reach_ipv4)
      × (is_ip address ≡ 6
          → is_public_address is_ip address ≡ rule_on (parse_ipv6 address) may_reach_ipv6)
      × (is_ip address ≢ 4 → is_ip address ≢ 6 → is_public_address is_ip address ≡ false)
unfolding is_public_address
is_public_address-ranges is_ip address = (
  λ four. rw four (ipv4-rule address (ipv4_to_number address) refl),
  λ six. rw six (ipv6-rule address (parse_ipv6 address) refl),
  neither (is_ip address) _ _,
)
