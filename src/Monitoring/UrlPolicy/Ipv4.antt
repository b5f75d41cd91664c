-- ===== src/Monitoring/UrlPolicy/Ipv4.antt =====
-- packages/monitoring/src/url-policy.ts: IPv4 addresses and the blocked ranges.
use Prim.Native.Nat.{bit_and, bit_or}
use link_alive.Common.{
  ℕ, ◌+◌, ◌-◌, ◌*◌, ◌%◌, ◌^◌, Bool, not, ◌&&◌, List, [], ◌∷◌, Result, ok, throw, ◌>>=◌, ◌>>◌,
  throw_if, length, all, any, text, ◌==◌, leb, ltb, if◌then◌else◌,
}
use link_alive.Monitoring.UrlPolicy.Parts.{first_part, later_parts, split}

-- `new Error('Invalid IPv4 address')` and the one for IPv6.
pub data AddressError : Type 0 where
  invalid_ipv4 invalid_ipv6 : AddressError

abbrev pub dot : ℕ
dot = 46

abbrev pub is_digit : ℕ → Bool
is_digit c = leb 48 c && leb c 57

-- `Number(part)` of a text of digits.
abbrev pub number_from : ℕ → List ℕ → ℕ
number_from n [] = n
number_from n (c ∷ cs) = number_from (n * 10 + (c - 48)) cs

-- `/^\d{1,3}$/` and the bound on an octet.
unfoldable pub parse_octet : List ℕ → Result AddressError ℕ
parse_octet part = do
  throw_if (not (leb 1 (length part) && leb (length part) 3 && all is_digit part)) invalid_ipv4
  let octet = number_from 0 part
  throw_if (ltb 255 octet) invalid_ipv4
  ok octet

-- `((value << 8) | octet) >>> 0`
unfoldable pub push_octet : ℕ → ℕ → ℕ
push_octet value octet = bit_or (value * 256 % 2 ^ 32) octet

unfoldable pub parse_octets : ℕ → List (List ℕ) → Result AddressError ℕ
unfolding parse_octet push_octet
parse_octets value [] = ok value
parse_octets value (part ∷ parts) = do
  octet ← parse_octet part
  parse_octets (push_octet value octet) parts

unfoldable pub parse_parts : List (List ℕ) → Result AddressError ℕ
unfolding parse_octets
parse_parts parts = do throw_if (not (length parts == 4)) invalid_ipv4; parse_octets 0 parts

unfoldable pub ipv4_to_number : List ℕ → Result AddressError ℕ
unfolding split parse_parts
ipv4_to_number address = parse_parts (split dot address)

pub record Cidr4 : Type 0 where
  pub base : ℕ
  pub mask : ℕ

-- `prefix === 0 ? 0 : (0xffffffff << (32 - prefix)) >>> 0`
unfoldable pub mask_of : ℕ → ℕ
mask_of prefix = if prefix == 0 then 0 else 4294967295 * 2 ^ (32 - prefix) % 2 ^ 32

abbrev pub slash : ℕ
slash = 47

-- `const [address, prefixText] = cidr.split('/')`; no entry of the list has no prefix.
abbrev pub prefix_of : List (List ℕ) → ℕ
prefix_of [] = 0
prefix_of (prefix_text ∷ parts) = number_from 0 prefix_text

unfoldable pub parse_cidr4 : List ℕ → Result AddressError Cidr4
unfolding ipv4_to_number mask_of
parse_cidr4 cidr = do
  let mask = mask_of (prefix_of (later_parts slash cidr))
  value ← ipv4_to_number (first_part slash cidr)
  ok (record { base = bit_and value mask; mask = mask })

abbrev pub blocked_cidr_texts : List (List ℕ)
blocked_cidr_texts =
    text "0.0.0.0/8"
    ∷ text "10.0.0.0/8"
    ∷ text "100.64.0.0/10"
    ∷ text "127.0.0.0/8"
    ∷ text "169.254.0.0/16"
    ∷ text "172.16.0.0/12"
    ∷ text "192.0.0.0/24"
    ∷ text "192.0.2.0/24"
    ∷ text "192.88.99.0/24"
    ∷ text "192.168.0.0/16"
    ∷ text "198.18.0.0/15"
    ∷ text "198.51.100.0/24"
    ∷ text "203.0.113.0/24"
    ∷ text "224.0.0.0/4"
    ∷ text "240.0.0.0/4"
    ∷ []

-- A text that cannot be parsed would throw while the module loads; none of them does.
abbrev pub parsed_cidrs : List (List ℕ) → Result AddressError (List Cidr4)
parsed_cidrs [] = ok []
parsed_cidrs (cidr ∷ rest) = parse_cidr4 cidr >>= λ c. parsed_cidrs rest >>= λ cs. ok (c ∷ cs)

abbrev pub cidrs_of : Result AddressError (List Cidr4) → List Cidr4
cidrs_of (throw e) = []
cidrs_of (ok cs) = cs

unfoldable pub blocked_ipv4_cidrs : List Cidr4
unfolding parse_cidr4
blocked_ipv4_cidrs = cidrs_of (parsed_cidrs blocked_cidr_texts)

unfoldable pub is_in_cidr4 : ℕ → Cidr4 → Bool
is_in_cidr4 value c = bit_and value c.mask == c.base

unfoldable pub is_blocked_number : ℕ → Bool
unfolding is_in_cidr4 blocked_ipv4_cidrs
is_blocked_number value = any (is_in_cidr4 value) blocked_ipv4_cidrs

unfoldable pub is_blocked_ipv4 : List ℕ → Result AddressError Bool
unfolding is_blocked_number
is_blocked_ipv4 address = do value ← ipv4_to_number address; ok (is_blocked_number value)
