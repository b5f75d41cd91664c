-- ===== src/Monitoring/UrlPolicy/Ipv6.antt =====
-- packages/monitoring/src/url-policy.ts: IPv6 addresses, and the decision on an address.
use Prim.Native.Nat.{bit_or}
use link_alive.Common.{
  ℕ, zero, suc, ◌+◌, ◌-◌, ◌*◌, ◌/◌, ◌%◌, ◌^◌, Bool, true, false, not, ◌&&◌, ◌||◌, Option, none,
  some, List, [], ◌∷◌, ◌++◌, Result, ok, throw, ◌>>=◌, ◌>>◌, throw_if, length, replicate, all, any,
  text, ◌==◌, leb, ltb, if◌then◌else◌, map, is_empty,
}
use link_alive.Monitoring.UrlPolicy.Parts.{first_part, split}
use link_alive.Monitoring.UrlPolicy.Ipv4.{
  AddressError, invalid_ipv6, dot, is_digit, ipv4_to_number, is_blocked_ipv4,
}
use link_alive.Monitoring.UrlPolicy.Dotted.{dotted}

abbrev pub colon : ℕ
colon = 58

abbrev pub percent : ℕ
percent = 37

-- `toLowerCase` on ASCII; no other letter becomes one that an address may have.
abbrev pub to_lower : ℕ → ℕ
to_lower c = if leb 65 c && leb c 90 then c + 32 else c

-- `s.slice(0, s.lastIndexOf(u))` and `s.slice(s.lastIndexOf(u) + 1)`, or `none` without one.
abbrev pub cons_before : ℕ → Option (List ℕ × List ℕ) → Option (List ℕ × List ℕ)
cons_before c none = none
cons_before c (some (before, after)) = some (c ∷ before, after)

abbrev pub or_here : Bool → List ℕ → Option (List ℕ × List ℕ) → Option (List ℕ × List ℕ)
or_here separates s (some r) = some r
or_here true s none = some ([], s)
or_here false s none = none

abbrev pub split_last : ℕ → List ℕ → Option (List ℕ × List ℕ)
split_last u [] = none
split_last u (c ∷ cs) = or_here (c == u) cs (cons_before c (split_last u cs))

-- `n.toString(16)` of a number below 2 ^ 16.
abbrev pub hex_digit : ℕ → ℕ
hex_digit n = if ltb n 10 then 48 + n else 87 + n

abbrev pub hex_up_to : ℕ → ℕ → List ℕ
hex_up_to zero n = []
hex_up_to (suc fuel) n =
    let higher = hex_up_to fuel (n / 16) in
    if ltb n 16 then hex_digit n ∷ [] else higher ++ (hex_digit (n % 16) ∷ [])

unfoldable pub hex : ℕ → List ℕ
hex n = hex_up_to 4 n

-- The tail of an address in dotted decimals becomes two groups.
unfoldable pub embed : Option (List ℕ × List ℕ) → Result AddressError (List ℕ)
unfolding ipv4_to_number hex
embed none = throw invalid_ipv6
embed (some (before, after)) = do
  ipv4 ← ipv4_to_number after
  ok (before ++ (colon ∷ hex (ipv4 / 2 ^ 16) ++ (colon ∷ hex (ipv4 % 2 ^ 16))))

unfoldable pub without_ipv4 : List ℕ → Result AddressError (List ℕ)
unfolding embed
without_ipv4 address =
    if any (λ c. c == dot) address then embed (split_last colon address) else ok address

-- `address.split('::')`, which finds the pairs from the left.
abbrev pub cons_first : ℕ → List (List ℕ) → List (List ℕ)
cons_first c [] = (c ∷ []) ∷ []
cons_first c (p ∷ ps) = (c ∷ p) ∷ ps

abbrev pub split_pairs : List ℕ → List (List ℕ)
split_pairs [] = [] ∷ []
split_pairs (c ∷ []) = (c ∷ []) ∷ []
split_pairs (c ∷ d ∷ cs) =
    let parted = [] ∷ split_pairs cs in
    let rest = cons_first c (split_pairs (d ∷ cs)) in
    if c == colon && d == colon then parted else rest

-- `part ? part.split(':') : []`
abbrev pub groups_of : List ℕ → List (List ℕ)
groups_of part = if is_empty part then [] else split colon part

-- The groups, of which one pair of colons leaves out as many zeros as are missing.
unfoldable pub expand : List (List ℕ) → Result AddressError (List (List ℕ))
unfolding split
expand (left ∷ []) = do
  let groups = groups_of left
  throw_if (not (length groups == 8)) invalid_ipv6
  ok groups
expand (left ∷ right ∷ []) = do
  let l = groups_of left
  let r = groups_of right
  throw_if (ltb 8 (length l + length r)) invalid_ipv6
  ok (l ++ (replicate (8 - (length l + length r)) (text "0") ++ r))
expand _ = throw invalid_ipv6

abbrev pub is_hex : ℕ → Bool
is_hex c = is_digit c || leb 97 c && leb c 102

-- `Number.parseInt(group, 16)`
abbrev pub hex_value : ℕ → ℕ
hex_value c = if is_digit c then c - 48 else c - 87

abbrev pub hex_number_from : ℕ → List ℕ → ℕ
hex_number_from n [] = n
hex_number_from n (c ∷ cs) = hex_number_from (n * 16 + hex_value c) cs

-- `(value << 16n) | BigInt(…)`, over the groups.
unfoldable pub parse_groups : ℕ → List (List ℕ) → Result AddressError ℕ
parse_groups value [] = ok value
parse_groups value (group ∷ groups) = do
  throw_if (not (leb 1 (length group) && leb (length group) 4 && all is_hex group)) invalid_ipv6
  parse_groups (bit_or (value * 2 ^ 16) (hex_number_from 0 group)) groups

unfoldable pub parse_ipv6 : List ℕ → Result AddressError ℕ
unfolding without_ipv4 expand parse_groups
parse_ipv6 input = do
  address ← without_ipv4 (first_part percent (map to_lower input))
  groups ← expand (split_pairs address)
  parse_groups 0 groups

unfoldable pub is_in_ipv6_cidr : (value base prefix : ℕ) → Bool
is_in_ipv6_cidr value base prefix =
    if prefix == 0 then true else value / 2 ^ (128 - prefix) == base / 2 ^ (128 - prefix)

-- `value >> 32n !== 0xffffn`
unfoldable pub mapped_ipv4 : ℕ → Option (List ℕ)
unfolding dotted
mapped_ipv4 value = if value / 2 ^ 32 == 65535 then some (dotted (value % 2 ^ 32)) else none

-- What parseIpv6 gives for a text of the module; all of them can be parsed.
abbrev pub known : Result AddressError ℕ → ℕ
known (throw e) = 0
known (ok n) = n

unfoldable pub global_unicast : ℕ
unfolding parse_ipv6
global_unicast = known (parse_ipv6 (text "2000::"))

unfoldable pub blocked_ipv6_cidrs : List (ℕ × ℕ)
unfolding parse_ipv6
blocked_ipv6_cidrs =
    (known (parse_ipv6 (text "2001::")), 23)
    ∷ (known (parse_ipv6 (text "2001:db8::")), 32)
    ∷ (known (parse_ipv6 (text "2002::")), 16)
    ∷ (known (parse_ipv6 (text "3fff::")), 20)
    ∷ []

abbrev pub is_in : ℕ → ℕ × ℕ → Bool
is_in value (base, prefix) = is_in_ipv6_cidr value base prefix

-- Public IPv6 destinations are restricted to the global-unicast block.
unfoldable pub is_blocked_unmapped : ℕ → Bool
unfolding is_in_ipv6_cidr global_unicast blocked_ipv6_cidrs
is_blocked_unmapped value =
    not (is_in_ipv6_cidr value global_unicast 3) || any (is_in value) blocked_ipv6_cidrs

unfoldable pub is_blocked_value : ℕ → Option (List ℕ) → Result AddressError Bool
unfolding is_blocked_ipv4 is_blocked_unmapped
is_blocked_value value (some mapped) = is_blocked_ipv4 mapped
is_blocked_value value none = ok (is_blocked_unmapped value)

unfoldable pub is_blocked_ipv6 : List ℕ → Result AddressError Bool
unfolding parse_ipv6 is_blocked_value mapped_ipv4
is_blocked_ipv6 address = do value ← parse_ipv6 address; is_blocked_value value (mapped_ipv4 value)

-- `catch { return false; }`
abbrev pub is_allowed : Result AddressError Bool → Bool
is_allowed (throw e) = false
is_allowed (ok blocked) = not blocked

-- `is_ip` is Node's `isIP`: 4, 6, or 0 for what is no address.
unfoldable pub is_public_address : (List ℕ → ℕ) → List ℕ → Bool
unfolding is_blocked_ipv4 is_blocked_ipv6
is_public_address is_ip address =
    if is_ip address == 4
    then is_allowed (is_blocked_ipv4 address)
    else (if is_ip address == 6 then is_allowed (is_blocked_ipv6 address) else false)
