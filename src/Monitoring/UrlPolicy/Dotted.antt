-- ===== src/Monitoring/UrlPolicy/Dotted.antt =====
-- An address that is printed in dotted decimals is read back as the same number.
use link_alive.Common.{
  ℕ, zero, suc, ◌+◌, ◌*◌, ◌/◌, ◌%◌, ◌^◌, ◌<◌, ◌≡◌, refl, ap, ◌∙◌, Bool, true, false, not, ◌&&◌,
  List, [], ◌∷◌, ◌++◌, Result, ok, throw, >>=-eq-ok, >>-eq-ok, throw_if, arith, all, ltb, ◌==◌,
  if◌then◌else◌, Without,
}
use link_alive.Common.Bits.{doubled, bit_or-doubled}
use link_alive.Monitoring.UrlPolicy.Parts.{split, join, split-join}
use link_alive.Monitoring.UrlPolicy.Ipv4.{
  AddressError, dot, parse_octet, push_octet, parse_octets, parse_parts, ipv4_to_number,
}

-- `String(n)`: the decimal digits, on as much fuel as there may be digits.
unfoldable pub decimal_up_to : ℕ → ℕ → List ℕ
decimal_up_to zero n = []
decimal_up_to (suc fuel) n =
    let higher = decimal_up_to fuel (n / 10) in
    if ltb n 10 then (48 + n) ∷ [] else higher ++ ((48 + n % 10) ∷ [])

unfoldable pub decimal : ℕ → List ℕ
unfolding decimal_up_to
decimal n = decimal_up_to (n + 1) n

-- `[raw >>> 24, (raw >>> 16) & 255, (raw >>> 8) & 255, raw & 255].join('.')`
unfoldable pub dotted : ℕ → List ℕ
unfolding decimal
dotted raw = join dot (
    decimal (raw / 2 ^ 24)
    ∷ decimal (raw / 2 ^ 16 % 256)
    ∷ decimal (raw / 2 ^ 8 % 256)
    ∷ decimal (raw % 256)
    ∷ [])

-- Every octet, by a table.
abbrev is_ok : Result AddressError ℕ → ℕ → Bool
is_ok (throw e) n = false
is_ok (ok m) n = m == n

reads_back : ℕ → Bool
unfolding parse_octet decimal
reads_back n = is_ok (parse_octet (decimal n)) n && all (λ c. not (c == 46)) (decimal n)

all_below : ℕ → (ℕ → Bool) → Bool
all_below zero p = true
all_below (suc n) p = p n && all_below n p

all_below-holds : (n : ℕ) (p : ℕ → Bool) (x : ℕ) → all_below n p ≡ true → x < n → p x ≡ true
unfolding all_below
all_below-holds zero p x h lt = absurd (omega arith)
all_below-holds (suc n) p x h lt = ground (arith, all_below-holds n p x)

octets_table : all_below 256 reads_back ≡ true
unfolding all_below reads_back
octets_table = refl

is_ok-eq : (r : Result AddressError ℕ) (n : ℕ) → is_ok r n ≡ true → r ≡ ok n
is_ok-eq (throw e) n h = absurd cc
is_ok-eq (ok m) n h = ground arith

no_dot : (s : List ℕ) → all (λ c. not (c == 46)) s ≡ true → Without 46 s
no_dot [] h = tt
no_dot (c ∷ s) h = ((λ same. ground arith), no_dot s (ground arith))

parse_octet-decimal : (n : ℕ) → n < 256 → (parse_octet (decimal n) ≡ ok n) × Without 46 (decimal n)
parse_octet-decimal n lt =
    let h = all_below-holds 256 reads_back n octets_table lt in
    unfold reads_back in
    (is_ok-eq (parse_octet (decimal n)) n (ground arith), no_dot (decimal n) (ground arith))

push_octet-add : (v o : ℕ) → v < 2 ^ 24 → o < 256 → push_octet v o ≡ v * 256 + o
unfolding push_octet
push_octet-add v o small lt =
    let whole : v * 256 % 2 ^ 32 ≡ doubled 8 v = omega arith in
    let added = bit_or-doubled 8 v o (omega arith) in rw whole (omega arith)

parse_octets-step :
    (v n : ℕ) (parts : List (List ℕ))
    → v < 2 ^ 24
    → n < 256
    → parse_octets v (decimal n ∷ parts) ≡ parse_octets (v * 256 + n) parts
unfolding parse_octets
parse_octets-step v n parts small lt =
    let (read, clear) = parse_octet-decimal n lt in rw (read, push_octet-add v n small lt) refl

four_parts :
    (a b c d : ℕ)
    → a < 256
    → b < 256
    → c < 256
    → d < 256
    → parse_parts (decimal a ∷ decimal b ∷ decimal c ∷ decimal d ∷ [])
      ≡ ok (((a * 256 + b) * 256 + c) * 256 + d)
unfolding parse_parts
four_parts a b c d ha hb hc hd =
    parse_octets-step 0 a (decimal b ∷ decimal c ∷ decimal d ∷ []) (omega arith) ha
    ∙ (parse_octets-step (0 * 256 + a) b (decimal c ∷ decimal d ∷ []) (omega arith) hb
        ∙ (parse_octets-step ((0 * 256 + a) * 256 + b) c (decimal d ∷ []) (omega arith) hc
            ∙ (parse_octets-step (((0 * 256 + a) * 256 + b) * 256 + c) d [] (omega arith) hd
                ∙ last_value)))
  where
    last_value :
        parse_octets ((((0 * 256 + a) * 256 + b) * 256 + c) * 256 + d) []
        ≡ ok (((a * 256 + b) * 256 + c) * 256 + d)
    last_value = ground arith

ipv4_to_number-parts :
    (address : List ℕ) (parts : List (List ℕ))
    → split dot address ≡ parts
    → ipv4_to_number address ≡ parse_parts parts
unfolding ipv4_to_number
ipv4_to_number-parts address parts same = ap parse_parts same

-- ipv4ToNumber reads the dotted decimals of a number below 2 ^ 32 as that number.
pub ipv4_to_number-dotted : (raw : ℕ) → raw < 2 ^ 32 → ipv4_to_number (dotted raw) ≡ ok raw
unfolding dotted
ipv4_to_number-dotted raw h =
    let a = raw / 2 ^ 24 in
    let b = raw / 2 ^ 16 % 256 in
    let c = raw / 2 ^ 8 % 256 in
    let d = raw % 256 in
    let parts = split-join dot (decimal a) (decimal b ∷ decimal c ∷ decimal d ∷ []) (
      (parse_octet-decimal a (omega arith)).1,
      (
        (parse_octet-decimal b (omega arith)).1,
        ((parse_octet-decimal c (omega arith)).1, ((parse_octet-decimal d (omega arith)).1, tt)),
      ),
    ) in
    let whole : ((a * 256 + b) * 256 + c) * 256 + d ≡ raw = omega arith in
    ipv4_to_number-parts (dotted raw) _ parts
    ∙ (four_parts a b c d (omega arith) (omega arith) (omega arith) (omega arith) ∙ ap ok whole)

-- What has been read is below 2 ^ 32.
push_octet-lt : (v o : ℕ) → o < 256 → push_octet v o < 2 ^ 32
unfolding push_octet
push_octet-lt v o lt =
    let high = v % 2 ^ 24 in
    let whole : v * 256 % 2 ^ 32 ≡ doubled 8 high = omega arith in
    let added = bit_or-doubled 8 high o (omega arith) in rw whole (omega arith)

parse_octet-lt : (part : List ℕ) (o : ℕ) → parse_octet part ≡ ok o → o < 256
unfolding parse_octet
parse_octet-lt part o h = ground arith

parse_octets-lt :
    (v : ℕ) (parts : List (List ℕ)) (n : ℕ) → v < 2 ^ 32 → parse_octets v parts ≡ ok n → n < 2 ^ 32
unfolding parse_octets
parse_octets-lt v [] n lt h = ground arith
parse_octets-lt v (part ∷ parts) n lt h =
    let (o, read, rest) = >>=-eq-ok (parse_octet part) _ h in
    parse_octets-lt (push_octet v o) parts n (push_octet-lt v o (parse_octet-lt part o read)) rest

parse_parts-lt : (parts : List (List ℕ)) (n : ℕ) → parse_parts parts ≡ ok n → n < 2 ^ 32
unfolding parse_parts
parse_parts-lt parts n h =
    let (one, rest) = >>-eq-ok (throw_if _ _) (parse_octets 0 parts) h in
    parse_octets-lt 0 parts n (omega arith) rest

pub ipv4_to_number-lt : (address : List ℕ) (n : ℕ) → ipv4_to_number address ≡ ok n → n < 2 ^ 32
unfolding ipv4_to_number
ipv4_to_number-lt address n h = parse_parts-lt (split dot address) n h
