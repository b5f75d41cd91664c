-- ===== src/Monitoring/UrlPolicy/Destinations.antt =====
-- What is known of a destination that resolveSafeDestination returns.
use link_alive.Common.{
  ℕ, ◌≡◌, refl, sym, ap, ◌⊎◌, inl, inr, Bool, true, false, not, ◌||◌, List, [], ◌∷◌, All, Result,
  ok, >>=-eq-ok, ◌>>◌, throw_if, arith, Bool-cases, is_empty, text,
}
use link_alive.Common.Json.{is_text, is_text-eq}
use link_alive.Monitoring.Errors.{CheckFailure}
use link_alive.Monitoring.UrlPolicy.Urls.{
  Url, UrlApi, ResolvedAddress, SafeDestination, parsed, is_allowed_protocol, check_url_parts,
  parse_monitor_url, same_address, without_address, unique_addresses, strip_brackets,
  resolve_safe_destination,
}

-- No two of the addresses are the same.
abbrev pub AreDistinct : List ResolvedAddress → Type 0
AreDistinct [] = Unit {0}
AreDistinct (a ∷ rest) = All (λ b. same_address a b ≡ false) rest × AreDistinct rest

-- The address, or one that is the same, is in the list.
abbrev pub is_in : ResolvedAddress → List ResolvedAddress → Bool
is_in a [] = false
is_in a (b ∷ bs) = same_address b a || is_in a bs

without_address-All :
    (P : ResolvedAddress → Type 0) (a : ResolvedAddress) (bs : List ResolvedAddress)
    → All P bs
    → All P (without_address a bs)
without_address-All P a [] h = tt
without_address-All P a (b ∷ bs) (p, h) =
    let rest = without_address-All P a bs h in
    elim (Bool-cases (same_address a b)) [
      | inl same ↦ rw same rest
      | inr other ↦ rw other (p, rest)
    ]

without_address-apart :
    (a : ResolvedAddress) (bs : List ResolvedAddress)
    → All (λ b. same_address a b ≡ false) (without_address a bs)
without_address-apart a [] = tt
without_address-apart a (b ∷ bs) =
    let rest = without_address-apart a bs in
    elim (Bool-cases (same_address a b)) [
      | inl same ↦ rw same rest
      | inr other ↦ rw other (other, rest)
    ]

without_address-AreDistinct :
    (a : ResolvedAddress) (bs : List ResolvedAddress)
    → AreDistinct bs
    → AreDistinct (without_address a bs)
without_address-AreDistinct a [] h = tt
without_address-AreDistinct a (b ∷ bs) (apart, h) =
    let rest = without_address-AreDistinct a bs h in
    let away = without_address-All (λ c. same_address b c ≡ false) a bs apart in
    elim (Bool-cases (same_address a b)) [
      | inl same ↦ rw same rest
      | inr other ↦ rw other (away, rest)
    ]

unique_addresses-AreDistinct : (bs : List ResolvedAddress) → AreDistinct (unique_addresses bs)
unfolding unique_addresses
unique_addresses-AreDistinct [] = tt
unique_addresses-AreDistinct (a ∷ bs) = (
  without_address-apart a (unique_addresses bs),
  without_address-AreDistinct a (unique_addresses bs) (unique_addresses-AreDistinct bs),
)

same_address-eq :
    (a b : ResolvedAddress)
    → same_address a b ≡ true
    → (a.family ≡ b.family) × (a.address ≡ b.address)
same_address-eq a b h = (ground arith, is_text-eq a.address b.address (ground arith))

-- Of two that are the same, a third is the same as both or as neither.
same_address-congruent :
    (a b c : ResolvedAddress) → same_address a b ≡ true → same_address b c ≡ same_address a c
same_address-congruent a b c h =
    let (family, address) = same_address-eq a b h in simp (family, address) refl

is_in-without_address :
    (a c : ResolvedAddress) (bs : List ResolvedAddress)
    → (same_address a c || is_in c (without_address a bs)) ≡ (same_address a c || is_in c bs)
is_in-without_address a c [] = refl
is_in-without_address a c (b ∷ bs) =
    let rest = is_in-without_address a c bs in
    elim (Bool-cases (same_address a b)) [
      | inl same ↦ let e = same_address-congruent a b c same in rw same (ground arith)
      | inr other ↦ rw other (ground arith)
    ]

is_in-unique_addresses :
    (c : ResolvedAddress) (bs : List ResolvedAddress) → is_in c (unique_addresses bs) ≡ is_in c bs
unfolding unique_addresses
is_in-unique_addresses c [] = refl
is_in-unique_addresses c (a ∷ bs) =
    let kept = is_in-without_address a c (unique_addresses bs) in
    let rest = is_in-unique_addresses c bs in ground arith

-- What a URL that parseMonitorUrl returns satisfies.
pub record IsCheckable (url : Url) : Type 0 where
  pub protocol : (url.protocol ≡ text "http:") ⊎ (url.protocol ≡ text "https:")
  pub has_host : is_empty url.hostname ≡ false
  pub no_hash : url.hash ≡ []

is_allowed_protocol-eq :
    (p : List ℕ) → is_allowed_protocol p ≡ true → (p ≡ text "http:") ⊎ (p ≡ text "https:")
unfolding is_allowed_protocol
is_allowed_protocol-eq p h = elim (Bool-cases (is_text p (text "http:"))) [
  | inl http ↦ inl (is_text-eq p (text "http:") http)
  | inr other ↦ inr (is_text-eq p (text "https:") (rw other at h))
]

one_passed :
    {A : Type 0} (a : Bool) (d : CheckFailure) (r v : A)
    → (throw_if a d >> ok r) ≡ ok v
    → (a ≡ false) × (r ≡ v)
one_passed false d r v h = (refl, cc)
one_passed true d r v h = absurd cc

-- Three guards in a row, all of which were passed.
passed :
    {A : Type 0} (a b c : Bool) (d e f : CheckFailure) (r v : A)
    → (throw_if a d >> (throw_if b e >> (throw_if c f >> ok r))) ≡ ok v
    → (a ≡ false) × (b ≡ false) × (r ≡ v)
passed false false false d e f r v h = (refl, refl, cc)
passed false false true d e f r v h = absurd cc
passed false true c d e f r v h = absurd cc
passed true b c d e f r v h = absurd cc

check_url_parts-IsCheckable :
    (api : UrlApi) (url v : Url) → check_url_parts api url ≡ ok v → IsCheckable v
unfolding check_url_parts
check_url_parts-IsCheckable api url v h =
    let (allowed, host, same) =
      passed (not (is_allowed_protocol url.protocol)) (is_empty url.hostname) _ _ _ _
        (record url { hash = [] }) v h in
    let protocol : url.protocol ≡ v.protocol = ap (λ (u : Url). u.protocol) same in
    let hostname : url.hostname ≡ v.hostname = ap (λ (u : Url). u.hostname) same in
    record {
      protocol = is_allowed_protocol-eq v.protocol (rw (← protocol) (ground arith));
      has_host = rw (← hostname) host;
      no_hash = sym (ap (λ (u : Url). u.hash) same);
    }

parse_monitor_url-IsCheckable :
    (api : UrlApi) (input : List ℕ) (v : Url) → parse_monitor_url api input ≡ ok v → IsCheckable v
unfolding parse_monitor_url
parse_monitor_url-IsCheckable api input v h =
    let (url, found, checked) = >>=-eq-ok (parsed api (api.parse input)) _ h in
    check_url_parts-IsCheckable api url v checked

-- The destination comes from the answer of the resolver for its host.
abbrev pub IsFrom : (List ℕ → Result CheckFailure (List ResolvedAddress)) → SafeDestination → Type 0
IsFrom resolve d =
    (addresses : List ResolvedAddress) × (resolve (strip_brackets d.url.hostname) ≡ ok addresses)
    × (is_empty d.addresses ≡ false)
    × AreDistinct d.addresses
    × ((a : ResolvedAddress) → is_in a d.addresses ≡ is_in a addresses)

unique_addresses-nonempty :
    (bs : List ResolvedAddress) → is_empty bs ≡ false → is_empty (unique_addresses bs) ≡ false
unfolding unique_addresses
unique_addresses-nonempty [] h = absurd cc
unique_addresses-nonempty (b ∷ bs) h = refl

moved : (P : SafeDestination → Type 0) (c d : SafeDestination) → c ≡ d → P c → P d
moved P c d same p = rw (← same) p

-- What resolveSafeDestination returns is an http or https URL with a host and without a fragment,
-- and the addresses that the resolver gave for its host, of which there is one at least, each of
-- them once.
pub resolve_safe_destination-IsCheckable :
    (api : UrlApi) (resolve : List ℕ → Result CheckFailure (List ResolvedAddress)) (input : List ℕ)
    (d : SafeDestination)
    → resolve_safe_destination api resolve input ≡ ok d
    → IsCheckable d.url × IsFrom resolve d
unfolding resolve_safe_destination
resolve_safe_destination-IsCheckable api resolve input d h =
    let (url, parsed_url, h1) = >>=-eq-ok (parse_monitor_url api input) _ h in
    let (addresses, found, h2) = >>=-eq-ok (resolve (strip_brackets url.hostname)) _ h1 in
    let c : SafeDestination = record { url = url; addresses = unique_addresses addresses } in
    let (some_address, same) = one_passed (is_empty addresses) _ c d h2 in
    moved (λ e. IsCheckable e.url × IsFrom resolve e) c d same
      (
        parse_monitor_url-IsCheckable api input url parsed_url,
        (
          addresses,
          found,
          unique_addresses-nonempty addresses some_address,
          unique_addresses-AreDistinct addresses,
          (λ a. is_in-unique_addresses a addresses),
        ),
      )
