-- ===== src/Monitoring/UrlPolicy/Ranges.antt =====
-- The blocked IPv4 addresses as ranges of numbers.
use Prim.Native.Nat.{bit_and}
use link_alive.Common.{
  ℕ, ◌+◌, ◌*◌, ◌/◌, ◌^◌, ◌<◌, ◌≡◌, refl, Bool, ◌&&◌, List, [], ◌∷◌, arith, any, ◌==◌, leb,
}
use link_alive.Common.Bits.{halved, ones, bit_and-doubled, bit_and-ones}
use link_alive.Monitoring.UrlPolicy.Ipv4.{Cidr4, blocked_ipv4_cidrs, is_in_cidr4, is_blocked_number}

abbrev known_cidrs : List Cidr4
known_cidrs =
    record { base = 0; mask = 4278190080 }
    ∷ record { base = 167772160; mask = 4278190080 }
    ∷ record { base = 1681915904; mask = 4290772992 }
    ∷ record { base = 2130706432; mask = 4278190080 }
    ∷ record { base = 2851995648; mask = 4294901760 }
    ∷ record { base = 2886729728; mask = 4293918720 }
    ∷ record { base = 3221225472; mask = 4294967040 }
    ∷ record { base = 3221225984; mask = 4294967040 }
    ∷ record { base = 3227017984; mask = 4294967040 }
    ∷ record { base = 3232235520; mask = 4294901760 }
    ∷ record { base = 3323068416; mask = 4294836224 }
    ∷ record { base = 3325256704; mask = 4294967040 }
    ∷ record { base = 3405803776; mask = 4294967040 }
    ∷ record { base = 3758096384; mask = 4026531840 }
    ∷ record { base = 4026531840; mask = 4026531840 }
    ∷ []

cidrs-known : blocked_ipv4_cidrs ≡ known_cidrs
unfolding blocked_ipv4_cidrs
cidrs-known = refl

masked_8 : (v : ℕ) → v < 2 ^ 32 → bit_and v 4278190080 ≡ v / 2 ^ 24 * 2 ^ 24
masked_8 v h =
    let shifted = bit_and-doubled 24 v (ones 8) in
    let kept = bit_and-ones 8 (halved 24 v) (omega arith) in omega arith

masked_10 : (v : ℕ) → v < 2 ^ 32 → bit_and v 4290772992 ≡ v / 2 ^ 22 * 2 ^ 22
masked_10 v h =
    let shifted = bit_and-doubled 22 v (ones 10) in
    let kept = bit_and-ones 10 (halved 22 v) (omega arith) in omega arith

masked_16 : (v : ℕ) → v < 2 ^ 32 → bit_and v 4294901760 ≡ v / 2 ^ 16 * 2 ^ 16
masked_16 v h =
    let shifted = bit_and-doubled 16 v (ones 16) in
    let kept = bit_and-ones 16 (halved 16 v) (omega arith) in omega arith

masked_12 : (v : ℕ) → v < 2 ^ 32 → bit_and v 4293918720 ≡ v / 2 ^ 20 * 2 ^ 20
masked_12 v h =
    let shifted = bit_and-doubled 20 v (ones 12) in
    let kept = bit_and-ones 12 (halved 20 v) (omega arith) in omega arith

masked_24 : (v : ℕ) → v < 2 ^ 32 → bit_and v 4294967040 ≡ v / 2 ^ 8 * 2 ^ 8
masked_24 v h =
    let shifted = bit_and-doubled 8 v (ones 24) in
    let kept = bit_and-ones 24 (halved 8 v) (omega arith) in omega arith

masked_15 : (v : ℕ) → v < 2 ^ 32 → bit_and v 4294836224 ≡ v / 2 ^ 17 * 2 ^ 17
masked_15 v h =
    let shifted = bit_and-doubled 17 v (ones 15) in
    let kept = bit_and-ones 15 (halved 17 v) (omega arith) in omega arith

masked_4 : (v : ℕ) → v < 2 ^ 32 → bit_and v 4026531840 ≡ v / 2 ^ 28 * 2 ^ 28
masked_4 v h =
    let shifted = bit_and-doubled 28 v (ones 4) in
    let kept = bit_and-ones 4 (halved 28 v) (omega arith) in omega arith

-- The number of an address, and the first and the last address of each range.
abbrev pub address : (a b c d : ℕ) → ℕ
address a b c d = ((a * 256 + b) * 256 + c) * 256 + d

abbrev pub blocked_ranges : List (ℕ × ℕ)
blocked_ranges =
    (address 0 0 0 0, address 0 255 255 255)
    ∷ (address 10 0 0 0, address 10 255 255 255)
    ∷ (address 100 64 0 0, address 100 127 255 255)
    ∷ (address 127 0 0 0, address 127 255 255 255)
    ∷ (address 169 254 0 0, address 169 254 255 255)
    ∷ (address 172 16 0 0, address 172 31 255 255)
    ∷ (address 192 0 0 0, address 192 0 0 255)
    ∷ (address 192 0 2 0, address 192 0 2 255)
    ∷ (address 192 88 99 0, address 192 88 99 255)
    ∷ (address 192 168 0 0, address 192 168 255 255)
    ∷ (address 198 18 0 0, address 198 19 255 255)
    ∷ (address 198 51 100 0, address 198 51 100 255)
    ∷ (address 203 0 113 0, address 203 0 113 255)
    ∷ (address 224 0 0 0, address 239 255 255 255)
    ∷ (address 240 0 0 0, address 255 255 255 255)
    ∷ []

abbrev pub is_between : ℕ → ℕ × ℕ → Bool
is_between v (low, high) = leb low v && leb v high

module _ (v : ℕ) (h : v < 2 ^ 32) where
  block_0 : (bit_and v 4278190080 == 0) ≡ is_between v (address 0 0 0 0, address 0 255 255 255)
  block_0 = let kept = masked_8 v h in ground arith

  block_1 :
      (bit_and v 4278190080 == 167772160) ≡ is_between v (address 10 0 0 0, address 10 255 255 255)
  block_1 = let kept = masked_8 v h in ground arith

  block_2 :
      (bit_and v 4290772992 == 1681915904)
      ≡ is_between v (address 100 64 0 0, address 100 127 255 255)
  block_2 = let kept = masked_10 v h in ground arith

  block_3 :
      (bit_and v 4278190080 == 2130706432)
      ≡ is_between v (address 127 0 0 0, address 127 255 255 255)
  block_3 = let kept = masked_8 v h in ground arith

  block_4 :
      (bit_and v 4294901760 == 2851995648)
      ≡ is_between v (address 169 254 0 0, address 169 254 255 255)
  block_4 = let kept = masked_16 v h in ground arith

  block_5 :
      (bit_and v 4293918720 == 2886729728)
      ≡ is_between v (address 172 16 0 0, address 172 31 255 255)
  block_5 = let kept = masked_12 v h in ground arith

  block_6 :
      (bit_and v 4294967040 == 3221225472) ≡ is_between v (address 192 0 0 0, address 192 0 0 255)
  block_6 = let kept = masked_24 v h in ground arith

  block_7 :
      (bit_and v 4294967040 == 3221225984) ≡ is_between v (address 192 0 2 0, address 192 0 2 255)
  block_7 = let kept = masked_24 v h in ground arith

  block_8 :
      (bit_and v 4294967040 == 3227017984)
      ≡ is_between v (address 192 88 99 0, address 192 88 99 255)
  block_8 = let kept = masked_24 v h in ground arith

  block_9 :
      (bit_and v 4294901760 == 3232235520)
      ≡ is_between v (address 192 168 0 0, address 192 168 255 255)
  block_9 = let kept = masked_16 v h in ground arith

  block_10 :
      (bit_and v 4294836224 == 3323068416)
      ≡ is_between v (address 198 18 0 0, address 198 19 255 255)
  block_10 = let kept = masked_15 v h in ground arith

  block_11 :
      (bit_and v 4294967040 == 3325256704)
      ≡ is_between v (address 198 51 100 0, address 198 51 100 255)
  block_11 = let kept = masked_24 v h in ground arith

  block_12 :
      (bit_and v 4294967040 == 3405803776)
      ≡ is_between v (address 203 0 113 0, address 203 0 113 255)
  block_12 = let kept = masked_24 v h in ground arith

  block_13 :
      (bit_and v 4026531840 == 3758096384)
      ≡ is_between v (address 224 0 0 0, address 239 255 255 255)
  block_13 = let kept = masked_4 v h in ground arith

  block_14 :
      (bit_and v 4026531840 == 4026531840)
      ≡ is_between v (address 240 0 0 0, address 255 255 255 255)
  block_14 = let kept = masked_4 v h in ground arith

  -- The same for a list of networks whose tests are known.
  any-known :
      (networks : List Cidr4)
      → networks ≡ known_cidrs
      → any (is_in_cidr4 v) networks ≡ any (is_between v) blocked_ranges
  unfolding is_in_cidr4
  any-known networks same =
      rw
        (
          same, block_0, block_1, block_2, block_3, block_4, block_5, block_6, block_7, block_8,
          block_9, block_10, block_11, block_12, block_13, block_14,
        )
        refl

  -- The test of an IPv4 address against the list of blocked networks, for an address as a number
  -- below 2 ^ 32, is the test whether it lies between the first and the last address of one of them.
  pub is_blocked_number-is_between : is_blocked_number v ≡ any (is_between v) blocked_ranges
  unfolding is_blocked_number
  is_blocked_number-is_between = any-known blocked_ipv4_cidrs cidrs-known
