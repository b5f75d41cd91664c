-- ===== src/Monitoring/Checker/Search.antt =====
-- The search over chunks finds what a search of the whole text finds.
use link_alive.Common.{
  ℕ, suc, ◌-◌, ◌≤◌, ◌<◌, ◌≡◌, refl, sym, ◌∙◌, true, false, List, [], ◌∷◌, ◌++◌, length, arith, ◌==◌,
  leb, Bool-cases, inl, inr,
}
use link_alive.Monitoring.Checker.Failures.{starts_with}
use link_alive.Monitoring.Checker.Keyword.{includes, last_units, slice_last}

-- A keyword that is no longer than a text starts it with or without what follows.
starts_with-append :
    (k a b : List ℕ) → length k ≤ length a → starts_with k (a ++ b) ≡ starts_with k a
starts_with-append [] a b h = refl
starts_with-append (c ∷ k) [] b h = absurd (omega arith)
starts_with-append (c ∷ k) (d ∷ a) b h =
    let rest = starts_with-append k a b (omega arith) in ground arith

starts_with-longer : (k a b : List ℕ) → starts_with k a ≡ true → starts_with k (a ++ b) ≡ true
starts_with-longer [] a b h = refl
starts_with-longer (c ∷ k) [] b h = absurd cc
starts_with-longer (c ∷ k) (d ∷ a) b h = let rest = starts_with-longer k a b in ground arith

pub includes-append : (k a b : List ℕ) → includes k a ≡ true → includes k (a ++ b) ≡ true
unfolding includes
includes-append [] [] [] h = refl
includes-append [] [] (d ∷ b) h = refl
includes-append (c ∷ k) [] b h = absurd cc
includes-append k (d ∷ a) b h =
    let rest = includes-append k a b in let first = starts_with-longer k (d ∷ a) b in ground arith

-- What is found in the last units is found in the text.
includes-last_units :
    (k s : List ℕ) (n : ℕ) → includes k s ≡ false → includes k (last_units n s) ≡ false
unfolding includes
includes-last_units k [] n h = h
includes-last_units k (c ∷ s) n h =
    let rest = includes-last_units k s n in
    elim (Bool-cases (leb (length (c ∷ s)) n)) [
      | inl short ↦ rw short h
      | inr long ↦ rw long (rest (ground arith))
    ]

-- A keyword that is not in a text, and is longer than the units that are kept, is in the text with
-- what follows exactly if it is in the kept units with what follows.
includes-kept :
    (k s b : List ℕ) (n : ℕ)
    → length k ≡ suc n
    → includes k s ≡ false
    → includes k (last_units n s ++ b) ≡ includes k (s ++ b)
includes-kept k [] b n len h = refl
includes-kept k (c ∷ s) b n len h = elim (Bool-cases (leb (length (c ∷ s)) n)) [
  | inl short ↦ rw short refl
  | inr long ↦
      let absent = not_later k c s h in
      let rest = includes-kept k s b n len absent in
      let no_start = not_first k c s h in
      let same = starts_with-append k (c ∷ s) b (ground arith) in
      rw long (rest ∙ sym (skip_first k c (s ++ b) (same ∙ no_start)))
]
  where
    not_later :
        (k : List ℕ) (c : ℕ) (s : List ℕ) → includes k (c ∷ s) ≡ false → includes k s ≡ false
    not_later k c s h = unfold includes in ground arith

    not_first :
        (k : List ℕ) (c : ℕ) (s : List ℕ)
        → includes k (c ∷ s) ≡ false
        → starts_with k (c ∷ s) ≡ false
    not_first k c s h = unfold includes in ground arith

    skip_first :
        (k : List ℕ) (c : ℕ) (t : List ℕ)
        → starts_with k (c ∷ t) ≡ false
        → includes k (c ∷ t) ≡ includes k t
    skip_first k c t h = unfold includes in ground arith

pub slice_last-absent :
    (k s : List ℕ) (n : ℕ) → includes k s ≡ false → includes k (slice_last n s) ≡ false
unfolding slice_last
slice_last-absent k s n h = elim (Bool-cases (n == 0)) [
  | inl whole ↦ rw whole h
  | inr part ↦ rw part (includes-last_units k s n h)
]

pub slice_last-kept :
    (k s b : List ℕ)
    → 0 < length k
    → includes k s ≡ false
    → includes k (slice_last (length k - 1) s ++ b) ≡ includes k (s ++ b)
unfolding slice_last
slice_last-kept k s b positive h = elim (Bool-cases (length k - 1 == 0)) [
  | inl whole ↦ rw whole refl
  | inr part ↦ rw part (includes-kept k s b (length k - 1) (omega arith) h)
]
