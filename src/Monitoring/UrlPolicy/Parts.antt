-- ===== src/Monitoring/UrlPolicy/Parts.antt =====
-- Texts taken apart at a character, as `split` does, and joined again.
use link_alive.Common.{ℕ, ◌≡◌, refl, List, [], ◌∷◌, ◌++◌, All, arith, ◌==◌, if◌then◌else◌, Without}

-- The part before the first separator, and the parts behind it; a text has at least one part.
abbrev pub first_part : ℕ → List ℕ → List ℕ
first_part u [] = []
first_part u (c ∷ cs) = let rest = c ∷ first_part u cs in if c == u then [] else rest

abbrev pub later_parts : ℕ → List ℕ → List (List ℕ)
later_parts u [] = []
later_parts u (c ∷ cs) =
    let rest = later_parts u cs in if c == u then first_part u cs ∷ rest else rest

-- `s.split(u)`
unfoldable pub split : ℕ → List ℕ → List (List ℕ)
split u s = first_part u s ∷ later_parts u s

-- `parts.join(u)`
abbrev pub join : ℕ → List (List ℕ) → List ℕ
join u [] = []
join u (p ∷ []) = p
join u (p ∷ q ∷ ps) = p ++ (u ∷ join u (q ∷ ps))

first_part-append : (u : ℕ) (p s : List ℕ) → Without u p → first_part u (p ++ (u ∷ s)) ≡ p
first_part-append u [] s h = ground arith
first_part-append u (c ∷ p) s (n, h) = let rest = first_part-append u p s h in ground arith

first_part_alone : (u : ℕ) (p : List ℕ) → Without u p → first_part u p ≡ p
first_part_alone u [] h = refl
first_part_alone u (c ∷ p) (n, h) = let rest = first_part_alone u p h in ground arith

later_parts-append :
    (u : ℕ) (p s : List ℕ)
    → Without u p
    → later_parts u (p ++ (u ∷ s)) ≡ first_part u s ∷ later_parts u s
later_parts-append u [] s h = ground arith
later_parts-append u (c ∷ p) s (n, h) = let rest = later_parts-append u p s h in ground arith

later_parts_alone : (u : ℕ) (p : List ℕ) → Without u p → later_parts u p ≡ []
later_parts_alone u [] h = refl
later_parts_alone u (c ∷ p) (n, h) = let rest = later_parts_alone u p h in ground arith

-- Parts without the separator are found again.
pub split-join :
    (u : ℕ) (p : List ℕ) (ps : List (List ℕ))
    → All (Without u) (p ∷ ps)
    → split u (join u (p ∷ ps)) ≡ p ∷ ps
unfolding split
split-join u p [] (h, k) = rw (first_part_alone u p h, later_parts_alone u p h) refl
split-join u p (q ∷ ps) (h, k) =
    rw
      (
        first_part-append u p (join u (q ∷ ps)) h,
        later_parts-append u p (join u (q ∷ ps)) h,
        split-join u q ps k,
      )
      refl
