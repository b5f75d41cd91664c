-- ===== src/Common/Updates.antt =====
-- What `updateMany` does to a table: it changes the rows that pass its test, and counts them.
use Prim.Native.Nat.{ℕ, ◌+◌}
use mathlib.Core.Path.{◌≡◌}
use mathlib.Core.Bool.{Bool, true}
use mathlib.Core.List.{List, [], ◌∷◌}
use link_alive.Common.Tests.{if◌then◌else◌, Bool-cases}
use link_alive.Common.Lists.{All}
use mathlib.Core.Logic.{inl, inr}

module _ {ℓ} {Row : Type ℓ} (test : Row → Bool) where
  abbrev pub change : (Row → Row) → Row → Row
  change set r = if test r then set r else r

  abbrev pub update_many : (Row → Row) → List Row → List Row
  update_many set [] = []
  update_many set (r ∷ rs) = change set r ∷ update_many set rs

  abbrev pub count : List Row → ℕ
  count [] = 0
  count (r ∷ rs) = (if test r then 1 else 0) + count rs

  -- What holds of every row holds after an update that keeps it.
  pub All-update_many {κ} :
      (P : Row → Type κ) (set : Row → Row)
      → ((r : Row) → test r ≡ true → P r → P (set r))
      → (rs : List Row) → All P rs
      → All P (update_many set rs)
  All-update_many P set keeps [] h = tt
  All-update_many P set keeps (r ∷ rs) (p, h) =
      let rest = All-update_many P set keeps rs h in
      elim (Bool-cases (test r)) [
        | inl passes ↦ rw passes (keeps r passes p, rest)
        | inr fails ↦ rw fails (p, rest)
      ]

-- Two lists of the same length whose elements are related one by one.
module _ {ℓ} {Row : Type ℓ} (R : Row → Row → Type 0) where
  abbrev pub Each : List Row → List Row → Type 0
  Each [] [] = Unit
  Each (r ∷ rs) (s ∷ ss) = R r s × Each rs ss
  Each _ _ = ⊥

  pub Each-update_many {μ} :
      {P : Row → Type μ} (test : Row → Bool) (set : Row → Row)
      → ((r : Row) → R r r)
      → ((r : Row) → P r → test r ≡ true → R r (set r))
      → (rs : List Row) → All P rs
      → Each rs (update_many test set rs)
  Each-update_many test set same keeps [] h = tt
  Each-update_many test set same keeps (r ∷ rs) (p, h) =
      let rest = Each-update_many test set same keeps rs h in
      elim (Bool-cases (test r)) [
        | inl passes ↦ rw passes (keeps r p passes, rest)
        | inr fails ↦ rw fails (same r, rest)
      ]

  pub Each-refl : ((r : Row) → R r r) → (rs : List Row) → Each rs rs
  Each-refl same [] = tt
  Each-refl same (r ∷ rs) = (same r, Each-refl same rs)

  pub Each-trans :
      ((r s t : Row) → R r s → R s t → R r t)
      → (rs ss ts : List Row) → Each rs ss
      → Each ss ts
      → Each rs ts
  Each-trans both [] [] [] h k = tt
  Each-trans both (r ∷ rs) (s ∷ ss) (t ∷ ts) (a, h) (b, k) =
      (both r s t a b, Each-trans both rs ss ts h k)
  Each-trans both [] [] (t ∷ ts) h k = absurd k
  Each-trans both [] (s ∷ ss) ts h k = absurd h
  Each-trans both (r ∷ rs) [] ts h k = absurd h
  Each-trans both (r ∷ rs) (s ∷ ss) [] h k = absurd k

  pub All-Each {μ ν} :
      {P : Row → Type μ} {Q : Row → Type ν}
      → ((r s : Row) → R r s → P r → Q s)
      → (rs ss : List Row) → Each rs ss
      → All P rs
      → All Q ss
  All-Each keeps [] [] e h = tt
  All-Each keeps (r ∷ rs) (s ∷ ss) (a, e) (p, h) = (keeps r s a p, All-Each keeps rs ss e h)
  All-Each keeps _ _ e h = absurd e
