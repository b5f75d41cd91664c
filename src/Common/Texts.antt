-- ===== src/Common/Texts.antt =====
-- Text as lists of UTF-16 code units, and what `trim` does to it.
use Prim.Native.Nat.{ℕ}
use Prim.Native.Char.{code}
use Prim.Native.String.{String}
use mathlib.Core.Path.{◌≡◌, refl}
use mathlib.Core.Logic.{◌≢◌}
use mathlib.Core.Bool.{Bool, true, false, ◌&&◌, ◌||◌}
use mathlib.Core.List.{List, [], ◌∷◌, ◌++◌, reverse}
use link_alive.Common.Tests.{leb, ◌==◌, if◌then◌else◌}

-- The code units of a literal, all of whose characters are below 0x10000.
abbrev pub text : String → List ℕ
text String.[] = []
text (String.◌∷◌ c s) = code c ∷ text s

-- The white space and line ends that `String.prototype.trim` takes off.
abbrev pub is_space : ℕ → Bool
is_space c =
    (leb 9 c && leb c 13)
    || c == 32
    || c == 160
    || c == 0x1680
    || (leb 0x2000 c && leb c 0x200a)
    || c == 0x2028
    || c == 0x2029
    || c == 0x202f
    || c == 0x205f
    || c == 0x3000
    || c == 0xfeff

unfoldable pub trim_start : List ℕ → List ℕ
trim_start [] = []
trim_start (c ∷ cs) = if is_space c then trim_start cs else c ∷ cs

unfoldable pub trim : List ℕ → List ℕ
unfolding trim_start
trim s = reverse (trim_start (reverse (trim_start s)))

abbrev pub is_empty {ℓ} : {A : Type ℓ} → List A → Bool
is_empty [] = true
is_empty (x ∷ xs) = false

-- A text without the unit `u`, and the two sides of the first `u` in a text.
abbrev pub Without : ℕ → List ℕ → Type 0
Without u [] = Unit
Without u (c ∷ cs) = (c ≢ u) × Without u cs

pub split_unique :
    (u : ℕ) (a b x y : List ℕ)
    → Without u a
    → Without u b
    → a ++ u ∷ x ≡ b ++ u ∷ y
    → (a ≡ b) × (x ≡ y)
split_unique u [] [] x y h k e = (refl, cc)
split_unique u [] (d ∷ b) x y h (k, ks) e = absurd (k (cc))
split_unique u (c ∷ a) [] x y (h, hs) k e = absurd (h (cc))
split_unique u (c ∷ a) (d ∷ b) x y (h, hs) (k, ks) e =
    let (same, rest) = split_unique u a b x y hs ks (cc) in (cc, rest)
