-- ===== src/Common/Json.antt =====
-- JSON values whose numbers are natural numbers, and the reading of an object's members.
use Prim.Native.Nat.{ℕ}
use mathlib.Core.Path.{◌≡◌, refl}
use mathlib.Core.Bool.{Bool, true, false, ◌&&◌}
use native.Mathlib.Omega.{arith}
use mathlib.Core.Option.{Option, none, some}
use mathlib.Core.List.{List, [], ◌∷◌}
use link_alive.Common.Tests.{◌==◌, if◌then◌else◌}

mutual
  pub data Json : Type 0 where
    null : Json
    boolean : Bool → Json
    number : ℕ → Json
    string : List ℕ → Json
    array : Items → Json
    object : Members → Json

  pub data Items : Type 0 where
    no_items : Items
    item : Json → Items → Items

  pub data Members : Type 0 where
    no_members : Members
    member : List ℕ → Json → Members → Members

abbrev pub is_text : List ℕ → List ℕ → Bool
is_text [] [] = true
is_text [] (d ∷ t) = false
is_text (c ∷ s) [] = false
is_text (c ∷ s) (d ∷ t) = c == d && is_text s t

-- `data[key]`, where `none` is undefined.
abbrev pub get_member : List ℕ → Members → Option Json
get_member key no_members = none
get_member key (member k v ms) = if is_text k key then some v else get_member key ms

pub is_text_refl : (s : List ℕ) → is_text s s ≡ true
is_text_refl [] = refl
is_text_refl (c ∷ s) = let rest = is_text_refl s in ground arith

pub is_text-eq : (s t : List ℕ) → is_text s t ≡ true → s ≡ t
is_text-eq [] [] h = refl
is_text-eq [] (d ∷ t) h = absurd cc
is_text-eq (c ∷ s) [] h = absurd cc
is_text-eq (c ∷ s) (d ∷ t) h = let rest = is_text-eq s t (ground arith) in ground arith
