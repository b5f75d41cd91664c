-- ===== src/Common/Results.antt =====
-- What a JavaScript call comes to: it throws an error, or it returns a value.
use mathlib.Core.Path.{◌≡◌, refl}
use mathlib.Core.Bool.{Bool, true, false}

pub data Result {ℓ κ} (Thrown : Type ℓ) (Value : Type κ) : Type (ℓ ⊔ κ) where
  throw : Thrown → Result Thrown Value
  ok : Value → Result Thrown Value

module _ {ℓ κ μ} {Thrown : Type ℓ} {Value : Type κ} {Next : Type μ} where
  infixl 5 ◌>>=◌
  abbrev pub ◌>>=◌ : Result Thrown Value → (Value → Result Thrown Next) → Result Thrown Next
  throw problem >>= continue = throw problem
  ok value >>= continue = continue value

  -- A sequence that returned has returned from its first call.
  pub >>=-eq-ok :
      (call : Result Thrown Value) (continue : Value → Result Thrown Next) {next : Next}
      → (call >>= continue) ≡ ok next
      → (value : Value) × (call ≡ ok value) × (continue value ≡ ok next)
  >>=-eq-ok (throw problem) continue returned = cc
  >>=-eq-ok (ok value) continue returned = (value, refl, returned)

module _ {ℓ} {Thrown : Type ℓ} where
  infixl 5 ◌>>◌
  abbrev pub ◌>>◌ {μ} :
      {Next : Type μ} → Result Thrown (Unit {0}) → Result Thrown Next → Result Thrown Next
  throw problem >> later = throw problem
  ok done >> later = later

  pub >>-eq-ok {μ} :
      {Next : Type μ} (call : Result Thrown (Unit {0})) (later : Result Thrown Next) {next : Next}
      → (call >> later) ≡ ok next
      → (call ≡ ok tt) × (later ≡ ok next)
  >>-eq-ok (throw problem) later returned = (cc, cc)
  >>-eq-ok (ok done) later returned = (refl, returned)

  -- `if (bad) throw problem;`
  abbrev pub throw_if : Bool → Thrown → Result Thrown (Unit {0})
  throw_if true problem = throw problem
  throw_if false problem = ok tt
