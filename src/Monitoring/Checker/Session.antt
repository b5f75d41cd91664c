-- ===== src/Monitoring/Checker/Session.antt =====
-- packages/monitoring/src/checker.ts: the variables of a check, and calls that change them or throw.
use link_alive.Common.{ℕ, Bool, true, false, Option, List}
use link_alive.Common.{Result, ok, throw}
use link_alive.Monitoring.Checker.Failures.{Thrown}

-- `acquired` and `released` count the leases of destinations that were given and given back.
pub record Session : Type 0 where
  pub current_url : List ℕ
  pub status_code : Option ℕ
  pub ttfb_ms : Option ℕ
  pub redirects : ℕ
  pub inspected_body_bytes : ℕ
  pub has_response : Bool
  pub has_lease : Bool
  pub visited : List (List ℕ × List ℕ)
  pub cookies : List (List ℕ × List ℕ)
  pub acquired : ℕ
  pub released : ℕ

-- What runs on these variables; an error leaves them as they are by then.
abbrev pub Action : Type 0 → Type 0
Action A = Session → Result Thrown A × Session

-- What follows on a result.
abbrev pub on_result :
    {A B : Type 0} → (A → Action B) → Result Thrown A × Session → Result Thrown B × Session
on_result next (throw e, s) = (throw e, s)
on_result next (ok a, s) = next a s

infixl 5 ◌>>=◌
abbrev pub ◌>>=◌ : {A B : Type 0} → Action A → (A → Action B) → Action B
(first >>= next) s = on_result next (first s)

infixl 5 ◌>>◌
abbrev pub ◌>>◌ : {B : Type 0} → Action (Unit {0}) → Action B → Action B
(first >> second) s = on_result (λ done. second) (first s)

abbrev pub give : {A : Type 0} → A → Action A
give a s = (ok a, s)

abbrev pub current : Action Session
current s = (ok s, s)

-- A call that may throw and changes none of the variables.
abbrev pub call : {A : Type 0} → Result Thrown A → Action A
call result s = (result, s)

abbrev pub change : (Session → Session) → Action (Unit {0})
change f s = (ok tt, f s)

abbrev pub fail_if : Bool → Thrown → Action (Unit {0})
fail_if true e s = (throw e, s)
fail_if false e s = (ok tt, s)
