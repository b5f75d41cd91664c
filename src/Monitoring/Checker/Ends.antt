-- ===== src/Monitoring/Checker/Ends.antt =====
-- What holds where the actions of packages/monitoring/src/checker.ts end.
use link_alive.Common.{◌≡◌, refl, Bool, true, false, Result, ok, throw}
use link_alive.Monitoring.Checker.Failures.{Thrown}
use link_alive.Monitoring.Checker.Session.{Session, Action, on_result, ◌>>=◌, ◌>>◌, call, fail_if}

-- Where an action ends: with a value, or with an error.
abbrev pub Ends :
    {A : Type 0} → (A → Session → Type 0) → (Session → Type 0) → Result Thrown A × Session → Type 0
Ends Q E (ok a, s) = Q a s
Ends Q E (throw e, s) = E s

module _ {A B : Type 0} (Q : A → Session → Type 0) (R : B → Session → Type 0)
    (E : Session → Type 0) where
  on_result-Ends :
      (r : Result Thrown A × Session) (f : A → Action B)
      → Ends Q E r
      → ((a : A) (s : Session) → Q a s → Ends R E (f a s))
      → Ends R E (on_result f r)
  on_result-Ends (ok a, s) f h next = next a s h
  on_result-Ends (throw e, s) f h next = h

  -- What holds where the first action ends holds where the second starts.
  pub >>=-Ends :
      (m : Action A) (f : A → Action B) (s : Session)
      → Ends Q E (m s)
      → ((a : A) (s : Session) → Q a s → Ends R E (f a s))
      → Ends R E ((m >>= f) s)
  >>=-Ends m f s h next = on_result-Ends (m s) f h next

-- The same, where the first gives no value.
pub >>-Ends :
    {B : Type 0} (Q : Session → Type 0) (R : B → Session → Type 0) (E : Session → Type 0)
    (m : Action (Unit {0})) (f : Action B) (s : Session)
    → Ends (λ done s. Q s) E (m s)
    → ((s : Session) → Q s → Ends R E (f s))
    → Ends R E ((m >> f) s)
>>-Ends Q R E m f s h next =
    on_result-Ends (λ done s. Q s) R E (m s) (λ done. f) h (λ done s. next s)

module _ {A : Type 0} (P : Session → Type 0) (R : A → Session → Type 0) where
  -- A call that changes nothing keeps what holds.
  pub call-Ends :
      {B : Type 0} (result : Result Thrown B) (f : B → Action A) (s : Session)
      → P s
      → ((b : B) → Ends R P (f b s))
      → Ends R P (((call result) >>= f) s)
  call-Ends (ok b) f s h next = next b
  call-Ends (throw e) f s h next = h

  pub call_before-Ends :
      (result : Result Thrown (Unit {0})) (m : Action A) (s : Session)
      → P s
      → Ends R P (m s)
      → Ends R P ((call result >> m) s)
  call_before-Ends (ok done) m s h next = next
  call_before-Ends (throw e) m s h next = h

  pub fail_if-Ends :
      (b : Bool) (e : Thrown) (m : Action A) (s : Session)
      → P s
      → (b ≡ false → Ends R P (m s))
      → Ends R P ((fail_if b e >> m) s)
  fail_if-Ends true e m s h next = h
  fail_if-Ends false e m s h next = next refl

-- A test with which an action ends.
pub fail_last-Ends :
    (P : Session → Type 0) (Q : Session → Type 0) (b : Bool) (e : Thrown) (s : Session)
    → P s
    → Q s
    → Ends (λ done s. Q s) P (fail_if b e s)
fail_last-Ends P Q true e s h q = h
fail_last-Ends P Q false e s h q = q

-- What follows from what holds at the end.
pub Ends-moved :
    (Q R : Session → Type 0) (E : Session → Type 0) (r : Result Thrown (Unit {0}) × Session)
    → Ends (λ done s. Q s) E r
    → ((s : Session) → Q s → R s)
    → Ends (λ done s. R s) E r
Ends-moved Q R E (ok done, s) h next = next s h
Ends-moved Q R E (throw e, s) h next = h
