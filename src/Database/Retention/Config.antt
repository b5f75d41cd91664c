-- ===== src/Database/Retention/Config.antt =====
-- packages/database/src/retention-config.ts: the settings of a retention run, read from texts. The
-- parser of URLs is the platform's, and enters as the test for the protocol of MySQL.
use link_alive.Common.{
  ℕ, ◌+◌, ◌-◌, ◌*◌, ◌≤◌, ◌≡◌, refl, ap, ◌∙◌, ◌↔◌, Bool, true, not, ◌&&◌, ◌||◌, Option, none, some,
  List, [], ◌∷◌, Result, ok, throw, ◌>>=◌, >>=-eq-ok, all, is_empty, trim, leb, ltb, if◌then◌else◌,
  arith,
}
use link_alive.Domain.Types.{is_safe_integer}
use link_alive.Database.Retention.Runner.{RetentionConfig}

pub data ConfigError : Type 0 where
  no_database_url not_mysql not_in_range : ConfigError

pub record Environment : Type 0 where
  pub database_url : Option (List ℕ)
  pub check_result_days : Option (List ℕ)
  pub history_days : Option (List ℕ)
  pub batch_size : Option (List ℕ)
  pub max_batches_per_step : Option (List ℕ)

-- `\d`, the code units of 0 to 9.
abbrev pub is_digit : ℕ → Bool
is_digit c = leb 48 c && leb c 57

-- `/^\d+$/.test(raw)`
abbrev pub is_whole : List ℕ → Bool
is_whole raw = not (is_empty raw) && all is_digit raw

-- `Number(raw)` of a text of digits, behind those that have been read.
abbrev pub number_from : ℕ → List ℕ → ℕ
number_from n [] = n
number_from n (c ∷ cs) = number_from (n * 10 + (c - 48)) cs

unfoldable pub read_integer :
    Option (List ℕ) → (fallback minimum maximum : ℕ) → Result ConfigError ℕ
read_integer none fallback minimum maximum = ok fallback
read_integer (some raw) fallback minimum maximum =
    let value = number_from 0 raw in
    if not (is_whole raw)
    then throw not_in_range
    else (if not (is_safe_integer value) || ltb value minimum || ltb maximum value
        then throw not_in_range
        else ok value)

module _ (is_mysql : List ℕ → Bool) where
  unfoldable pub check_url : Option (List ℕ) → Result ConfigError (Unit {0})
  check_url none = throw no_database_url
  check_url (some url) =
      if is_empty url || is_empty (trim url)
      then throw no_database_url
      else (if is_mysql url then ok tt else throw not_mysql)

  unfoldable pub read_retention_config : Environment → Result ConfigError RetentionConfig
  unfolding check_url read_integer
  read_retention_config e = do
    valid ← check_url e.database_url
    days ← read_integer e.check_result_days 30 1 3650
    history ← read_integer e.history_days 365 1 36500
    size ← read_integer e.batch_size 500 1 10000
    batches ← read_integer e.max_batches_per_step 100 1 1000
    ok (record {
      check_result_days = days;
      history_days = history;
      batch_size = size;
      max_batches_per_step = batches;
    })

-- A setting of this default and range has this value: it is absent and has the default, or it is a
-- text of digits within the range.
abbrev pub Accepts : Option (List ℕ) → (fallback minimum maximum value : ℕ) → Type 0
Accepts none fallback minimum maximum value = value ≡ fallback
Accepts (some text) fallback minimum maximum value =
    (is_whole text ≡ true) × (number_from 0 text ≡ value) × (minimum ≤ value) × (value ≤ maximum)

decided :
    (whole : Bool) (n minimum maximum value : ℕ)
    → is_safe_integer maximum ≡ true
    → (◌≡◌ {A = Result ConfigError ℕ}
        (if not whole
          then throw not_in_range
          else (if not (is_safe_integer n) || ltb n minimum || ltb maximum n
              then throw not_in_range
              else ok n))
        (ok value))
      ↔ ((whole ≡ true) × (n ≡ value) × (minimum ≤ value) × (value ≤ maximum))
decided whole n minimum maximum value safe = ground arith

read_integer-ok_iff :
    (raw : Option (List ℕ)) (fallback minimum maximum value : ℕ)
    → is_safe_integer maximum ≡ true
    → (read_integer raw fallback minimum maximum ≡ ok value)
      ↔ Accepts raw fallback minimum maximum value
unfolding read_integer
read_integer-ok_iff none fallback minimum maximum value safe = ground arith
read_integer-ok_iff (some text) fallback minimum maximum value safe =
    decided (is_whole text) (number_from 0 text) minimum maximum value safe

ok_injective :
    (a b : RetentionConfig) → ◌≡◌ {A = Result ConfigError RetentionConfig} (ok a) (ok b) → a ≡ b
ok_injective a b h = cc

-- A configuration is read, as this one, exactly if the database URL passes its test and each setting
-- is absent and has its default, or is a text of digits within its range: 1 to 3,650 days for check
-- results, 1 to 36,500 for history, 1 to 10,000 rows and 1 to 1,000 batches.
pub read_retention_config-ok_iff :
    (is_mysql : List ℕ → Bool) (e : Environment) (c : RetentionConfig)
    → (read_retention_config is_mysql e ≡ ok c) ↔ (
        (check_url is_mysql e.database_url ≡ ok tt)
        × Accepts e.check_result_days 30 1 3650 c.check_result_days
        × Accepts e.history_days 365 1 36500 c.history_days
        × Accepts e.batch_size 500 1 10000 c.batch_size
        × Accepts e.max_batches_per_step 100 1 1000 c.max_batches_per_step)
unfolding read_retention_config
read_retention_config-ok_iff is_mysql e c = (
  λ h.
      let (valid, checked, h1) = >>=-eq-ok (check_url is_mysql e.database_url) _ h in
      let (days, d, h2) = >>=-eq-ok (read_integer e.check_result_days 30 1 3650) _ h1 in
      let (history, y, h3) = >>=-eq-ok (read_integer e.history_days 365 1 36500) _ h2 in
      let (size, z, h4) = >>=-eq-ok (read_integer e.batch_size 500 1 10000) _ h3 in
      let (batches, b, h5) = >>=-eq-ok (read_integer e.max_batches_per_step 100 1 1000) _ h4 in
      let same = ok_injective _ c h5 in
      (
        checked,
        (read_integer-ok_iff e.check_result_days 30 1 3650 c.check_result_days refl).0
            (d ∙ ap (λ x. ok (RetentionConfig.check_result_days x)) same),
        (read_integer-ok_iff e.history_days 365 1 36500 c.history_days refl).0
            (y ∙ ap (λ x. ok (RetentionConfig.history_days x)) same),
        (read_integer-ok_iff e.batch_size 500 1 10000 c.batch_size refl).0
            (z ∙ ap (λ x. ok (RetentionConfig.batch_size x)) same),
        (read_integer-ok_iff e.max_batches_per_step 100 1 1000 c.max_batches_per_step refl).0
            (b ∙ ap (λ x. ok (RetentionConfig.max_batches_per_step x)) same),
      ),
  λ (u, d, y, z, b).
      rw
        (
          u,
          (read_integer-ok_iff e.check_result_days 30 1 3650 c.check_result_days refl).1 d,
          (read_integer-ok_iff e.history_days 365 1 36500 c.history_days refl).1 y,
          (read_integer-ok_iff e.batch_size 500 1 10000 c.batch_size refl).1 z,
          (read_integer-ok_iff e.max_batches_per_step 100 1 1000 c.max_batches_per_step refl).1 b,
        )
        refl,
)
