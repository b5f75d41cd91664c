-- ===== src/Database/Retention/Runner.antt =====
-- packages/database/src/retention-runner.ts: bounded batches, each in a transaction, under an
-- advisory lock. The connection is mysql2's, and enters as a record of what its calls do.
use link_alive.Common.{
  ℕ, suc, zero, ◌+◌, ◌≤◌, ◌≡◌, Bool, false, ◌&&◌, Option, none, some, List, [], ◌∷◌, Result, ok,
  throw, length, is_empty, ltb, ◌==◌, if◌then◌else◌,
}
use link_alive.Database.Retention.Plan.{RetentionStep, retention_steps, uses_check_result_cutoff}

pub data RunnerError : Type 0 where
  query_failed not_every_candidate no_boundaries : RunnerError

-- The steps of RETENTION_REDACTION_STEPS, in their order.
pub data RedactionStep : Type 0 where
  deleted_monitors deleted_notification_channels terminal_notification_outbox : RedactionStep

abbrev pub redaction_steps : List RedactionStep
redaction_steps =
    deleted_monitors ∷ deleted_notification_channels ∷ terminal_notification_outbox ∷ []

-- A step with what its SELECT is given: a redaction the limit, a deletion its cutoff too.
pub data Statement : Type 0 where
  redact : RedactionStep → Statement
  delete : RetentionStep → (cutoff : ℕ) → Statement

-- What `runRetention` asks of the connection. A call changes the connection, and throws or returns.
-- The laws are what MySQL documents: a SELECT respects its LIMIT, and a transaction is open from
-- BEGIN until COMMIT or ROLLBACK has returned, whatever queries run in it.
pub record RetentionConnection : Type 1 where
  pub Conn : Type 0
  pub begin_transaction : Conn → Result RunnerError (Unit {0}) × Conn
  pub commit : Conn → Result RunnerError (Unit {0}) × Conn
  pub rollback : Conn → Result RunnerError (Unit {0}) × Conn
  pub select : Statement → (limit : ℕ) → Conn → Result RunnerError (List ℕ) × Conn
  pub mutate : Statement → List ℕ → Conn → Result RunnerError ℕ × Conn
  pub get_lock : Conn → Result RunnerError Bool × Conn
  pub release_lock : Conn → Result RunnerError (Unit {0}) × Conn
  pub set_lock_wait : Conn → Result RunnerError (Unit {0}) × Conn
  pub boundaries :
      (check_result_days history_days : ℕ) → Conn → Result RunnerError (Option (ℕ × ℕ × ℕ)) × Conn
  pub in_transaction : Conn → Bool
  pub select_limit :
      (s : Statement) (limit : ℕ) (c : Conn) (ids : List ℕ) (d : Conn)
      → select s limit c ≡ (ok ids, d)
      → length ids ≤ limit
  pub commit_ends :
      (c : Conn) (u : Unit {0}) (d : Conn) → commit c ≡ (ok u, d) → in_transaction d ≡ false
  pub rollback_ends :
      (c : Conn) (u : Unit {0}) (d : Conn) → rollback c ≡ (ok u, d) → in_transaction d ≡ false

pub record RetentionConfig : Type 0 where
  pub check_result_days : ℕ
  pub history_days : ℕ
  pub batch_size : ℕ
  pub max_batches_per_step : ℕ

-- `deleted` of a deletion, `redacted` of a redaction.
pub record StepResult : Type 0 where
  pub batches : ℕ
  pub rows : ℕ
  pub limit_reached : Bool

pub record RetentionCompleted : Type 0 where
  pub redactions : List StepResult
  pub deletions : List StepResult
  pub total_redacted : ℕ
  pub total_deleted : ℕ

pub data RetentionRunResult : Type 0 where
  completed : RetentionCompleted → RetentionRunResult
  skipped : RetentionRunResult

module _ (db : RetentionConnection) where
  open db use {
    Conn, begin_transaction, commit, rollback, select, mutate, get_lock, release_lock,
    set_lock_wait, boundaries,
  }

  -- A call that may throw, with the connection after it.
  abbrev pub Query : Type 0 → Type 0
  Query A = Conn → Result RunnerError A × Conn

  -- The rest of a sequence, behind what its first call came to.
  abbrev pub go_on :
      {A B : Type 0} → Result RunnerError A × Conn → (A → Query B) → Result RunnerError B × Conn
  go_on (throw e, d) f = (throw e, d)
  go_on (ok a, d) f = f a d

  infixl 5 ◌>>=◌ ◌>>◌
  abbrev pub ◌>>=◌ : {A B : Type 0} → Query A → (A → Query B) → Query B
  ◌>>=◌ m f c = go_on (m c) f

  abbrev pub ◌>>◌ : {B : Type 0} → Query (Unit {0}) → Query B → Query B
  m >> k = m >>= λ _. k

  abbrev pub pure : {A : Type 0} → A → Query A
  pure a c = (ok a, c)

  abbrev pub fail : {A : Type 0} → RunnerError → Query A
  fail e c = (throw e, c)

  -- `try { m } catch (error) { await handler; throw error; }`
  abbrev pub caught :
      {A : Type 0} → Query (Unit {0}) → Result RunnerError A × Conn → Result RunnerError A × Conn
  caught handler (ok a, d) = (ok a, d)
  caught handler (throw e, d) = go_on (handler d) (λ u. fail e)

  abbrev pub on_throw : {A : Type 0} → Query (Unit {0}) → Query A → Query A
  on_throw handler m c = caught handler (m c)

  -- `try { m } finally { await last; }`
  abbrev pub finally : {A : Type 0} → Query (Unit {0}) → Query A → Query A
  finally last m c = let (r, d) = m c in go_on (last d) (λ u d'. (r, d'))

  -- The body of the `try` of `mutateLockedCandidates`.
  unfoldable pub mutate_candidates : Statement → ℕ → Query ℕ
  mutate_candidates s limit = do
    ids ← select s limit
    if is_empty ids then (do commit; pure 0) else (do
      affected_rows ← mutate s ids
      if affected_rows == length ids
          then (do commit; pure affected_rows)
          else fail not_every_candidate)

  unfoldable pub mutate_locked_candidates : Statement → ℕ → Query ℕ
  mutate_locked_candidates s limit = do
    begin_transaction
    on_throw rollback (mutate_candidates s limit)

  -- The `for` loop over the batches of a step: `left` batches may follow, `batches` and `rows` have
  -- been counted.
  unfoldable pub run_batches : Query ℕ → ℕ → ℕ → ℕ → ℕ → ℕ → Query (ℕ × ℕ × ℕ)
  run_batches batch size zero batches rows last_size = pure (batches, rows, last_size)
  run_batches batch size (suc left) batches rows last_size = batch >>= λ n.
      if ltb n size
      then pure (suc batches, rows + n, n)
      else run_batches batch size left (suc batches) (rows + n) n

  unfoldable pub run_step : Query ℕ → RetentionConfig → Query StepResult
  run_step batch config =
      run_batches batch config.batch_size config.max_batches_per_step 0 0 0
      >>= λ (batches, rows, last_size). pure (record {
        batches = batches;
        rows = rows;
        limit_reached = batches == config.max_batches_per_step && last_size == config.batch_size;
      })

  -- The loop over the steps, with the results and the total.
  unfoldable pub run_steps {ℓ} :
      {Step : Type ℓ} → (Step → Query ℕ) → RetentionConfig → List Step → Query (List StepResult × ℕ)
  run_steps batch config [] = pure ([], 0)
  run_steps batch config (s ∷ ss) = do
    result ← run_step (batch s) config
    later ← run_steps batch config ss
    pure (result ∷ later.0, result.rows + later.1)

  -- What follows the query for the boundaries: the redactions, then the deletions.
  unfoldable pub run_all : RetentionConfig → Option (ℕ × ℕ × ℕ) → Query RetentionRunResult
  run_all config none = fail no_boundaries
  run_all config (some (boundary_at, check_result_cutoff, history_cutoff)) = do
    redacted ←
        run_steps (λ s. mutate_locked_candidates (redact s) config.batch_size) config
          redaction_steps
    deleted ←
        run_steps
          (λ s.
            mutate_locked_candidates
              (delete s
                (if uses_check_result_cutoff s then check_result_cutoff else history_cutoff))
              config.batch_size)
          config retention_steps
    pure (
        completed (record {
          redactions = redacted.0;
          deletions = deleted.0;
          total_redacted = redacted.1;
          total_deleted = deleted.1;
        }))

  unfoldable pub run_locked : RetentionConfig → Query RetentionRunResult
  run_locked config = do
    set_lock_wait
    found ← boundaries config.check_result_days config.history_days
    run_all config found

  unfoldable pub run_retention : RetentionConfig → Query RetentionRunResult
  run_retention config = do
    acquired ← get_lock
    if acquired then finally release_lock (run_locked config) else pure skipped
