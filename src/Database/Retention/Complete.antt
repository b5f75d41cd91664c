-- ===== src/Database/Retention/Complete.antt =====
-- A run of retention reports each step and its totals, and releases the lock.
use link_alive.Common.{
  ◌+◌, ◌≤◌, ◌≡◌, ◌⊎◌, inl, inr, Option, none, some, List, [], ◌∷◌, ok, All, Bool-cases,
  if◌then◌else◌, true, false, ℕ, sym, ap, ◌∙◌,
}
use link_alive.Database.Retention.Plan.{RetentionStep, retention_steps, uses_check_result_cutoff}
use link_alive.Database.Retention.Runner.{
  RetentionConnection, RetentionConfig, StepResult, RetentionCompleted, RetentionRunResult,
  completed, skipped, Query, finally, run_all, run_step, run_steps, run_locked, run_retention,
  mutate_locked_candidates, redact, delete, RedactionStep, pure, redaction_steps,
}
use link_alive.Database.Retention.Batches.{
  IsBounded, Respects, throw-ne-ok, ok_injective, bind_value, bind-eq-ok,
  mutate_locked_candidates-closed, run_step-IsBounded,
}

abbrev pub sum_rows : List StepResult → ℕ
sum_rows [] = 0
sum_rows (r ∷ rs) = r.rows + sum_rows rs

module _ (db : RetentionConnection) where
  open db use {
    Conn, in_transaction, begin_transaction, commit, rollback, select, mutate, select_limit,
    commit_ends, get_lock, release_lock, set_lock_wait, boundaries,
  }

  -- The results are those of these steps in their order, each of a run over its batches.
  abbrev pub AreOf {ℓ} :
      {Step : Type ℓ} → (Step → Query db ℕ) → RetentionConfig → List Step → List StepResult → Type 0
  AreOf batch config [] [] = Unit
  AreOf batch config [] (r ∷ rs) = ⊥
  AreOf batch config (s ∷ ss) [] = ⊥
  AreOf batch config (s ∷ ss) (r ∷ rs) =
      ((c : Conn) × (d : Conn) × (run_step db (batch s) config c ≡ (ok r, d)))
      × AreOf batch config ss rs

  abbrev pub redaction_batch : RetentionConfig → RedactionStep → Query db ℕ
  redaction_batch config s = mutate_locked_candidates db (redact s) config.batch_size

  abbrev pub deletion_batch :
      RetentionConfig → (check_results history : ℕ) → RetentionStep → Query db ℕ
  deletion_batch config check_results history s =
      mutate_locked_candidates db
        (delete s (if uses_check_result_cutoff s then check_results else history)) config.batch_size

  -- A completed run, step by step, with the cutoffs that the database has given.
  pub record IsComplete (config : RetentionConfig) (r : RetentionCompleted) : Type 0 where
    pub redactions : All (IsBounded config) r.redactions
    pub deletions : All (IsBounded config) r.deletions
    pub redacted : r.total_redacted ≡ sum_rows r.redactions
    pub deleted : r.total_deleted ≡ sum_rows r.deletions
    pub all_redactions : AreOf (redaction_batch config) config redaction_steps r.redactions
    pub boundary : Conn × Conn × ℕ × ℕ × ℕ
    pub looked :
        boundaries config.check_result_days config.history_days boundary.0
        ≡ (ok (some (boundary.2, boundary.3, boundary.4)), boundary.1)
    pub all_deletions :
        AreOf (deletion_batch config boundary.3 boundary.4) config retention_steps r.deletions

  run_steps-IsBounded {ℓ} :
      {Step : Type ℓ} (batch : Step → Query db ℕ) (config : RetentionConfig)
      → ((s : Step) → Respects db config.batch_size (batch s))
      → 1 ≤ config.max_batches_per_step
      → (steps : List Step) (c d : Conn) (rs : List StepResult) (total : ℕ)
      → run_steps db batch config steps c ≡ (ok (rs, total), d)
      → All (IsBounded config) rs × (total ≡ sum_rows rs) × AreOf batch config steps rs
  unfolding run_steps
  run_steps-IsBounded batch config small pos [] c d rs total h =
      let e = ok_injective db c d h in
      (
        rw (← ap (λ x. x.0) e) tt,
        rw (← ap (λ x. x.0) e) (sym (ap (λ x. x.1) e)),
        rw (← ap (λ x. x.0) e) tt,
      )
  run_steps-IsBounded batch config small pos (s ∷ ss) c d rs total h =
      let (r, e, first, h1) = bind-eq-ok db (run_step db (batch s) config) _ c d h in
      let ((rs', total'), e', later, same) =
        bind-eq-ok db (run_steps db batch config ss) _ e d h1 in
      let (bounded, sum, count) =
        run_steps-IsBounded batch config small pos ss e e' rs' total' later in
      let i = ok_injective db e' d same in
      let here = run_step-IsBounded db (batch s) config c e r (small s) pos first in
      (
        rw (← ap (λ x. x.0) i) (here, bounded),
        rw (← ap (λ x. x.0) i, ← ap (λ x. x.1) i, sum),
        rw (← ap (λ x. x.0) i) ((c, e, first), count),
      )

  run_all-IsComplete :
      (config : RetentionConfig) (found : Option (ℕ × ℕ × ℕ)) (c d : Conn) (r : RetentionRunResult)
      (before : Conn)
      → 1 ≤ config.max_batches_per_step
      → boundaries config.check_result_days config.history_days before ≡ (ok found, c)
      → run_all db config found c ≡ (ok r, d)
      → (done : RetentionCompleted) × (r ≡ completed done) × IsComplete config done
  unfolding run_all
  run_all-IsComplete config none c d r before pos looked h = absurd (throw-ne-ok db _ r c d h)
  run_all-IsComplete config (some (at, checks, history)) c d r before pos looked h =
      let size = config.batch_size in
      let ((rs, total), e, redacted, h1) =
        bind-eq-ok db (run_steps db _ config redaction_steps) _ c d h in
      let ((ds, total'), e', deleted, h2) =
        bind-eq-ok db (run_steps db _ config retention_steps) _ e d h1 in
      let (rb, rsum, rcount) =
        run_steps-IsBounded _ config
          (λ s c' d' n k. (mutate_locked_candidates-closed db _ size c' d' n k).0) pos
          redaction_steps c e rs total redacted in
      let (db', dsum, dcount) =
        run_steps-IsBounded _ config
          (λ s c' d' n k. (mutate_locked_candidates-closed db _ size c' d' n k).0) pos
          retention_steps e e' ds total' deleted in
      (
        _,
        sym (ok_injective db e' d h2),
        record {
          redactions = rb;
          deletions = db';
          redacted = rsum;
          deleted = dsum;
          all_redactions = rcount;
          boundary = (before, c, at, checks, history);
          looked = looked;
          all_deletions = dcount;
        },
      )

  run_locked-IsComplete :
      (config : RetentionConfig) (c d : Conn) (r : RetentionRunResult)
      → 1 ≤ config.max_batches_per_step
      → run_locked db config c ≡ (ok r, d)
      → (done : RetentionCompleted) × (r ≡ completed done) × IsComplete config done
  unfolding run_locked
  run_locked-IsComplete config c d r pos h =
      let (u, e, waited, h1) = bind-eq-ok db set_lock_wait _ c d h in
      let (found, e', looked, h2) = bind-eq-ok db (boundaries _ _) _ e d h1 in
      run_all-IsComplete config found e' d r e pos looked h2

  finally-eq-ok :
      {A : Type 0} (last : Query db (Unit {0})) (m : Query db A) (c d : Conn) {a : A}
      → finally db last m c ≡ (ok a, d)
      → (e : Conn) × (u : Unit {0}) × (m c ≡ (ok a, e)) × (last e ≡ (ok u, d))
  finally-eq-ok last m c d h =
      let (u, e, closed, same) = bind_value db (last (m c).1) (λ u d'. ((m c).0, d')) c d h in
      (
        (m c).1,
        u,
        λ i. (ap (λ x. x.0) same i, (m c).1),
        closed ∙ (λ i. (ok u, ap (λ x. x.1) same i)),
      )

  skips :
      (config : RetentionConfig) (c d e : Conn) (r : RetentionRunResult)
      → get_lock c ≡ (ok false, e)
      → (pure db skipped e ≡ (ok r, d))
      → (r ≡ skipped) × (get_lock c ≡ (ok false, d))
  skips config c d e r locked h =
      (sym (ok_injective db e d h), locked ∙ (λ i. (ok false, ap (λ x. x.1) h i)))

  -- A run of retention that returns has been skipped, and then the lock was refused; or it got the
  -- lock and is complete: its results are those of the three redactions and the six deletions in
  -- their order, each over batches of its own statement, a deletion with the cutoff that the
  -- database gave; each stayed within its number of batches and of rows and reports its limit as
  -- reached exactly if it removed as many rows as its batches allow; the totals are the sums over the
  -- steps; and the lock was released last. The limit is of at least one batch, and the connection has
  -- the documented behaviour of MySQL.
  pub run_retention-IsComplete :
      (config : RetentionConfig) (c d : Conn) (r : RetentionRunResult)
      → 1 ≤ config.max_batches_per_step
      → run_retention db config c ≡ (ok r, d)
      → ((r ≡ skipped) × (get_lock c ≡ (ok false, d)))
        ⊎ ((done : RetentionCompleted) × (r ≡ completed done)
            × IsComplete config done
            × ((e : Conn) × (get_lock c ≡ (ok true, e)))
            × ((e : Conn) × (u : Unit {0}) × (release_lock e ≡ (ok u, d))))
  unfolding run_retention
  run_retention-IsComplete config c d r pos h =
      let (acquired, e, locked, h1) = bind-eq-ok db get_lock _ c d h in
      elim (Bool-cases acquired) [
        | inr busy ↦ inl (skips config c d e r (rw (← busy) locked) (rw busy at h1))
        | inl got ↦
            let (e', u, ran, released) =
              finally-eq-ok release_lock (run_locked db config) e d (rw got at h1) in
            let (done, same, whole) = run_locked-IsComplete config e e' r pos ran in
            inr (done, same, whole, (e, rw (← got) locked), (e', u, released))
      ]
