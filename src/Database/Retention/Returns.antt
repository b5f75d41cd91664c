-- ===== src/Database/Retention/Returns.antt =====
-- A run of retention returns on a connection whose calls return.
use link_alive.Common.{
  ℕ, zero, suc, ◌+◌, ◌≡◌, refl, some, List, [], ◌∷◌, ok, throw, length, is_empty, ltb, ◌==◌, ==_iff,
  if◌then◌else◌, if-holds, Bool-cases, inl, inr,
}
use link_alive.Database.Retention.Plan.{retention_steps}
use link_alive.Database.Retention.Runner.{
  RunnerError, RetentionConnection, RetentionConfig, RetentionRunResult, Statement, Query, ◌>>=◌,
  pure, mutate_candidates, mutate_locked_candidates, run_batches, run_step, run_steps, run_all,
  run_locked, run_retention, redaction_steps,
}

module _ (db : RetentionConnection) where
  open db use {
    Conn, begin_transaction, commit, rollback, select, mutate, get_lock, release_lock,
    set_lock_wait, boundaries,
  }

  -- A call that returns, and does not throw, whatever the connection.
  abbrev pub Returns : {A : Type 0} → Query db A → Type 0
  Returns {A} m = (c : Conn) → (a : A) × (d : Conn) × (m c ≡ (ok a, d))

  -- A connection that never fails, whose UPDATE and DELETE affect all the rows that the SELECT has
  -- locked, and which has a clock.
  pub record IsReliable : Type 0 where
    pub begins : Returns begin_transaction
    pub commits : Returns commit
    pub selects : (s : Statement) (limit : ℕ) → Returns (select s limit)
    pub mutates :
        (s : Statement) (limit : ℕ) (ids : List ℕ) (c d : Conn)
        → select s limit c ≡ (ok ids, d)
        → (e : Conn) × (mutate s ids d ≡ (ok (length ids), e))
    pub locks : Returns get_lock
    pub unlocks : Returns release_lock
    pub waits : Returns set_lock_wait
    pub has_clock :
        (days history : ℕ) (c : Conn)
        → (b : ℕ × ℕ × ℕ) × (d : Conn) × (boundaries days history c ≡ (ok (some b), d))

  bind-Returns :
      {A B : Type 0} (m : Query db A) (f : A → Query db B)
      → Returns m
      → ((a : A) → Returns (f a))
      → Returns (◌>>=◌ db m f)
  bind-Returns m f h k c =
      let (a, d, first) = h c in let (b, e, later) = k a d in (b, e, rw first later)

  pure-Returns : {A : Type 0} (a : A) → Returns (pure db a)
  pure-Returns a c = (a, c, refl)

  module _ (reliable : IsReliable) where
    mutated :
        (s : Statement) (ids : List ℕ) (d : Conn)
        → (e : Conn) × (mutate s ids d ≡ (ok (length ids), e))
        → (n : ℕ) × (f : Conn) × (◌>>=◌ db
              (mutate s ids)
              (λ n.
                if n == length ids
                then ◌>>=◌ db commit (λ u. pure db n)
                else (λ c. (throw RunnerError.not_every_candidate, c)))
              d
            ≡ (ok n, f))
    mutated s ids d (e, first) =
        let (u, f, last) = reliable.commits e in
        (length ids, f, rw (first, (==_iff (length ids) (length ids)).1 refl, last) refl)

    mutate_candidates-Returns : (s : Statement) (limit : ℕ) → Returns (mutate_candidates db s limit)
    unfolding mutate_candidates
    mutate_candidates-Returns s limit c =
        let (ids, d, found) = reliable.selects s limit c in
        elim (Bool-cases (is_empty ids)) [
          | inl none_found ↦
              let (u, e, last) = reliable.commits d in (0, e, rw (found, none_found, last) refl)
          | inr some_found ↦
              let (n, e, done) = mutated s ids d (reliable.mutates s limit ids c d found) in
              (n, e, rw (found, some_found) done)
        ]

    mutate_locked_candidates-Returns :
        (s : Statement) (limit : ℕ) → Returns (mutate_locked_candidates db s limit)
    unfolding mutate_locked_candidates
    mutate_locked_candidates-Returns s limit =
        bind-Returns begin_transaction _ reliable.begins
          (λ u c. let (n, d, done) = mutate_candidates-Returns s limit c in (n, d, rw done refl))

    run_batches-Returns :
        (batch : Query db ℕ) (size left batches rows last_size : ℕ)
        → Returns batch
        → Returns (run_batches db batch size left batches rows last_size)
    unfolding run_batches
    run_batches-Returns batch size zero batches rows last_size h =
        pure-Returns (batches, rows, last_size)
    run_batches-Returns batch size (suc left) batches rows last_size h =
        bind-Returns batch _ h (λ n.
          if-holds Returns (ltb n size) (pure-Returns (suc batches, rows + n, n))
            (run_batches-Returns batch size left (suc batches) (rows + n) n h))

    run_step-Returns :
        (batch : Query db ℕ) (config : RetentionConfig)
        → Returns batch
        → Returns (run_step db batch config)
    unfolding run_step
    run_step-Returns batch config h =
        bind-Returns (run_batches db batch config.batch_size config.max_batches_per_step 0 0 0) _
          (run_batches-Returns batch config.batch_size config.max_batches_per_step 0 0 0 h)
          (λ counted. pure-Returns _)

    run_steps-Returns {ℓ} :
        {Step : Type ℓ} (batch : Step → Query db ℕ) (config : RetentionConfig) (steps : List Step)
        → ((s : Step) → Returns (batch s))
        → Returns (run_steps db batch config steps)
    unfolding run_steps
    run_steps-Returns batch config [] h = pure-Returns ([], 0)
    run_steps-Returns batch config (s ∷ ss) h =
        bind-Returns (run_step db (batch s) config) _ (run_step-Returns (batch s) config (h s))
          (λ r.
            bind-Returns (run_steps db batch config ss) _ (run_steps-Returns batch config ss h)
              (λ later. pure-Returns _))

    run_all-Returns :
        (config : RetentionConfig) (b : ℕ × ℕ × ℕ) → Returns (run_all db config (some b))
    unfolding run_all
    run_all-Returns config (at, checks, history) =
        bind-Returns _ _
          (run_steps-Returns _ config redaction_steps
            (λ s. mutate_locked_candidates-Returns _ config.batch_size))
          (λ redacted.
            bind-Returns _ _
              (run_steps-Returns _ config retention_steps
                (λ s. mutate_locked_candidates-Returns _ config.batch_size))
              (λ deleted. pure-Returns _))

    run_locked-Returns : (config : RetentionConfig) → Returns (run_locked db config)
    unfolding run_locked
    run_locked-Returns config = bind-Returns set_lock_wait _ reliable.waits (λ u c.
        let (b, d, found) = reliable.has_clock config.check_result_days config.history_days c in
        let (r, e, ran) = run_all-Returns config b d in (r, e, rw found ran))

  -- On a connection whose calls do not fail, whose UPDATE and DELETE affect all the rows that the
  -- SELECT has locked, and which has a clock, a run of retention returns, whatever its limits and its
  -- batches.
  pub run_retention-returns :
      IsReliable
      → (config : RetentionConfig) (c : Conn)
      → (r : RetentionRunResult) × (d : Conn) × (run_retention db config c ≡ (ok r, d))
  unfolding run_retention
  run_retention-returns reliable config = bind-Returns get_lock _ reliable.locks (λ acquired.
      if-holds Returns acquired
        (λ c.
          let (r, d, ran) = run_locked-Returns reliable config c in
          let (u, e, released) = reliable.unlocks d in (r, e, rw (ran, released) refl))
        (pure-Returns RetentionRunResult.skipped))
