-- ===== src/Database/Retention/Batches.antt =====
-- A step of retention does a bounded amount of work, in closed transactions.
use link_alive.Common.{
  ℕ, zero, suc, ◌+◌, ◌*◌, ◌≤◌, ◌<◌, ◌≡◌, refl, ◌⊎◌, ◌↔◌, inl, inr, true, false, ◌&&◌, Result, ok,
  throw, length, is_empty, arith, ltb, ltb→lt, ◌==◌, ==_iff, Bool-cases, sym, ap, ◌∙◌,
}
use link_alive.Database.Retention.Runner.{
  RunnerError, RetentionConnection, RetentionConfig, StepResult, Statement, Query, ◌>>=◌, pure,
  fail, caught, run_batches, run_step, mutate_candidates, mutate_locked_candidates,
}

-- What `rows` and `last_size` are when the loop has counted `batches` of `max` batches: all were
-- full, or the last one was short.
abbrev Counted : ℕ → ℕ → ℕ → ℕ → ℕ → Type 0
Counted size max batches rows last_size =
    (batches ≤ max)
    × (((rows ≡ batches * size) × (batches ≡ max) × (last_size ≡ size))
        ⊎ ((last_size < size) × (rows + size ≡ batches * size + last_size)))

-- What a step of at least one batch reports: the rows are within its bounds, and the limit was
-- reached exactly if all of its batches were full.
pub record IsBounded (config : RetentionConfig) (r : StepResult) : Type 0 where
  pub batches_bound : r.batches ≤ config.max_batches_per_step
  pub rows_bound : r.rows ≤ config.max_batches_per_step * config.batch_size
  pub limit_iff :
      (r.limit_reached ≡ true) ↔ (r.rows ≡ config.max_batches_per_step * config.batch_size)

Counted-IsBounded :
    (config : RetentionConfig) (batches rows last_size : ℕ)
    → Counted config.batch_size config.max_batches_per_step batches rows last_size
    → IsBounded config (record {
      batches = batches;
      rows = rows;
      limit_reached = batches == config.max_batches_per_step && last_size == config.batch_size;
    })
Counted-IsBounded config batches rows last_size (few, inl (full, all, last)) = ground arith
Counted-IsBounded config batches rows last_size (few, inr (short, count)) =
    let fewer : batches * config.batch_size ≤ config.max_batches_per_step * config.batch_size =
      grind arith in
    record {
      batches_bound = few;
      rows_bound = omega arith;
      limit_iff = (λ h. ground arith, λ h. absurd (omega arith));
    }

module _ (db : RetentionConnection) where
  open db use {
    Conn, in_transaction, begin_transaction, commit, rollback, select, mutate, select_limit,
    commit_ends, get_lock, release_lock, set_lock_wait, boundaries,
  }

  pub throw-ne-ok :
      {A : Type 0} (e : RunnerError) (a : A) (c d : Conn)
      → ◌≡◌ {A = Result RunnerError A × Conn} (throw e, c) (ok a, d)
      → ⊥
  throw-ne-ok {A} e a c d h = no (ap (λ x. x.0) h)
    where
      no : ◌≡◌ {A = Result RunnerError A} (throw e) (ok a) → ⊥
      no same = cc

  pub ok_injective :
      {A : Type 0} {a b : A} (c d : Conn)
      → ◌≡◌ {A = Result RunnerError A × Conn} (ok a, c) (ok b, d)
      → a ≡ b
  ok_injective {A} {a} {b} c d h = inner (ap (λ x. x.0) h)
    where
      inner : ◌≡◌ {A = Result RunnerError A} (ok a) (ok b) → a ≡ b
      inner same = cc

  full_batch : (n size : ℕ) → n ≤ size → ltb n size ≡ false → n ≡ size
  full_batch n size le long = ground arith

  pub bind_value :
      {A B : Type 0} (x : Result RunnerError A × Conn) (f : A → Query db B) (c d : Conn) {b : B}
      → ◌>>=◌ db (λ s. x) f c ≡ (ok b, d)
      → (a : A) × (e : Conn) × (x ≡ (ok a, e)) × (f a e ≡ (ok b, d))
  bind_value (throw e, e') f c d h = absurd (throw-ne-ok e _ e' d h)
  bind_value (ok a, e) f c d h = (a, e, refl, h)

  -- A sequence that returned has returned from its first call.
  pub bind-eq-ok :
      {A B : Type 0} (m : Query db A) (f : A → Query db B) (c d : Conn) {b : B}
      → ◌>>=◌ db m f c ≡ (ok b, d)
      → (a : A) × (e : Conn) × (m c ≡ (ok a, e)) × (f a e ≡ (ok b, d))
  bind-eq-ok m f c d h = bind_value (m c) f c d h

  -- A batch that never takes more than `size` rows.
  abbrev pub Respects : ℕ → Query db ℕ → Type 0
  Respects size batch = (c d : Conn) (n : ℕ) → batch c ≡ (ok n, d) → n ≤ size

  run_batches-Counted :
      (batch : Query db ℕ) (size : ℕ)
      → Respects size batch
      → (left batches rows : ℕ) (c d : Conn) (b r l : ℕ) → rows ≡ batches * size
      → run_batches db batch size left batches rows size c ≡ (ok (b, r, l), d)
      → Counted size (batches + left) b r l
  unfolding run_batches
  run_batches-Counted batch size small zero batches rows c d b r l full h =
      let e = ok_injective c d h in
      let sb : batches ≡ b = ap (λ x. x.0) e in
      let sr : rows ≡ r = ap (λ x. x.1) e in
      let sl : size ≡ l = ap (λ x. x.2) e in
      (omega arith, inl (rw (← sb, ← sr) full, omega arith, sym sl))
  run_batches-Counted batch size small (suc left) batches rows c d b r l full h =
      let (n, d', returned, later) = bind-eq-ok batch _ c d h in
      elim (Bool-cases (ltb n size)) [
        | inl short ↦
            let e = ok_injective d' d (rw short at later) in
            let sb : suc batches ≡ b = ap (λ x. x.0) e in
            let sr : rows + n ≡ r = ap (λ x. x.1) e in
            let sl : n ≡ l = ap (λ x. x.2) e in
            let lt = ltb→lt n size short in
            (omega arith, inr (omega arith, rw (← sb, ← sr, ← sl) (omega arith)))
        | inr long ↦
            let same : n ≡ size = full_batch n size (small c d' n returned) long in
            let (few, rest) =
              run_batches-Counted batch size small left (suc batches) (rows + size) d' d b r l
                (omega arith) (rw (long, same) at later) in
            (omega arith, elim rest [ inl (a, b', c') ↦ inl (a, omega arith, c') | inr x ↦ inr x ])
      ]

  -- The first batch is always run, so what the loop starts from as its last size is not read.
  run_batches-start :
      (batch : Query db ℕ) (size left last last' : ℕ) (c : Conn)
      → run_batches db batch size (suc left) 0 0 last c
        ≡ run_batches db batch size (suc left) 0 0 last' c
  unfolding run_batches
  run_batches-start batch size left last last' c = refl

  started :
      (batch : Query db ℕ) (size max : ℕ) (c d : Conn) (b r l : ℕ)
      → Respects size batch
      → 1 ≤ max
      → run_batches db batch size max 0 0 0 c ≡ (ok (b, r, l), d)
      → Counted size max b r l
  started batch size zero c d b r l small pos h = absurd (omega arith)
  started batch size (suc left) c d b r l small pos h =
      let (few, rest) =
        run_batches-Counted batch size small (suc left) 0 0 c d b r l (omega arith)
          (run_batches-start batch size left size 0 c ∙ h) in
      (omega arith, elim rest [ inl (x, y, z) ↦ inl (x, omega arith, z) | inr x ↦ inr x ])

  pub run_step-IsBounded :
      (batch : Query db ℕ) (config : RetentionConfig) (c d : Conn) (r : StepResult)
      → Respects config.batch_size batch
      → 1 ≤ config.max_batches_per_step
      → run_step db batch config c ≡ (ok r, d)
      → IsBounded config r
  unfolding run_step
  run_step-IsBounded batch config c d r small pos h =
      let ((b, n, l), e, looped, same) =
        bind-eq-ok (run_batches db batch config.batch_size config.max_batches_per_step 0 0 0) _ c d
          h in
      rw (← ok_injective e d same) (
        Counted-IsBounded config b n l
          (started batch config.batch_size config.max_batches_per_step c e b n l small pos looped))

  caught-eq-ok :
      {A : Type 0} (handler : Query db (Unit {0})) (x : Result RunnerError A × Conn) (d : Conn)
      {a : A}
      → caught db handler x ≡ (ok a, d)
      → x ≡ (ok a, d)
  caught-eq-ok handler (ok b, e) d h = h
  caught-eq-ok {A} handler (throw problem, e) d {a} h =
      let (u, e', handled, failed) =
        bind_value (handler e) (λ (u : Unit {0}). fail db {A = A} problem) e d h in
      absurd (throw-ne-ok problem a e' d failed)

  committed :
      (c d : Conn) (k n : ℕ)
      → ◌>>=◌ db commit (λ u. pure db k) c ≡ (ok n, d)
      → (k ≡ n) × (in_transaction d ≡ false)
  committed c d k n h =
      let (u, e, done, same) = bind-eq-ok commit (λ u. pure db k) c d h in
      (ok_injective e d same, rw (← ap (λ x. x.1) same) (commit_ends c u e done))

  mutate_candidates-closed :
      (s : Statement) (limit : ℕ) (c d : Conn) (n : ℕ)
      → mutate_candidates db s limit c ≡ (ok n, d)
      → (n ≤ limit) × (in_transaction d ≡ false)
  unfolding mutate_candidates
  mutate_candidates-closed s limit c d n h =
      let (ids, e, selected, h1) = bind-eq-ok (select s limit) _ c d h in
      let few = select_limit s limit c ids e selected in
      elim (Bool-cases (is_empty ids)) [
        | inl empty ↦
            let (same, closed) = committed e d 0 n (rw empty at h1) in (omega arith, closed)
        | inr some_rows ↦
            let (k, e', mutated, h2) = bind-eq-ok (mutate s ids) _ e d (rw some_rows at h1) in
            elim (Bool-cases (k == length ids)) [
              | inl all ↦
                  let (same, closed) = committed e' d k n (rw all at h2) in
                  let count : k ≡ length ids = (==_iff k (length ids)).0 all in
                  (omega arith, closed)
              | inr partial ↦ absurd (throw-ne-ok _ n e' d (rw partial at h2))
            ]
      ]

  -- What one transaction has done when it returns: it took no more rows than the limit, and it is
  -- closed.
  pub mutate_locked_candidates-closed :
      (s : Statement) (limit : ℕ) (c d : Conn) (n : ℕ)
      → mutate_locked_candidates db s limit c ≡ (ok n, d)
      → (n ≤ limit) × (in_transaction d ≡ false)
  unfolding mutate_locked_candidates
  mutate_locked_candidates-closed s limit c d n h =
      let (u, e, begun, h1) = bind-eq-ok begin_transaction _ c d h in
      mutate_candidates-closed s limit e d n
        (caught-eq-ok rollback (mutate_candidates db s limit e) d h1)
