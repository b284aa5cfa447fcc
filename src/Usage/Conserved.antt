-- ===== src/Usage/Conserved.antt =====
-- What becomes of the rows of the usage buffer in backend/service/usage.py.
use engineering_memory_agent.Common.{
  true, false, List-cases, ℕ, suc, ◌+◌, ◌≡◌, refl, ap, ◌∙◌, inl, inr, arith, Bool, List, [], ◌∷◌,
  ◌++◌, length, leb, ltb, if◌then◌else◌, Bool-cases,
}
use engineering_memory_agent.Usage.Buffer.{
  Observation, UsageState, Insert, committed, failed, cancelled, fresh_row, columns_of, drop_oldest,
  record_call, record_calls, retained, given_up, requeue_failed_rows, after_insert,
  flush_usage_buffer, UsageStep, recorded, flushed, usage_step, usage_run, flush_max_attempts,
  stored_if, fail_counted,
}

-- How many elements pass a test.
abbrev pub count {ℓ} : {A : Type ℓ} → (A → Bool) → List A → ℕ
count p [] = 0
count p (x ∷ xs) = if p x then suc (count p xs) else count p xs

module _ {A : Type 0} (p : A → Bool) where
  count-append : (xs ys : List A) → count p (xs ++ ys) ≡ count p xs + count p ys
  count-append [] ys = omega arith
  count-append (x ∷ xs) ys = elim (Bool-cases (p x)) [
    | inl e ↦ rw e (omega (arith, count-append xs ys))
    | inr e ↦ rw e (count-append xs ys)
  ]

  columns_of-append :
      (xs ys : List (Observation A)) → columns_of (xs ++ ys) ≡ columns_of xs ++ columns_of ys
  columns_of-append [] ys = refl
  columns_of-append (x ∷ xs) ys = ap (λ l. x.columns ∷ l) (columns_of-append xs ys)

  -- The rows in the table, in the buffer, and dropped.
  abbrev pub held : UsageState A → ℕ
  held s = count p s.table + count p (columns_of s.pending) + count p s.lost

  retained_or_given_up :
      (rows : List (Observation A))
      → count p (columns_of (retained rows)) + count p (given_up rows) ≡ count p (columns_of rows)
  unfolding retained given_up
  retained_or_given_up [] = omega arith
  retained_or_given_up (r ∷ rows) =
      elim (Bool-cases (ltb (r.flush_attempts + 1) flush_max_attempts)) [
        | inl e ↦ elim (Bool-cases (p r.columns)) [
          | inl f ↦ rw (e, f) (omega (arith, retained_or_given_up rows))
          | inr f ↦ rw (e, f) (retained_or_given_up rows)
        ]
        | inr e ↦ elim (Bool-cases (p r.columns)) [
          | inl f ↦ rw (e, f) (omega (arith, retained_or_given_up rows))
          | inr f ↦ rw (e, f) (retained_or_given_up rows)
        ]
      ]

  count_columns :
      (xs ys : List (Observation A))
      → count p (columns_of (xs ++ ys)) ≡ count p (columns_of xs) + count p (columns_of ys)
  count_columns xs ys =
      ap (count p) (columns_of-append xs ys) ∙ count-append (columns_of xs) (columns_of ys)

  count_cons : (a : A) (xs : List A) → count p (a ∷ xs) ≡ count p (a ∷ []) + count p xs
  count_cons a xs = elim (Bool-cases (p a)) [
    | inl e ↦ rw e (omega arith)
    | inr e ↦ rw e (omega arith)
  ]

  held-drop_oldest :
      (a : A) (s : UsageState A) (rows : List (Observation A))
      → held (drop_oldest a s rows)
        ≡ count p s.table + count p (columns_of rows) + count p s.lost + count p (a ∷ [])
  unfolding drop_oldest
  held-drop_oldest a s [] =
      let e : held (drop_oldest a s []) ≡ count p s.table + 0 + count p (a ∷ s.lost) = refl in
      e ∙ omega (arith, count_cons a s.lost)
  held-drop_oldest a s (r ∷ rows) =
      let e : held (drop_oldest a s (r ∷ rows))
          ≡ count p s.table
            + count p (columns_of (rows ++ (fresh_row a ∷ [])))
            + count p (r.columns ∷ s.lost) =
        refl in
      e
      ∙ omega (
        arith,
        count_columns rows (fresh_row a ∷ []),
        count_cons r.columns s.lost,
        count_cons r.columns (columns_of rows),
      )

  held-record_call :
      (buffer_max : ℕ) (a : A) (s : UsageState A)
      → held (record_call buffer_max a s) ≡ held s + count p (a ∷ [])
  unfolding record_call
  held-record_call buffer_max a s = elim (Bool-cases (leb buffer_max (length s.pending))) [
    | inl e ↦ rw e (held-drop_oldest a s s.pending)
    | inr e ↦ rw e (omega (arith, count_columns s.pending (fresh_row a ∷ [])))
  ]

  held-record_calls :
      (buffer_max : ℕ) (xs : List A) (s : UsageState A)
      → held (record_calls buffer_max xs s) ≡ held s + count p xs
  unfolding record_calls
  held-record_calls buffer_max [] s = omega arith
  held-record_calls buffer_max (a ∷ xs) s =
      held-record_calls buffer_max xs (record_call buffer_max a s)
      ∙ omega (arith, held-record_call buffer_max a s, count_cons a xs)

  held-requeue :
      (rows : List (Observation A)) (s : UsageState A)
      → held (requeue_failed_rows rows s) ≡ held s + count p (columns_of rows)
  unfolding requeue_failed_rows
  held-requeue rows s = omega (
    arith,
    count_columns (retained rows) s.pending,
    count-append (given_up rows) s.lost,
    retained_or_given_up rows,
  )

  -- The rows that an INSERT stored without reporting it.
  abbrev unreported_if : Bool → ℕ → ℕ
  unreported_if true n = n
  unreported_if false n = 0

  abbrev pub unreported : Insert → ℕ → ℕ
  unreported committed n = 0
  unreported (failed stored) n = unreported_if stored n
  unreported (cancelled stored) n = unreported_if stored n

  held-stored_if :
      (stored : Bool) (rows : List (Observation A)) (s : UsageState A)
      → held (fail_counted (stored_if stored rows s))
        ≡ held s + unreported_if stored (count p (columns_of rows))
  held-stored_if true rows s = omega (arith, count-append s.table (columns_of rows))
  held-stored_if false rows s = omega arith

  held-after_insert :
      (x : Insert) (rows : List (Observation A)) (s : UsageState A)
      → held (after_insert x rows s)
        ≡ held s + count p (columns_of rows) + unreported x (count p (columns_of rows))
  unfolding after_insert
  held-after_insert committed rows s = omega (arith, count-append s.table (columns_of rows))
  held-after_insert (failed stored) rows s =
      held-requeue rows (fail_counted (stored_if stored rows s))
      ∙ omega (arith, held-stored_if stored rows s)
  held-after_insert (cancelled stored) rows s =
      held-requeue rows (fail_counted (stored_if stored rows s))
      ∙ omega (arith, held-stored_if stored rows s)

  -- What one flush adds beyond what is recorded: nothing where the buffer is empty.
  abbrev pub flush_doubled : Insert → UsageState A → ℕ
  flush_doubled x s = unreported x (count p (columns_of s.pending))

  unreported_none : (x : Insert) → unreported x 0 ≡ 0
  unreported_none committed = refl
  unreported_none (failed true) = refl
  unreported_none (failed false) = refl
  unreported_none (cancelled true) = refl
  unreported_none (cancelled false) = refl

  flush_empty :
      (x : Insert) (s : UsageState A) → leb 1 (length s.pending) ≡ false → flush_doubled x s ≡ 0
  flush_empty x s e = elim (List-cases s.pending) [
    | inl n ↦
        ap (λ (l : List (Observation A)). unreported x (count p (columns_of l))) n
        ∙ unreported_none x
    | inr (r, rows, n) ↦ absurd (ground (arith, ap length n))
  ]

  held-flush :
      (buffer_max : ℕ) (xs : List A) (x : Insert) (s : UsageState A)
      → held (flush_usage_buffer buffer_max xs x s) ≡ held s + count p xs + flush_doubled x s
  unfolding flush_usage_buffer
  held-flush buffer_max xs x s = elim (Bool-cases (leb 1 (length s.pending))) [
    | inl e ↦
        let emptied = record s { pending = [] } in
        rw e (
          held-after_insert x s.pending (record_calls buffer_max xs emptied)
          ∙ omega (arith, held-record_calls buffer_max xs emptied))
    | inr e ↦ rw e (omega (arith, held-record_calls buffer_max xs s, flush_empty x s e))
  ]

  -- What a run records.
  abbrev pub all_recorded : List (UsageStep A) → ℕ
  all_recorded [] = 0
  all_recorded (recorded a ∷ xs) = count p (a ∷ []) + all_recorded xs
  all_recorded (flushed meanwhile x ∷ xs) = count p meanwhile + all_recorded xs

  -- What the INSERTs of a run store without reporting it.
  abbrev pub all_doubled : ℕ → List (UsageStep A) → UsageState A → ℕ
  all_doubled buffer_max [] s = 0
  all_doubled buffer_max (recorded a ∷ xs) s =
      all_doubled buffer_max xs (record_call buffer_max a s)
  all_doubled buffer_max (flushed meanwhile x ∷ xs) s =
      flush_doubled x s + all_doubled buffer_max xs (flush_usage_buffer buffer_max meanwhile x s)

  -- In any run of recorded calls and flushes, whatever is recorded while a flush waits and however its
  -- INSERT ends, each row recorded, told apart by any test, is in the table, in the buffer or among
  -- those dropped and logged: once, and once more for each INSERT of it that the database committed
  -- although the code saw it fail or be cancelled, since those rows are put back.
  pub usage_run-held :
      (buffer_max : ℕ) (xs : List (UsageStep A)) (s : UsageState A)
      → held (usage_run buffer_max xs s) ≡ held s + all_recorded xs + all_doubled buffer_max xs s
  unfolding usage_run usage_step
  usage_run-held buffer_max [] s = omega arith
  usage_run-held buffer_max (recorded a ∷ xs) s =
      usage_run-held buffer_max xs (record_call buffer_max a s)
      ∙ omega (arith, held-record_call buffer_max a s)
  usage_run-held buffer_max (flushed meanwhile x ∷ xs) s =
      usage_run-held buffer_max xs (flush_usage_buffer buffer_max meanwhile x s)
      ∙ omega (arith, held-flush buffer_max meanwhile x s)
