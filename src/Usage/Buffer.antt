-- ===== src/Usage/Buffer.antt =====
-- The usage buffer of backend/service/usage.py: the end of `record_call`, `flush_usage_buffer` and
-- `_requeue_failed_rows`. A row is its columns, of any type, with the count of failed flushes. `lost`
-- holds the rows that the code drops and logs. What is recorded while a flush waits for the database
-- is an argument.
use engineering_memory_agent.Common.{
  Bool, true, false, ℕ, suc, ◌+◌, List, [], ◌∷◌, ◌++◌, map, length, leb, ltb, if◌then◌else◌,
}

abbrev pub flush_max_attempts : ℕ
flush_max_attempts = 5

pub record Observation {ℓ} (A : Type ℓ) : Type ℓ where
  pub columns : A
  pub flush_attempts : ℕ

pub record UsageState {ℓ} (A : Type ℓ) : Type ℓ where
  pub pending : List (Observation A)
  pub table : List A
  pub lost : List A
  pub consecutive_failures : ℕ

-- How the INSERT ends. It may fail or be cancelled when the database has committed the rows already,
-- which the Boolean says.
pub data Insert : Type 0 where
  committed : Insert
  failed cancelled : Bool → Insert

module _ {ℓ} {A : Type ℓ} where
  abbrev pub fresh_row : A → Observation A
  fresh_row a = record { columns = a; flush_attempts = 0 }

  abbrev pub columns_of : List (Observation A) → List A
  columns_of rows = map (λ (r : Observation A). r.columns) rows

  -- The last step of `record_call`: a full buffer gives up its oldest row. Where the buffer is full
  -- and empty, `pop` raises, and the row is not appended.
  unfoldable pub drop_oldest : A → UsageState A → List (Observation A) → UsageState A
  drop_oldest a s [] = record s { pending = []; lost = a ∷ s.lost }
  drop_oldest a s (r ∷ rows) = record s {
    pending = rows ++ (fresh_row a ∷ []);
    lost = r.columns ∷ s.lost;
  }

  unfoldable pub record_call : ℕ → A → UsageState A → UsageState A
  unfolding drop_oldest
  record_call buffer_max a s =
      if leb buffer_max (length s.pending)
      then drop_oldest a s s.pending
      else record s { pending = s.pending ++ (fresh_row a ∷ []) }

  unfoldable pub record_calls : ℕ → List A → UsageState A → UsageState A
  unfolding record_call
  record_calls buffer_max [] s = s
  record_calls buffer_max (a ∷ later) s = record_calls buffer_max later (record_call buffer_max a s)

  -- `_requeue_failed_rows`: the rows that are kept, counted up, and the columns of those dropped.
  unfoldable pub retained : List (Observation A) → List (Observation A)
  retained [] = []
  retained (r ∷ rows) =
      let rest = retained rows in
      if ltb (r.flush_attempts + 1) flush_max_attempts
      then record r { flush_attempts = r.flush_attempts + 1 } ∷ rest
      else rest

  unfoldable pub given_up : List (Observation A) → List A
  given_up [] = []
  given_up (r ∷ rows) =
      let rest = given_up rows in
      if ltb (r.flush_attempts + 1) flush_max_attempts then rest else r.columns ∷ rest

  unfoldable pub requeue_failed_rows : List (Observation A) → UsageState A → UsageState A
  unfolding retained given_up
  requeue_failed_rows rows s = record s {
    pending = retained rows ++ s.pending;
    lost = given_up rows ++ s.lost;
  }

  -- The table after an INSERT of rows that the database has committed or not.
  abbrev pub stored_if : Bool → List (Observation A) → UsageState A → UsageState A
  stored_if true rows s = record s { table = s.table ++ columns_of rows }
  stored_if false rows s = s

  abbrev pub fail_counted : UsageState A → UsageState A
  fail_counted s = record s { consecutive_failures = suc s.consecutive_failures }

  -- What follows the INSERT of the drained rows.
  unfoldable pub after_insert : Insert → List (Observation A) → UsageState A → UsageState A
  unfolding requeue_failed_rows
  after_insert committed rows s = record s {
    table = s.table ++ columns_of rows;
    consecutive_failures = 0;
  }
  after_insert (failed stored) rows s =
      requeue_failed_rows rows (fail_counted (stored_if stored rows s))
  after_insert (cancelled stored) rows s =
      requeue_failed_rows rows (fail_counted (stored_if stored rows s))

  -- `flush_usage_buffer`, with the rows recorded while it waits.
  unfoldable pub flush_usage_buffer : ℕ → List A → Insert → UsageState A → UsageState A
  unfolding record_calls after_insert
  flush_usage_buffer buffer_max meanwhile insert s =
      let drained = record_calls buffer_max meanwhile (record s { pending = [] }) in
      if leb 1 (length s.pending)
      then after_insert insert s.pending drained
      else record_calls buffer_max meanwhile s

-- What happens to the buffer, one after the other.
pub data UsageStep {ℓ} (A : Type ℓ) : Type ℓ where
  recorded : A → UsageStep A
  flushed : List A → Insert → UsageStep A

module _ {ℓ} {A : Type ℓ} where
  unfoldable pub usage_step : ℕ → UsageStep A → UsageState A → UsageState A
  unfolding record_call flush_usage_buffer
  usage_step buffer_max (recorded a) s = record_call buffer_max a s
  usage_step buffer_max (flushed meanwhile insert) s =
      flush_usage_buffer buffer_max meanwhile insert s

  unfoldable pub usage_run : ℕ → List (UsageStep A) → UsageState A → UsageState A
  unfolding usage_step
  usage_run buffer_max [] s = s
  usage_run buffer_max (x ∷ xs) s = usage_run buffer_max xs (usage_step buffer_max x s)
