-- ===== src/Ledger/Rows.antt =====
-- The rows of the table `tasks` (ledger/schema.sql), its statuses, and the SQL that the operations
-- of orchestrator/ledger.py and orchestrator/scheduler.py share. A column that may be NULL is an
-- `Option`; a time is a number of seconds.
use agi_inspired.Prelude.{
  ℕ, zero, suc, ◌+◌, ◌/◌, ◌%◌, Bool, true, false, Option, none, some, List, [], ◌∷◌, ◌++◌, ltb,
  ◌==◌, if◌then◌else◌, ◌≡◌, refl,
}
use agi_inspired.Prelude.Text.{Text, codes}
use mathlib.Core.List.{reverse}

pub data Status : Type 0 where
  queued running quota_wait interrupted infra_failed done failed stale blocked : Status

pub data Verdict : Type 0 where
  pass fail : Verdict

-- The JSON text in `intervention_types`: NULL, a text that is no JSON list, or a list of kinds.
pub data Kinds : Type 0 where
  null unreadable : Kinds
  kinds : List Text → Kinds

pub record Task : Type 0 where
  pub task_id : ℕ
  pub mission_id : Text
  pub spec : Text
  pub pass_criteria : Text
  pub status : Status
  pub started_at : Option ℕ
  pub finished_at : Option ℕ
  pub model_used : Option Text
  pub tokens_in : Option ℕ
  pub tokens_out : Option ℕ
  pub cost_usd : Option ℕ
  pub artifacts : List Text
  pub critic_verdict : Option Verdict
  pub critic_notes : Option Text
  pub human_verdict : Option Verdict
  pub interventions : Option ℕ
  pub intervention_types : Kinds
  pub run_id : Option Text
  pub lease_expires_at : Option ℕ
  pub attempt_count : Option ℕ
  pub owner_pid : Option ℕ
  pub owner_process_start_id : Option Text

-- The database: the rows in the order of their ids, the next id of the AUTOINCREMENT key, and
-- whether the columns of the owner's identity are there.
pub record Ledger : Type 0 where
  pub tasks : List Task
  pub next_id : ℕ
  pub owner_columns : Bool

-- TERMINAL_STATUSES
unfoldable pub is_terminal_status : Status → Bool
is_terminal_status done = true
is_terminal_status failed = true
is_terminal_status infra_failed = true
is_terminal_status _ = false

-- PENDING_STATUSES
unfoldable pub is_pending_status : Status → Bool
is_pending_status queued = true
is_pending_status quota_wait = true
is_pending_status running = true
is_pending_status interrupted = true
is_pending_status blocked = true
is_pending_status _ = false

-- `UPDATE tasks SET ... WHERE task_id=?`
unfoldable pub update_row : ℕ → (Task → Task) → List Task → List Task
update_row id f [] = []
update_row id f (t ∷ ts) = (if t.task_id == id then f t else t) ∷ update_row id f ts

-- `SELECT ... FROM tasks WHERE task_id=?`
unfoldable pub find_row : ℕ → List Task → Option Task
find_row id [] = none
find_row id (t ∷ ts) = if t.task_id == id then some t else find_row id ts

-- `COALESCE(new, old)`
unfoldable pub coalesce {ℓ} : {A : Type ℓ} → Option A → Option A → Option A
coalesce none old = old
coalesce (some a) old = some a

trim_left : Text → Text
trim_left [] = []
trim_left (c ∷ t) = let rest = trim_left t in if c == 32 then rest else c ∷ t

-- SQLite's `TRIM`, which removes spaces only.
unfoldable pub sql_trim : Text → Text
unfolding trim_left
sql_trim t = reverse (trim_left (reverse (trim_left t)))

-- Decimal digits on fuel; a number has fewer digits than its successor's count.
digits_of : ℕ → ℕ → Text
digits_of zero n = []
digits_of (suc fuel) n =
    let more = digits_of fuel (n / 10) in
    if ltb n 10 then (n + 48) ∷ [] else more ++ (n % 10 + 48) ∷ []

-- A number as text, as `||` and f-strings write it.
unfoldable pub show_number : ℕ → Text
unfolding digits_of
show_number n = digits_of (suc n) n

show_number_test : show_number 1205 ≡ codes "1205"
unfolding show_number
show_number_test = refl
