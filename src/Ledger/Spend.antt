-- ===== src/Ledger/Spend.antt =====
-- orchestrator/task_runner.py: the tokens that the attempts at a task leave in its row.
use agi_inspired.Prelude.{ℕ, ◌+◌, Option, none, some, List, [], ◌∷◌, or_else, ◌≡◌}
use agi_inspired.Prelude.Text.{Text}
use agi_inspired.Ledger.Rows.{Task, Ledger, find_row}
use agi_inspired.Ledger.Store.{start_task, Outcome, finish_task, accumulated_tokens}

-- One attempt: what `start_task` and `finish_task` are called with. `usage` is what the worker reported;
-- it is `none` where the attempt ends by a call that leaves the tokens out, as after a timeout.
pub record Attempt : Type 0 where
  pub started_at : ℕ
  pub finished_at : ℕ
  pub owner_pid : ℕ
  pub identity : Option Text
  pub model : Text
  pub usage : Option (Option ℕ × Option ℕ)
  pub outcome : Outcome

-- The arguments for the tokens, from the row as it was read before the attempt.
unfoldable pub with_tokens : Option (Option ℕ × Option ℕ) → Task → Outcome → Outcome
unfolding accumulated_tokens
with_tokens none t o = record o { tokens_in = none; tokens_out = none }
with_tokens (some (i, j)) t o =
    let (tok_in, tok_out) = accumulated_tokens i j t.tokens_in t.tokens_out in
    record o { tokens_in = some tok_in; tokens_out = some tok_out }

unfoldable pub attempted : ℕ → Attempt → Ledger → Option Task → Ledger
unfolding start_task finish_task with_tokens
attempted id a l none = l
attempted id a l (some row) =
    finish_task a.finished_at id (with_tokens a.usage row a.outcome)
      (start_task a.started_at a.owner_pid a.identity id a.model l)

-- An attempt at a task, with the row as it was read before: `_run_research_task` calls `start_task`, and
-- `_record_outcome`, or a call that ends the attempt early, `finish_task`. Without a row there is none.
unfoldable pub attempt : ℕ → Attempt → Ledger → Ledger
unfolding attempted find_row
attempt id a l = attempted id a l (find_row id l.tasks)

unfoldable pub attempts : ℕ → List Attempt → Ledger → Ledger
unfolding attempt
attempts id [] l = l
attempts id (a ∷ rest) l = attempts id rest (attempt id a l)

-- The tokens that an attempt's worker reported.
abbrev pub used_in : Attempt → ℕ
used_in a = elim a.usage [ none ↦ 0 | some (i, j) ↦ or_else i 0 ]

abbrev pub used_out : Attempt → ℕ
used_out a = elim a.usage [ none ↦ 0 | some (i, j) ↦ or_else j 0 ]

abbrev pub sum_of : (Attempt → ℕ) → List Attempt → ℕ
sum_of f [] = 0
sum_of f (a ∷ rest) = f a + sum_of f rest

-- A row with the tokens of another and more.
abbrev pub Spends : Option Task → Task → ℕ → ℕ → Type 0
Spends o t i j =
    (t' : Task) × (o ≡ some t')
    × (or_else t'.tokens_in 0 ≡ or_else t.tokens_in 0 + i)
    × (or_else t'.tokens_out 0 ≡ or_else t.tokens_out 0 + j)
