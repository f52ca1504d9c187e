-- ===== src/Ledger/Writes.antt =====
-- What the writes of orchestrator/ledger.py do to the rows: keys stay unique, other rows stay as they
-- are, and a retry never loses what an earlier attempt recorded.
use agi_inspired.Prelude.{
  ℕ, ◌+◌, ◌≡◌, ◌≢◌, true, false, Option, none, some, List, [], ◌∷◌, ◌++◌, length, length-append,
  or_else, Option-cases, Bool-cases, ◌∙◌, inl, inr, refl, arith,
}
use agi_inspired.Prelude.Text.{Text}
use agi_inspired.Ledger.Rows.{
  Task, Ledger, kinds, is_terminal_status, update_row, find_row, coalesce,
}
use agi_inspired.Ledger.Store.{
  new_row, queue_task, started, start_task, Outcome, coalesce_kinds, finished, finish_task,
  read_kinds, intervened, record_intervention, update_model_used,
}
use agi_inspired.Ledger.Keys.{
  IsKeyed, KeepsId, update_row-Keyed, append-Keyed, find_row-update_row, find_row-append,
  find_row-fresh, find_row-update_self,
}

finished-KeepsId : (now : ℕ) (o : Outcome) → KeepsId (finished now o)
unfolding finished
finished-KeepsId now o t = refl

-- `queue_task` hands out a key that no row has, appends one queued row with the given mission, spec
-- and criteria and with this process's run id, and leaves every other row; keys stay unique.
queue_task_lem :
    (run_id mission spec criteria : Text) (l : Ledger)
    → IsKeyed l
    → let (l', id) = queue_task run_id mission spec criteria l in
      IsKeyed l'
      × (find_row id l.tasks ≡ none)
      × (find_row id l'.tasks ≡ some (new_row run_id id mission spec criteria))
      × ((j : ℕ) → j ≢ id → find_row j l'.tasks ≡ find_row j l.tasks)
unfolding queue_task
queue_task_lem run_id mission spec criteria l h =
    let row = new_row run_id l.next_id mission spec criteria in
    let fresh = find_row-fresh 0 l.next_id l.next_id l.tasks h (omega arith) in
    (
      append-Keyed 0 l.next_id l.tasks row refl h,
      fresh,
      rw (find_row-append l.next_id l.tasks (row ∷ []), fresh) (unfold find_row in ground arith),
      λ j ne. rw (find_row-append j l.tasks (row ∷ [])) (unfold find_row in ground arith),
    )

-- The kinds of a row after one more intervention.
abbrev more_kinds : Task → Text → List Text
more_kinds t kind = read_kinds t.intervention_types ++ kind ∷ []

intervention_missing :
    (id : ℕ) (kind : Text) (l : Ledger)
    → find_row id l.tasks ≡ none
    → record_intervention id kind l ≡ (l, 0)
unfolding record_intervention
intervention_missing id kind l h = ground arith

intervention_found :
    (id : ℕ) (kind : Text) (l : Ledger) (t : Task)
    → find_row id l.tasks ≡ some t
    → record_intervention id kind l ≡ (
      record l { tasks = update_row id (intervened (more_kinds t kind)) l.tasks },
      length (more_kinds t kind),
    )
unfolding record_intervention
intervention_found id kind l t h = ground arith

-- The same keys, and every row but one as it was.
abbrev pub Frame : ℕ → Ledger → Ledger → Type 0
Frame id l l' = IsKeyed l' × ((j : ℕ) → j ≢ id → find_row j l'.tasks ≡ find_row j l.tasks)

update_row-Frame :
    (id : ℕ) (f : Task → Task) (l : Ledger)
    → KeepsId f
    → IsKeyed l
    → Frame id l (record l { tasks = update_row id f l.tasks })
update_row-Frame id f l k h = (
  update_row-Keyed id f 0 l.next_id l.tasks k h,
  λ j ne. ground (arith, find_row-update_row id j f l.tasks k),
)

start_task-Frame :
    (now pid id : ℕ) (identity : Option Text) (model : Text) (l : Ledger)
    → IsKeyed l
    → Frame id l (start_task now pid identity id model l)
unfolding start_task
start_task-Frame now pid id identity model l h = elim (Bool-cases l.owner_columns) [
  | inl e ↦ simp e (
      update_row-Frame id
        (λ t. record (started now model t) {
          owner_pid = some pid;
          owner_process_start_id = identity;
        })
        l (λ t. refl) h)
  | inr e ↦ simp e (update_row-Frame id (started now model) l (λ t. refl) h)
]

-- `start_task`, `finish_task`, `record_intervention` and `update_model_used` keep the keys unique and
-- leave every row but the one that they name.
pub writes-Frame :
    (l : Ledger) (now pid id : ℕ) (identity : Option Text) (model kind : Text) (o : Outcome)
    → IsKeyed l
    → Frame id l (start_task now pid identity id model l)
      × Frame id l (finish_task now id o l)
      × Frame id l (record_intervention id kind l).0
      × Frame id l (update_model_used id model l)
writes-Frame l now pid id identity model kind o h = (
  start_task-Frame now pid id identity model l h,
  unfold finish_task in update_row-Frame id (finished now o) l (finished-KeepsId now o) h,
  elim (Option-cases (find_row id l.tasks)) [
    | inl e ↦ rw (intervention_missing id kind l e) (h, λ j ne. refl)
    | inr (t, e) ↦
        rw (intervention_found id kind l t e) (
          update_row-Frame id (intervened (more_kinds t kind)) l (λ u. unfold intervened in refl) h)
  ],
  unfold update_model_used in update_row-Frame id _ l (λ t. refl) h,
)

-- What a task's row keeps of earlier attempts when `finish_task` is called: each argument that is left
-- out keeps its column, and `finished_at` is set exactly by a terminal status.
finish_task_keeps :
    (now id : ℕ) (o : Outcome) (l : Ledger) (t : Task)
    → find_row id l.tasks ≡ some t
    → (t' : Task) × (find_row id (finish_task now id o l).tasks ≡ some t')
      × (t'.status ≡ o.status)
      × (o.tokens_in ≡ none → t'.tokens_in ≡ t.tokens_in)
      × (o.tokens_out ≡ none → t'.tokens_out ≡ t.tokens_out)
      × (o.cost_usd ≡ none → t'.cost_usd ≡ t.cost_usd)
      × (o.critic_verdict ≡ none → t'.critic_verdict ≡ t.critic_verdict)
      × (o.interventions ≡ none → t'.interventions ≡ t.interventions)
      × (o.attempt_count ≡ none → t'.attempt_count ≡ t.attempt_count)
      × (o.intervention_types ≡ [] → t'.intervention_types ≡ t.intervention_types)
      × (is_terminal_status o.status ≡ true → t'.finished_at ≡ some now)
      × (is_terminal_status o.status ≡ false → t'.finished_at ≡ t.finished_at)
unfolding finish_task
finish_task_keeps now id o l t h = (
  finished now o t,
  find_row-update_self id (finished now o) l.tasks t (finished-KeepsId now o) h,
  unfold finished in refl,
  (λ e. unfold finished coalesce in rw e refl),
  (λ e. unfold finished coalesce in rw e refl),
  (λ e. unfold finished coalesce in rw e refl),
  (λ e. unfold finished coalesce in rw e refl),
  (λ e. unfold finished coalesce in rw e refl),
  (λ e. unfold finished coalesce in rw e refl),
  (λ e. unfold finished coalesce_kinds in rw e refl),
  (λ e. unfold finished coalesce in rw e refl),
  λ e. unfold finished coalesce in rw e refl,
)

-- `record_intervention` raises the counter of the task by one, appends the kind to what the column
-- held, a text that is no list counting as none, and returns the new number of kinds; for a task that
-- is not there it returns 0 and writes nothing.
record_intervention_lem :
    (id : ℕ) (kind : Text) (l : Ledger)
    → (find_row id l.tasks ≡ none → record_intervention id kind l ≡ (l, 0))
      × ((t : Task)
          → find_row id l.tasks ≡ some t
          → (find_row id (record_intervention id kind l).0.tasks
              ≡ some (record t {
                interventions = some (or_else t.interventions 0 + 1);
                intervention_types = kinds (read_kinds t.intervention_types ++ kind ∷ []);
              }))
            × ((record_intervention id kind l).1 ≡ length (read_kinds t.intervention_types) + 1))
record_intervention_lem id kind l = (
  intervention_missing id kind l,
  λ t h. rw (intervention_found id kind l t h) (
    find_row-update_self id (intervened (more_kinds t kind)) l.tasks t
          (λ u. unfold intervened in refl) h
        ∙ (unfold intervened in refl),
    length-append (read_kinds t.intervention_types) (kind ∷ []) ∙ omega arith,
  ),
)
