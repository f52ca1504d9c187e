-- ===== src/Scheduler/Fairness.antt =====
-- The order in which `queue_mission_tasks` of orchestrator/scheduler.py returns the tasks, and that it
-- queues no seed twice.
use agi_inspired.Prelude.{
  ℕ, ◌+◌, ◌≡◌, ◌≢◌, ◌≤◌, ◌⊎◌, inl, inr, Bool, true, false, none, some, List, [], ◌∷◌, ◌++◌, map,
  if◌then◌else◌, is_some, All, count, Option-cases, refl, sym, ap, ◌∙◌, arith,
}
use mathlib.Core.List.{append-nil, append_assoc}
use agi_inspired.Prelude.Text.{Text, text_eq_refl}
use agi_inspired.Prelude.Sort.{sort_by, IsSorted, sort_by-IsSorted, All-map, count-sort_by}
use agi_inspired.Ledger.Rows.{queued, Task, Ledger}
use agi_inspired.Ledger.Store.{queue_task, new_row}
use agi_inspired.Scheduler.Queue.{
  is_resumable, find_spec, Queued, runs_before, seed_spec, queue_seeds, queue_mission_tasks,
}

runs_before-total : (a b : Queued) → runs_before a b ≡ false → runs_before b a ≡ true
unfolding runs_before
runs_before-total a b h = ground arith

runs_before_trans :
    (a b c : Queued) → runs_before a b ≡ true → runs_before b c ≡ true → runs_before a c ≡ true
unfolding runs_before
runs_before_trans a b c h k = ground arith

-- The order that fairness asks for: a task that was never attempted stands before every task that
-- was, and ids rise within both groups.
abbrev pub Fair : Queued → Queued → Type 0
Fair a b =
    (a.started_at ≡ none) × (b.started_at ≢ none)
    ⊎ (is_some a.started_at ≡ is_some b.started_at) × (a.task_id ≤ b.task_id)

abbrev pub FairOrder : List Queued → Type 0
FairOrder [] = Unit
FairOrder (r ∷ rs) = All (Fair r) rs × FairOrder rs

runs_before-Fair : (a b : Queued) → runs_before a b ≡ true → Fair a b
unfolding runs_before
runs_before-Fair a b h = elim (Option-cases a.started_at) [
  | inl e ↦ elim (Option-cases b.started_at) [
    | inl f ↦ inr (simp (e, f), ground arith)
    | inr (x, f) ↦ inl (e, λ g. cc)
  ]
  | inr (y, e) ↦ inr (ground arith, ground arith)
]

IsSorted-FairOrder : (rs : List Queued) → IsSorted runs_before rs → FairOrder rs
IsSorted-FairOrder [] h = tt
IsSorted-FairOrder (r ∷ rs) h = (
  All-map (λ q. runs_before r q ≡ true) (Fair r) rs (runs_before-Fair r) h.0,
  IsSorted-FairOrder rs h.1,
)

find_spec-append :
    (mission_id spec : Text) (ts us : List Task)
    → find_spec mission_id spec (ts ++ us) ≡ elim (find_spec mission_id spec ts) [
      | none ↦ find_spec mission_id spec us
      | some t ↦ some t
    ]
unfolding find_spec
find_spec-append m s [] us = refl
find_spec-append m s (t ∷ ts) us = ground (arith, find_spec-append m s ts us)

-- The rows of one ledger, and perhaps more behind them.
abbrev pub Extends : Ledger → Ledger → Type 0
Extends l l' = (more : List Task) × (l'.tasks ≡ l.tasks ++ more)

Extends-find :
    (mission_id spec : Text) (l l' : Ledger) (t : Task)
    → Extends l l'
    → find_spec mission_id spec l.tasks ≡ some t
    → find_spec mission_id spec l'.tasks ≡ some t
Extends-find m s l l' t (more, e) h = rw (e, find_spec-append m s l.tasks more, h)

Extends-trans : (a b c : Ledger) → Extends a b → Extends b c → Extends a c
Extends-trans a b c (m, e) (n, f) = (m ++ n, f ∙ rw (e, append_assoc a.tasks m n))

module _ (run_id week mission_id criteria : Text) where
  -- The tasks to run, in the order in which they are returned.
  abbrev pub ordered : Bool → List Text → Ledger → List Queued
  ordered dry seeds l =
      sort_by runs_before (queue_seeds run_id week mission_id criteria dry 1 seeds l).1

  -- The ids are returned in order: a task that was never attempted stands before every task that was,
  -- and ids rise within both groups. Nothing is lost or doubled by the sorting.
  pub queue_order :
      (dry : Bool) (seeds : List Text) (l : Ledger)
      → ((queue_mission_tasks run_id week mission_id criteria dry seeds l).1
          ≡ map (λ r. r.task_id) (ordered dry seeds l))
        × FairOrder (ordered dry seeds l)
        × ((p : Queued → Bool)
            → count p (ordered dry seeds l)
              ≡ count p (queue_seeds run_id week mission_id criteria dry 1 seeds l).1)
  unfolding queue_mission_tasks
  queue_order dry seeds l = (
    refl,
    IsSorted-FairOrder _ (sort_by-IsSorted runs_before runs_before-total runs_before_trans _),
    λ p. count-sort_by runs_before p _,
  )

  -- One seed of the loop, for a seed that has a task and for one that has none.
  abbrev with_found : Task → Ledger × List Queued → Ledger × List Queued
  with_found t r = (
    r.0,
    if is_resumable t.status
        then record { task_id = t.task_id; started_at = t.started_at } ∷ r.1
        else r.1,
  )

  with_queued :
      (t : Task) (id : ℕ) (l : Ledger) (rows : List Queued)
      → t.status ≡ queued
      → t.task_id ≡ id
      → t.started_at ≡ none
      → with_found t (l, rows) ≡ (l, record { task_id = id; started_at = none } ∷ rows)
  unfolding is_resumable
  with_queued t id l rows st e none_yet = ground arith

  step_found :
      (dry : Bool) (i : ℕ) (seed : Text) (seeds : List Text) (l : Ledger) (t : Task)
      → find_spec mission_id (seed_spec week i seed) l.tasks ≡ some t
      → queue_seeds run_id week mission_id criteria dry i (seed ∷ seeds) l
        ≡ with_found t (queue_seeds run_id week mission_id criteria dry (i + 1) seeds l)
  unfolding queue_seeds
  step_found dry i seed seeds l t h = rw (h, queue_seeds)

  added : ℕ → Text → Ledger → Ledger × ℕ
  added i seed l = queue_task run_id mission_id (seed_spec week i seed) criteria l

  step_new :
      (i : ℕ) (seed : Text) (seeds : List Text) (l : Ledger)
      → find_spec mission_id (seed_spec week i seed) l.tasks ≡ none
      → queue_seeds run_id week mission_id criteria false i (seed ∷ seeds) l ≡ (
        (queue_seeds run_id week mission_id criteria false (i + 1) seeds (added i seed l).0).0,
        record { task_id = (added i seed l).1; started_at = none }
            ∷ (queue_seeds run_id week mission_id criteria false
                (i + 1)
                seeds
                (added i seed l).0).1,
      )
  unfolding queue_seeds added
  step_new i seed seeds l h = rw (h, queue_seeds)

  added-Extends : (i : ℕ) (seed : Text) (l : Ledger) → Extends l (added i seed l).0
  unfolding added queue_task
  added-Extends i seed l = (_, refl)

  added-found :
      (i : ℕ) (seed : Text) (l : Ledger)
      → find_spec mission_id (seed_spec week i seed) l.tasks ≡ none
      → (t : Task) × (find_spec mission_id (seed_spec week i seed) (added i seed l).0.tasks
          ≡ some t)
        × (t.status ≡ queued)
        × (t.task_id ≡ (added i seed l).1)
        × (t.started_at ≡ none)
  unfolding added queue_task
  added-found i seed l h =
      let spec = seed_spec week i seed in
      let row = new_row run_id l.next_id mission_id spec criteria in
      (
        row,
        rw (find_spec-append mission_id spec l.tasks (row ∷ []), h)
            (unfold find_spec in ground (arith, text_eq_refl mission_id, text_eq_refl spec)),
        refl,
        refl,
        refl,
      )

  abbrev after_seeds : ℕ → List Text → Ledger → Ledger
  after_seeds i seeds l = (queue_seeds run_id week mission_id criteria false i seeds l).0

  queue_seeds-Extends :
      (i : ℕ) (seeds : List Text) (l : Ledger)
      → Extends l (queue_seeds run_id week mission_id criteria false i seeds l).0
  queue_seeds-Extends i [] l = unfold queue_seeds in ([], sym (append-nil l.tasks))
  queue_seeds-Extends i (seed ∷ seeds) l =
      elim (Option-cases (find_spec mission_id (seed_spec week i seed) l.tasks)) [
        | inl e ↦ rw (step_new i seed seeds l e) (
            Extends-trans l (added i seed l).0 (after_seeds (i + 1) seeds (added i seed l).0)
              (added-Extends i seed l) (queue_seeds-Extends (i + 1) seeds (added i seed l).0))
        | inr (t, e) ↦
            rw (step_found false i seed seeds l t e) (queue_seeds-Extends (i + 1) seeds l)
      ]

  again :
      (i : ℕ) (seeds : List Text) (l last : Ledger)
      → Extends (queue_seeds run_id week mission_id criteria false i seeds l).0 last
      → queue_seeds run_id week mission_id criteria false i seeds last
        ≡ (last, (queue_seeds run_id week mission_id criteria false i seeds l).1)
  again i [] l last x = unfold queue_seeds in refl
  again i (seed ∷ seeds) l last x =
      elim (Option-cases (find_spec mission_id (seed_spec week i seed) l.tasks)) [
        | inl e ↦
            let x' = rw (step_new i seed seeds l e) at x in
            let (t, found, st, id, start) = added-found i seed l e in
            rw
              (
                step_new i seed seeds l e,
                step_found false i seed seeds last t (
                    Extends-find mission_id (seed_spec week i seed) (added i seed l).0 last t
                      (Extends-trans (added i seed l).0
                        (after_seeds (i + 1) seeds (added i seed l).0) last
                        (queue_seeds-Extends (i + 1) seeds (added i seed l).0) x')
                      found),
                again (i + 1) seeds (added i seed l).0 last x',
              )
              (with_queued t _ last _ st id start)
        | inr (t, e) ↦
            let x' = rw (step_found false i seed seeds l t e) at x in
            rw
              (
                step_found false i seed seeds l t e,
                step_found false i seed seeds last t (
                    Extends-find mission_id (seed_spec week i seed) l last t
                      (Extends-trans l (after_seeds (i + 1) seeds l) last
                        (queue_seeds-Extends (i + 1) seeds l) x')
                      e),
                again (i + 1) seeds l last x',
              )
              refl
      ]

  -- Queueing again in the same week, with nothing run in between, writes nothing and returns the same
  -- tasks: no seed is queued twice.
  queue_twice :
      (seeds : List Text) (l : Ledger)
      → let (l', ids) = queue_mission_tasks run_id week mission_id criteria false seeds l in
        queue_mission_tasks run_id week mission_id criteria false seeds l' ≡ (l', ids)
  unfolding queue_mission_tasks
  queue_twice seeds l =
      let l' = (queue_seeds run_id week mission_id criteria false 1 seeds l).0 in
      ap (λ (r : Ledger × List Queued). (r.0, map (λ q. q.task_id) (sort_by runs_before r.1)))
        (again 1 seeds l l' ([], sym (append-nil l'.tasks)))
