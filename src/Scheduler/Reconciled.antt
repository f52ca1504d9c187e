-- ===== src/Scheduler/Reconciled.antt =====
-- What `reconcile_interrupted_tasks` of orchestrator/scheduler.py does to every row.
use agi_inspired.Prelude.{
  ℕ, ◌≤◌, ◌<◌, ◌≡◌, ◌≢◌, ◌↔◌, true, false, Option, none, some, List, [], ◌∷◌, count, leb, leb→le,
  Bool-cases, &&_iff, ||_iff, ◌⊎◌, inl, inr, refl, ap, arith,
}
use agi_inspired.Prelude.Text.{Text, text_eq, text_eq_refl, text_eq_sound}
use agi_inspired.Ledger.Rows.{Status, running, interrupted, failed, Task, Ledger}
use agi_inspired.Ledger.Store.{max_task_attempts}
use agi_inspired.Scheduler.Recovery.{
  Inspection, absent, unknown, identity, is_gone, is_running, owner_is_orphan, immediate_orphan,
  lease_over, is_lost, attempts_of, recovered, reconcile_row, reconcile_rows,
  reconcile_interrupted_tasks,
}

module _ (inspect : ℕ → Inspection) (now : ℕ) where
  -- The recorded owner is positively gone: its process is absent, or its pid has another process now.
  abbrev pub OwnerGone : Task → Type 0
  OwnerGone t =
      (pid : ℕ) × (recorded : Text) × (t.owner_pid ≡ some pid)
      × (t.owner_process_start_id ≡ some recorded)
      × (recorded ≢ [])
      × ((inspect pid ≡ absent)
          ⊎ ((current : Text) × (inspect pid ≡ identity current) × (current ≢ recorded)))

  -- The lease was never set, or ran out.
  abbrev pub LeaseOver : Task → Type 0
  LeaseOver t =
      (t.lease_expires_at ≡ none) ⊎ ((at : ℕ) × (t.lease_expires_at ≡ some at) × (at < now))

  abbrev pub IsLost : Task → Type 0
  IsLost t = (t.status ≡ running) × (OwnerGone t ⊎ LeaseOver t)

  is_gone_sound :
      (r : Text) (i : Inspection)
      → is_gone r i ≡ true
      → (i ≡ absent) ⊎ ((current : Text) × (i ≡ identity current) × (current ≢ r))
  unfolding is_gone
  is_gone_sound r absent h = inl refl
  is_gone_sound r unknown h = cc
  is_gone_sound r (identity c) h =
      inr (c, refl, λ e. cc (h, ap (λ u. text_eq c u) e, text_eq_refl c))

  is_gone_complete :
      (r : Text) (i : Inspection)
      → (i ≡ absent) ⊎ ((current : Text) × (i ≡ identity current) × (current ≢ r))
      → is_gone r i ≡ true
  unfolding is_gone
  is_gone_complete r absent h = refl
  is_gone_complete r unknown (inl e) = cc
  is_gone_complete r unknown (inr (c, e, ne)) = cc
  is_gone_complete r (identity c) (inl e) = cc
  is_gone_complete r (identity c) (inr (d, e, ne)) = ground (arith, text_eq_sound c r)

  orphan_sound :
      (pid : Option ℕ) (recorded : Option Text)
      → owner_is_orphan inspect pid recorded ≡ true
      → (p : ℕ) × (r : Text) × (pid ≡ some p)
        × (recorded ≡ some r)
        × (r ≢ [])
        × ((inspect p ≡ absent) ⊎ ((c : Text) × (inspect p ≡ identity c) × (c ≢ r)))
  unfolding owner_is_orphan
  orphan_sound none r h = cc
  orphan_sound (some p) none h = cc
  orphan_sound (some p) (some []) h = cc
  orphan_sound (some p) (some (c ∷ t)) h =
      (p, c ∷ t, refl, refl, (λ e. cc), is_gone_sound (c ∷ t) (inspect p) h)

  orphan_complete :
      (pid : Option ℕ) (recorded : Option Text) (p : ℕ) (r : Text)
      → pid ≡ some p
      → recorded ≡ some r
      → r ≢ []
      → (inspect p ≡ absent) ⊎ ((c : Text) × (inspect p ≡ identity c) × (c ≢ r))
      → owner_is_orphan inspect pid recorded ≡ true
  unfolding owner_is_orphan
  orphan_complete pid recorded p [] ep er ne h = absurd (ne refl)
  orphan_complete pid recorded p (c ∷ t) ep er ne h =
      rw (ep, er, owner_is_orphan) (is_gone_complete (c ∷ t) (inspect p) h)

  lease_iff :
      (l : Option ℕ)
      → (lease_over now l ≡ true) ↔ ((l ≡ none) ⊎ ((at : ℕ) × (l ≡ some at) × (at < now)))
  unfolding lease_over
  lease_iff none = (λ h. inl refl, λ h. refl)
  lease_iff (some at) = (λ h. inr (at, refl, ground arith), λ h. ground arith)

  running_iff : (st : Status) → (is_running st ≡ true) ↔ (st ≡ running)
  unfolding is_running
  running_iff running = (λ h. refl, λ h. refl)
  running_iff _ = (λ h. cc, λ h. cc)

  -- A row is picked up exactly when it is running and its owner is positively gone or its lease has
  -- run out. So an owner that cannot be inspected is left alone until its lease runs out.
  is_lost_iff : (t : Task) → (is_lost inspect now t ≡ true) ↔ IsLost t
  unfolding is_lost immediate_orphan
  is_lost_iff t = (
    λ h.
        let (runs, why) = (&&_iff (is_running t.status) _).0 h in
        (
          (running_iff t.status).0 runs,
          elim ((||_iff (immediate_orphan inspect t) _).0 why) [
            | inl o ↦ inl (orphan_sound t.owner_pid t.owner_process_start_id o)
            | inr l ↦ inr ((lease_iff t.lease_expires_at).0 l)
          ],
        ),
    λ h. (&&_iff (is_running t.status) _).1 (
      (running_iff t.status).1 h.0,
      (||_iff (immediate_orphan inspect t) _).1 (elim h.1 [
        | inl (p, r, ep, er, ne, gone) ↦
            inl (orphan_complete t.owner_pid t.owner_process_start_id p r ep er ne gone)
        | inr l ↦ inr ((lease_iff t.lease_expires_at).1 l)
      ]),
    ),
  )

  -- A lost row changes in its status, its attempt count and its notes only.
  abbrev pub Becomes : Task → Status → Task → Type 0
  Becomes t st t' = t' ≡ record t {
    status = st;
    attempt_count = some (attempts_of t);
    critic_notes = t'.critic_notes;
  }

  -- What becomes of a row: it stays, goes back for a retry below the cap, or is given up at the cap.
  abbrev pub Fate : Task → Task → Type 0
  Fate t t' =
      (¬ IsLost t) × (t' ≡ t)
      ⊎ IsLost t
        × ((attempts_of t < max_task_attempts) × Becomes t interrupted t'
            ⊎ (max_task_attempts ≤ attempts_of t) × Becomes t failed t')

  abbrev pub Fates : List Task → List Task → Type 0
  Fates [] [] = Unit
  Fates [] (u ∷ us) = ⊥
  Fates (t ∷ ts) [] = ⊥
  Fates (t ∷ ts) (u ∷ us) = Fate t u × Fates ts us

  recovered-Becomes :
      (t : Task)
      → (attempts_of t < max_task_attempts) × Becomes t interrupted (recovered inspect now t)
        ⊎ (max_task_attempts ≤ attempts_of t) × Becomes t failed (recovered inspect now t)
  unfolding recovered
  recovered-Becomes t = elim (Bool-cases (leb max_task_attempts (attempts_of t))) [
    | inl e ↦ inr (leb→le _ _ e, simp e)
    | inr e ↦ inl (ground arith, simp e)
  ]

  reconcile_row-Fate : (t : Task) → Fate t (reconcile_row inspect now t)
  unfolding reconcile_row
  reconcile_row-Fate t = elim (Bool-cases (is_lost inspect now t)) [
    | inl lost ↦ rw lost (inr ((is_lost_iff t).0 lost, recovered-Becomes t))
    | inr held ↦ rw held (inl (λ l. cc (held, (is_lost_iff t).1 l), refl))
  ]

  fates : (ts : List Task) → Fates ts (reconcile_rows inspect now ts).0
  unfolding reconcile_rows
  fates [] = tt
  fates (t ∷ ts) = (reconcile_row-Fate t, fates ts)

  counted : (ts : List Task) → (reconcile_rows inspect now ts).1 ≡ count (is_lost inspect now) ts
  unfolding reconcile_rows count
  counted [] = refl
  counted (t ∷ ts) = ground (arith, counted ts)

  -- In place, a row that is not lost stays as it is; a lost row becomes `interrupted` while its attempts
  -- with this one are below the cap and `failed` from there on, and changes beside that in its attempt
  -- count and its notes only. The result is the number of rows that were lost.
  pub reconcile-Fates :
      (l : Ledger)
      → Fates l.tasks (reconcile_interrupted_tasks inspect now l).0.tasks
        × ((reconcile_interrupted_tasks inspect now l).1 ≡ count (is_lost inspect now) l.tasks)
  unfolding reconcile_interrupted_tasks
  reconcile-Fates l = (fates l.tasks, counted l.tasks)

  reconcile_row-is_lost : (t : Task) → is_lost inspect now (reconcile_row inspect now t) ≡ false
  unfolding reconcile_row
  reconcile_row-is_lost t = elim (Bool-cases (is_lost inspect now t)) [
    | inl lost ↦ rw lost (unfold recovered is_lost is_running in ground arith)
    | inr held ↦ rw held held
  ]

  reconcile_row_held : (t : Task) → is_lost inspect now t ≡ false → reconcile_row inspect now t ≡ t
  unfolding reconcile_row
  reconcile_row_held t h = rw h

  reconcile_rows_twice :
      (ts : List Task)
      → reconcile_rows inspect now (reconcile_rows inspect now ts).0
        ≡ ((reconcile_rows inspect now ts).0, 0)
  unfolding reconcile_rows
  reconcile_rows_twice [] = refl
  reconcile_rows_twice (t ∷ ts) =
      simp (reconcile_rows_twice ts, reconcile_row-is_lost t)
        (rw (reconcile_row_held _ (reconcile_row-is_lost t)))

  -- A second pass at the same time finds nothing: no lost row is left behind.
  reconcile_twice :
      (l : Ledger)
      → let l' = (reconcile_interrupted_tasks inspect now l).0 in
        reconcile_interrupted_tasks inspect now l' ≡ (l', 0)
  unfolding reconcile_interrupted_tasks
  reconcile_twice l = simp (reconcile_rows_twice l.tasks)
