-- ===== src/RunLock/Reclaim.antt =====
-- orchestrator/runlock.py: which lock may be judged stale and taken over, and that a release removes only its own.
use agi_inspired.Prelude.{
  ℕ, ◌+◌, ◌<◌, true, false, Option, none, some, [], ◌∷◌, ◌≡◌, ◌≢◌, ◌⊎◌, inl, inr, refl, Bool-cases,
  arith, ap,
}
use agi_inspired.Prelude.Text.{Text, text_eq, text_eq_sound, text_eq_refl}
use agi_inspired.Scheduler.Recovery.{Inspection, absent, unknown, identity}
use agi_inspired.RunLock.Held.{
  stale_after_seconds, Lock, LockFile, no_lock, damaged, fields, lock_of, filled, positive, Others,
  removed_at, read_lock, same_process, acquired, written, report_held, second_attempt,
  owner_is_same_process, is_stale, reclaim, acquire, release_read, release,
}

-- A usable lock of this process: a process has a positive id, and both names are not empty.
abbrev pub IsUsable : Lock → Type 0
IsUsable l = (0 < l.pid) × (l.process_start_id ≢ []) × (l.lock_id ≢ [])

filled_lem : (t : Text) → t ≢ [] → filled (some t) ≡ some t
unfolding filled
filled_lem [] ne = absurd (ne refl)
filled_lem (c ∷ t) ne = refl

positive_lem : (n : ℕ) → 0 < n → positive (some n) ≡ some n
unfolding positive
positive_lem n h = ground arith

pub read_lock-written : (l : Lock) → IsUsable l → read_lock (written l) ≡ some l
unfolding read_lock written lock_of
read_lock-written l (p, s, i) = rw (positive_lem l.pid p, filled_lem _ s, filled_lem _ i) refl

-- The owner of a lock is positively gone, or its pid has another process now.
abbrev pub IsGone : (ℕ → Inspection) → Lock → Type 0
IsGone inspect l =
    (inspect l.pid ≡ absent)
    ⊎ ((current : Text) × (inspect l.pid ≡ identity current) × (current ≢ l.process_start_id))

gone_sound :
    (recorded : Text) (i : Inspection)
    → same_process recorded i ≡ false
    → (i ≡ absent) ⊎ ((c : Text) × (i ≡ identity c) × (c ≢ recorded))
unfolding same_process
gone_sound r absent h = inl refl
gone_sound r unknown h = cc
gone_sound r (identity c) h = inr (c, refl, λ e. cc (h, ap (λ u. text_eq c u) e, text_eq_refl c))

second_attempt_lem :
    (mine : Lock) (f : LockFile)
    → (second_attempt mine f).1 ≡ acquired
    → (f ≡ no_lock) × ((second_attempt mine f).0 ≡ written mine)
unfolding second_attempt report_held
second_attempt_lem mine no_lock h = (refl, refl)
second_attempt_lem mine damaged h = cc
second_attempt_lem mine (fields f) h = absurd (ground arith)

module _ (inspect : ℕ → Inspection) (now : ℕ) (others : Others) (mine : Lock) where
  -- What was at the path when the lock was acquired.
  abbrev pub WasReclaimable : LockFile → Type 0
  WasReclaimable f =
      (f ≡ no_lock)
      ⊎ ((held : Lock) × (read_lock (others.after_open f) ≡ some held)
          × (held.started_at + stale_after_seconds < now)
          × IsGone inspect held
          × (others.after_removal no_lock ≡ no_lock))

  is_stale_sound :
      (l : Lock)
      → is_stale inspect now l ≡ true
      → (l.started_at + stale_after_seconds < now) × IsGone inspect l
  unfolding is_stale owner_is_same_process
  is_stale_sound l h = (ground arith, gone_sound l.process_start_id (inspect l.pid) (ground arith))

  report_held-not : (f : LockFile) → (report_held f).1 ≢ acquired
  unfolding report_held
  report_held-not f = λ h. ground arith

  reclaim_lem :
      (f : LockFile) (o : Option Lock)
      → (reclaim inspect now others mine f o).1 ≡ acquired
      → ((held : Lock) × (o ≡ some held)
          × (held.started_at + stale_after_seconds < now)
          × IsGone inspect held
          × (others.after_removal no_lock ≡ no_lock))
        × ((reclaim inspect now others mine f o).0 ≡ written mine)
  unfolding reclaim removed_at
  reclaim_lem f none h = cc
  reclaim_lem f (some l) h = elim (Bool-cases (is_stale inspect now l)) [
    | inl e ↦
        let (old, gone) = is_stale_sound l e in
        let (free, file) = second_attempt_lem mine (others.after_removal no_lock) (rw e at h) in
        ((l, refl, old, gone, free), rw e file)
    | inr e ↦ absurd (report_held-not (others.after_judgement f) (rw e at h))
  ]

  -- The lock is acquired only where no file was, or where the readable lock that was judged was older
  -- than the limit, its owner was positively gone, and no file was there again after the removal; the
  -- file then has this process's lock. Nothing is said of what others put at the path between the
  -- judgement and the removal: it is removed like the lock that was judged.
  pub acquire-WasReclaimable :
      (f : LockFile)
      → (acquire inspect now others mine f).1 ≡ acquired
      → WasReclaimable f × ((acquire inspect now others mine f).0 ≡ written mine)
  unfolding acquire
  acquire-WasReclaimable no_lock h = (inl refl, refl)
  acquire-WasReclaimable damaged h =
      let (free, file) =
        reclaim_lem (others.after_open damaged) (read_lock (others.after_open damaged)) h in
      (inr free, file)
  acquire-WasReclaimable (fields f) h =
      let (free, file) =
        reclaim_lem (others.after_open (fields f)) (read_lock (others.after_open (fields f))) h in
      (inr free, file)

release_own : (mine : Lock) (f : LockFile) → release_read mine f (some mine) ≡ no_lock
unfolding release_read
release_own mine f = rw (text_eq_refl mine.lock_id, text_eq_refl mine.process_start_id) refl

release_damaged : (mine : Lock) → release_read mine damaged (read_lock damaged) ≡ damaged
unfolding release_read read_lock
release_damaged mine = refl

release_other :
    (mine other : Lock) (f : LockFile)
    → other.lock_id ≢ mine.lock_id
    → release_read mine f (some other) ≡ f
unfolding release_read
release_other mine other f ne = elim (Bool-cases (text_eq other.lock_id mine.lock_id)) [
  | inl e ↦ absurd (ne (text_eq_sound _ _ e))
  | inr e ↦ rw e refl
]

-- Releasing removes what this process wrote, and leaves a damaged file and the lock of any other
-- run as they are.
pub release_lem :
    (mine other : Lock)
    → IsUsable mine
    → IsUsable other
    → (release mine (written mine) ≡ no_lock)
      × (release mine damaged ≡ damaged)
      × (other.lock_id ≢ mine.lock_id → release mine (written other) ≡ written other)
unfolding release
release_lem mine other u v = (
  rw (read_lock-written mine u) (release_own mine (written mine)),
  release_damaged mine,
  λ ne. rw (read_lock-written other v) (release_other mine other (written other) ne),
)
