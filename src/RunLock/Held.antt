-- ===== src/RunLock/Held.antt =====
-- orchestrator/runlock.py: reading, judging, acquiring and releasing the lock file. Times are seconds.
use agi_inspired.Prelude.{
  ℕ, ◌+◌, Bool, true, false, not, ◌&&◌, Option, none, some, [], ◌∷◌, ltb, if◌then◌else◌,
}
use agi_inspired.Prelude.Text.{Text, text_eq}
use agi_inspired.Scheduler.Recovery.{Inspection, absent, unknown, identity}

abbrev pub stale_after_seconds : ℕ
stale_after_seconds = 3600

-- A lock that `_read_lock` accepts.
pub record Lock : Type 0 where
  pub pid : ℕ
  pub started_at : ℕ
  pub process_start_id : Text
  pub lock_id : Text

-- The fields of the JSON object; one that is missing or of the wrong type is `none`.
pub record Fields : Type 0 where
  pub pid : Option ℕ
  pub started_at : Option ℕ
  pub process_start_id : Option Text
  pub lock_id : Option Text

-- The file: not there, no JSON object, or an object.
pub data LockFile : Type 0 where
  no_lock damaged : LockFile
  fields : Fields → LockFile

unfoldable pub filled : Option Text → Option Text
filled none = none
filled (some []) = none
filled (some (c ∷ t)) = some (c ∷ t)

unfoldable pub positive : Option ℕ → Option ℕ
positive none = none
positive (some n) = if ltb 0 n then some n else none

unfoldable pub lock_of : Option ℕ → Option ℕ → Option Text → Option Text → Option Lock
lock_of (some p) (some at) (some start) (some id) =
    some (record { pid = p; started_at = at; process_start_id = start; lock_id = id })
lock_of _ _ _ _ = none

-- `_read_lock`; `none` is `LockCorrupted`, which a file that is not there also raises.
unfoldable pub read_lock : LockFile → Option Lock
unfolding filled positive
read_lock no_lock = none
read_lock damaged = none
read_lock (fields f) =
    lock_of (positive f.pid) f.started_at (filled f.process_start_id) (filled f.lock_id)

-- `_owner_is_same_process`: an owner that cannot be inspected counts as the same.
unfoldable pub same_process : Text → Inspection → Bool
unfolding text_eq
same_process recorded absent = false
same_process recorded unknown = true
same_process recorded (identity current) = text_eq current recorded

-- What `acquire` ends with before the body of the `with` runs.
pub data Acquired : Type 0 where
  acquired already_running lock_corrupted : Acquired

-- The lock that this process writes, and the file that has it.
unfoldable pub written : Lock → LockFile
written l = fields (record {
  pid = some l.pid;
  started_at = some l.started_at;
  process_start_id = some l.process_start_id;
  lock_id = some l.lock_id;
})

unfoldable pub report_held : LockFile → LockFile × Acquired
report_held f = elim (read_lock f) [ none ↦ (f, lock_corrupted) | some l ↦ (f, already_running) ]

-- The second attempt, on what other processes left after the reclaim.
unfoldable pub second_attempt : Lock → LockFile → LockFile × Acquired
second_attempt mine no_lock = (written mine, acquired)
second_attempt mine damaged = (damaged, lock_corrupted)
second_attempt mine (fields f) = report_held (fields f)

-- What other processes do to the path while this one acquires: between its first attempt to create the file
-- and the reading, between the judgement of the lock and the next access, and between the removal and
-- the second attempt.
pub record Others : Type 0 where
  pub after_open : LockFile → LockFile
  pub after_judgement : LockFile → LockFile
  pub after_removal : LockFile → LockFile

-- `path.unlink()`, which removes any file there is, and none if there is none.
unfoldable pub removed_at : LockFile → LockFile
removed_at f = no_lock

module _ (inspect : ℕ → Inspection) (now : ℕ) where
  unfoldable pub owner_is_same_process : Lock → Bool
  owner_is_same_process l = same_process l.process_start_id (inspect l.pid)

  -- `_is_stale` of a lock that could be read
  unfoldable pub is_stale : Lock → Bool
  is_stale l = ltb (l.started_at + stale_after_seconds) now && not (owner_is_same_process l)

  -- The first attempt at a file that exists: the lock that was read is judged, then whatever is at the
  -- path by then is removed. A lock that is not stale is read again for the report.
  unfoldable pub reclaim : Others → Lock → LockFile → Option Lock → LockFile × Acquired
  unfolding removed_at report_held second_attempt
  reclaim others mine f none = (f, lock_corrupted)
  reclaim others mine f (some held) =
      if is_stale held
      then second_attempt mine (others.after_removal (removed_at (others.after_judgement f)))
      else report_held (others.after_judgement f)

  -- `acquire` up to its `yield`.
  unfoldable pub acquire : Others → Lock → LockFile → LockFile × Acquired
  acquire others mine no_lock = (written mine, acquired)
  acquire others mine damaged =
      reclaim others mine (others.after_open damaged) (read_lock (others.after_open damaged))
  acquire others mine (fields f) =
      reclaim others mine (others.after_open (fields f)) (read_lock (others.after_open (fields f)))

-- The `finally` of `acquire`: only a lock with this process's two names is removed.
unfoldable pub release_read : Lock → LockFile → Option Lock → LockFile
unfolding text_eq
release_read mine f none = f
release_read mine f (some l) =
    if text_eq l.lock_id mine.lock_id && text_eq l.process_start_id mine.process_start_id
    then no_lock
    else f

unfoldable pub release : Lock → LockFile → LockFile
release mine f = release_read mine f (read_lock f)
