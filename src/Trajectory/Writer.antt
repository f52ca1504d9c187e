-- ===== src/Trajectory/Writer.antt =====
-- orchestrator/trajectory.py: resuming a file and appending events to it.
use agi_inspired.Prelude.{
  ℕ, suc, Bool, true, false, not, ◌||◌, Option, none, some, List, [], ◌∷◌, ◌++◌, ◌==◌, ltb,
  if◌then◌else◌,
}
use agi_inspired.Prelude.Text.{Text, codes}
use agi_inspired.Trajectory.Chain.{
  Hash, no_hash, hash, other_hash, Event, Parsed, malformed, not_an_object, event, Json,
  genesis_hash, event_digest, Log, raw_lines,
}

-- `TrajectoryWriter`
pub record Writer : Type 0 where
  pub task_id : ℕ
  pub sequence : ℕ
  pub previous_hash : Hash
  pub needs_separator : Bool

-- `event.get("event_hash") or hashlib.sha256(raw_bytes).hexdigest()`
unfoldable pub hash_or : Json → Text → Hash → Hash
hash_or j raw no_hash = hash (j.sha256 raw)
hash_or j raw (hash []) = hash (j.sha256 raw)
hash_or j raw (hash (c ∷ t)) = hash (c ∷ t)
hash_or j raw (other_hash n) = if j.is_true n then other_hash n else hash (j.sha256 raw)

-- The highest sequence number so far, and the hash of its event.
pub record Resumed : Type 0 where
  pub highest : ℕ
  pub previous : Hash

-- A sequence number that is an int; a lower one, or none, changes nothing.
unfoldable pub resume_sequence : Json → Text → Event → Resumed → Option ℕ → Resumed
unfolding hash_or
resume_sequence j raw e r none = r
resume_sequence j raw e r (some n) =
    if ltb r.highest n then record { highest = n; previous = hash_or j raw e.event_hash } else r

unfoldable pub same_task : ℕ → Option ℕ → Bool
same_task id none = false
same_task id (some n) = n == id

unfoldable pub resume_parsed : Json → ℕ → Text → Resumed → Parsed → Resumed
unfolding resume_sequence same_task
resume_parsed j id raw r malformed = r
resume_parsed j id raw r not_an_object = r
resume_parsed j id raw r (event e) =
    if same_task id e.task_id then resume_sequence j raw e r e.sequence else r

unfoldable pub resume_lines : Json → ℕ → List Text → Resumed → Resumed
unfolding resume_parsed
resume_lines j id [] r = r
resume_lines j id (raw ∷ lines) r = resume_lines j id lines (resume_parsed j id raw r (j.loads raw))

-- Whether a text ends in neither a line feed nor a carriage return.
unfoldable pub unended : Text → Bool
unended [] = false
unended (c ∷ []) = not (c == 10 || c == 13)
unended (c ∷ d ∷ t) = unended (d ∷ t)

-- `__init__` with `_resume_state`
unfoldable pub new_writer : Json → ℕ → Log → Writer
unfolding resume_lines raw_lines unended
new_writer j id log =
    let r =
      resume_lines j id (raw_lines log) (record { highest = 0; previous = hash genesis_hash }) in
    record {
      task_id = id;
      sequence = r.highest;
      previous_hash = r.previous;
      needs_separator = unended log.tail;
    }

-- The event that `emit` makes of the fields given, before it has its hash.
unfoldable pub unsigned : Writer → Text → Event
unsigned w fields = record {
  task_id = some w.task_id;
  sequence = some (suc w.sequence);
  prev_event_hash = w.previous_hash;
  event_hash = no_hash;
  rest = fields;
}

unfoldable pub signed : Json → Event → Event
unfolding event_digest
signed j e = record e { event_hash = hash (event_digest j e) }

-- The two writes: the separator, which ends an open line, and the line.
unfoldable pub append_line : Bool → Text → Log → Log
append_line true line log = record {
  lines = log.lines ++ ((log.tail ++ codes "\n") ∷ []) ++ (line ∷ []);
  tail = [];
}
append_line false line log = record { lines = log.lines ++ ((log.tail ++ line) ∷ []); tail = [] }

-- `emit`
unfoldable pub emit : Json → Text → Writer × Log → Writer × Log
unfolding unsigned signed append_line
emit j fields (w, log) =
    let e = signed j (unsigned w fields) in
    (
      record w { sequence = suc w.sequence; previous_hash = e.event_hash; needs_separator = false },
      append_line w.needs_separator (j.dumps e ++ codes "\n") log,
    )
