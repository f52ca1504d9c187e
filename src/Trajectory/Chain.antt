-- ===== src/Trajectory/Chain.antt =====
-- orchestrator/trajectory.py: the lines of a trajectory file and `verify_chain`.
use agi_inspired.Prelude.{
  ℕ, Bool, true, false, ◌&&◌, Option, none, some, List, [], ◌∷◌, ◌++◌, ◌==◌, is_some, if◌then◌else◌,
}
use agi_inspired.Prelude.Text.{Text, codes, text_eq, strip}

-- A hash field of a JSON object: not there or null, a text, or a value of another type, known by a number.
pub data Hash : Type 0 where
  no_hash : Hash
  hash : Text → Hash
  other_hash : ℕ → Hash

-- An event, with what the chain and the writer read; `rest` are its other fields.
pub record Event : Type 0 where
  pub task_id : Option ℕ
  pub sequence : Option ℕ
  pub prev_event_hash : Hash
  pub event_hash : Hash
  pub rest : Text

-- What a line is after decoding: no UTF-8 or no JSON, JSON that is no object, or an event.
pub data Parsed : Type 0 where
  malformed not_an_object : Parsed
  event : Event → Parsed

-- What is used of Python: `json.loads` and `json.dumps` on one line, the canonical JSON of an event, SHA-256, and
-- the truth value of a hash field that is no text.
pub record Json : Type 0 where
  pub loads : Text → Parsed
  pub dumps : Event → Text
  pub canonical : Event → Text
  pub sha256 : Text → Text
  pub is_true : ℕ → Bool

abbrev pub genesis_hash : Text
genesis_hash = codes "GENESIS"

-- `_event_hash`: the event without its own hash.
unfoldable pub event_digest : Json → Event → Text
event_digest j e = j.sha256 (j.canonical (record e { event_hash = no_hash }))

unfoldable pub hash_eq : Hash → Hash → Bool
unfolding text_eq
hash_eq (hash t) (hash u) = text_eq t u
hash_eq (other_hash n) (other_hash m) = n == m
hash_eq no_hash no_hash = true
hash_eq _ _ = false

-- Where the verification is: the hash that the next event must name, and whether a hashed event was seen.
pub record Position : Type 0 where
  pub previous : Hash
  pub saw_hashed : Bool

unfoldable pub verify_hash : Json → Position → Text → Event → Hash → Option Position
unfolding hash_eq event_digest
verify_hash j p raw e no_hash =
    if p.saw_hashed
    then none
    else some (record { previous = hash (j.sha256 raw); saw_hashed = false })
verify_hash j p raw e (hash t) =
    if hash_eq e.prev_event_hash p.previous && text_eq t (event_digest j e)
    then some (record { previous = hash t; saw_hashed = true })
    else none
verify_hash j p raw e (other_hash n) = none

unfoldable pub verify_parsed : Json → Position → Text → Parsed → Option Position
unfolding verify_hash
verify_parsed j p raw malformed = none
verify_parsed j p raw not_an_object = none
verify_parsed j p raw (event e) = verify_hash j p raw e e.event_hash

-- A blank line is skipped.
unfoldable pub verify_stripped : Json → Position → Text → Text → Option Position
unfolding verify_parsed
verify_stripped j p raw [] = some p
verify_stripped j p raw (c ∷ t) = verify_parsed j p raw (j.loads raw)

unfoldable pub verify_line : Json → Position → Text → Option Position
unfolding verify_stripped strip
verify_line j p raw = verify_stripped j p raw (strip raw)

unfoldable pub verify_rest : (Position → Option Position) → Option Position → Option Position
verify_rest k none = none
verify_rest k (some p) = k p

-- The loop over the lines: where it gets to, or `none` where it returns False.
unfoldable pub verify_lines : Json → List Text → Position → Option Position
unfolding verify_line verify_rest
verify_lines j [] p = some p
verify_lines j (raw ∷ lines) p = verify_rest (verify_lines j lines) (verify_line j p raw)

abbrev pub at_start : Position
at_start = record { previous = hash genesis_hash; saw_hashed = false }

-- The file: its lines with their line feeds, and what follows the last line feed. A file that is not there has
-- neither.
pub record Log : Type 0 where
  pub lines : List Text
  pub tail : Text

unfoldable pub raw_lines : Log → List Text
raw_lines log = if text_eq log.tail [] then log.lines else log.lines ++ (log.tail ∷ [])

-- `verify_chain`
unfoldable pub verify_chain : Json → Log → Bool
unfolding verify_lines raw_lines
verify_chain j log = is_some (verify_lines j (raw_lines log) at_start)
