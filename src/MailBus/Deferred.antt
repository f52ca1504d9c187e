-- ===== src/MailBus/Deferred.antt =====
-- orchestrator/mailbus.py: the buffer of deferred operator commands. Instants are microseconds; an
-- append to the file is complete or fails without a trace.
use agi_inspired.Prelude.{
  ℕ, ◌+◌, ◌*◌, Bool, true, false, Option, none, some, List, [], ◌∷◌, ◌++◌, ltb, leb, if◌then◌else◌,
  length,
}
use agi_inspired.Prelude.Text.{Text}
use agi_inspired.MailBus.Message.{Value, boolean, negative, integer, text, float, replace_z}

-- A command, with the keys that the buffer reads; the others are known by a number.
pub record Deferred : Type 0 where
  pub queued_at : Option Value
  pub ttl : Option Value
  pub command : ℕ

-- A line of the file: blank, no JSON, JSON that is no object, or an entry.
pub data Line : Type 0 where
  blank damaged not_an_object : Line
  entry : Deferred → Line

-- What `datetime.fromisoformat` makes of a text: ValueError, a time without a zone, or an instant.
pub data Instant : Type 0 where
  no_instant naive : Instant
  aware : ℕ → Instant

-- What is used of Python: `isoformat` of the clock's time, `fromisoformat`, and whether a number of
-- microseconds is more than a float of seconds.
pub record Clock : Type 0 where
  pub isoformat : ℕ → Text
  pub fromisoformat : Text → Instant
  pub exceeds_float : ℕ → ℕ → ℕ → Bool

abbrev pub deferred_cap : ℕ
deferred_cap = 100

abbrev pub default_ttl : ℕ
default_ttl = 3600

unfoldable pub or_value : Option Value → Value → Option Value
or_value none v = some v
or_value (some u) v = some u

-- The entry that is written: the keys of the command go before the defaults.
unfoldable pub stamped : Clock → ℕ → Deferred → Deferred
unfolding or_value
stamped c now d = record d {
  queued_at = or_value d.queued_at (text (c.isoformat now));
  ttl = or_value d.ttl (integer default_ttl);
}

-- The lines of the file; a file that is not there has none.
unfoldable pub lines_of : Option (List Line) → List Line
lines_of none = []
lines_of (some ls) = ls

-- `defer_input`; `appended` says whether the append succeeds.
unfoldable pub defer_input :
    Clock → ℕ → Bool → Deferred → Option (List Line) → Option (List Line) × Bool
unfolding stamped lines_of
defer_input c now appended d file =
    if leb deferred_cap (length (lines_of file))
    then (file, false)
    else if appended
    then (some (lines_of file ++ (entry (stamped c now d) ∷ [])), true)
    else (file, false)

-- What becomes of one entry: it is expired or kept, or the loop raises.
pub data Judged : Type 0 where
  expired kept judging_raised : Judged

-- `(now - queued).total_seconds() > ttl`
unfoldable pub judge_ttl : Clock → ℕ → ℕ → Value → Judged
judge_ttl c now queued (integer n) = if ltb (queued + n * 1000000) now then expired else kept
judge_ttl c now queued (negative n) = if ltb queued (now + n * 1000000) then expired else kept
judge_ttl c now queued (boolean true) = if ltb (queued + 1000000) now then expired else kept
judge_ttl c now queued (boolean false) = if ltb queued now then expired else kept
judge_ttl c now queued (float n) = if c.exceeds_float now queued n then expired else kept
judge_ttl c now queued _ = judging_raised

-- `entry.get("ttl", 3600)`
unfoldable pub ttl_of : Option Value → Value
ttl_of none = integer default_ttl
ttl_of (some v) = v

unfoldable pub judge_instant : Clock → ℕ → Option Value → Instant → Judged
unfolding judge_ttl ttl_of
judge_instant c now ttl no_instant = expired
judge_instant c now ttl naive = judging_raised
judge_instant c now ttl (aware queued) = judge_ttl c now queued (ttl_of ttl)

-- A `queued_at` that is no text has no `replace`; one that is not there is the empty text.
unfoldable pub judge_queued : Clock → ℕ → Option Value → Option Value → Judged
unfolding judge_instant replace_z
judge_queued c now ttl none = judge_instant c now ttl (c.fromisoformat (replace_z []))
judge_queued c now ttl (some (text t)) = judge_instant c now ttl (c.fromisoformat (replace_z t))
judge_queued c now ttl (some v) = judging_raised

unfoldable pub judge : Clock → ℕ → Deferred → Judged
unfolding judge_queued
judge c now d = judge_queued c now d.ttl d.queued_at

-- One entry with the entries kept of the rest; `none` where the loop raises.
unfoldable pub kept_with : Deferred → Judged → Option (List Deferred) → Option (List Deferred)
kept_with d judging_raised rest = none
kept_with d expired rest = rest
kept_with d kept none = none
kept_with d kept (some ds) = some (d ∷ ds)

unfoldable pub partition : Clock → ℕ → List Line → Option (List Deferred)
unfolding kept_with judge
partition c now [] = some []
partition c now (blank ∷ ls) = partition c now ls
partition c now (damaged ∷ ls) = partition c now ls
partition c now (not_an_object ∷ ls) = none
partition c now (entry d ∷ ls) = kept_with d (judge c now d) (partition c now ls)

-- The end of `drain_deferred`: the file is removed, if that succeeds, once the entries are read.
unfoldable pub cleared :
    Bool → List Line → Option (List Deferred) → Option (List Line) × Option (List Deferred)
cleared removed ls none = (some ls, none)
cleared removed ls (some ds) = ((if removed then none else some ls), some ds)

-- `drain_deferred`; `opened` and `removed` say whether the file can be read and removed. The list is
-- `none` where an exception is raised.
unfoldable pub drain_deferred :
    Clock → ℕ → Bool → Bool → Option (List Line) → Option (List Line) × Option (List Deferred)
unfolding cleared partition
drain_deferred c now opened removed none = (none, some [])
drain_deferred c now false removed (some ls) = (some ls, some [])
drain_deferred c now true removed (some ls) = cleared removed ls (partition c now ls)
