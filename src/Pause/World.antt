-- ===== src/Pause/World.antt =====
-- orchestrator/execution_pause.py: the files and the environment that its functions see. Times and
-- spans are in microseconds, the resolution of Python's `datetime`.
use agi_inspired.Prelude.{ℕ, ◌*◌, Bool, Option}
use agi_inspired.Prelude.Text.{Text, codes}
use agi_inspired.Scheduler.Recovery.{Inspection}

-- A file: not there; an `OSError` even to ask whether it is there, such as a missing permission; there
-- but an `OSError` to read; there with bytes that are no UTF-8; or there with its content.
pub data File : Type 0 where
  no_file hidden unreadable undecodable : File
  content : Text → File

-- `payload["issued_at"]`: missing or no ISO time, or a time; a time with no zone is read as UTC.
pub data Issued : Type 0 where
  no_time : Issued
  at : ℕ → Issued

-- `payload.get("ttl_hours", 24)` under `float`: the default, a value that is no number, a negative
-- number, an integer that is too large for a float (an OverflowError), or a span.
pub data Ttl : Type 0 where
  default_ttl not_a_number negative too_large : Ttl
  span : ℕ → Ttl

-- The fields of a verified marker that the source reads; `purpose` is its key `use`.
pub record Payload : Type 0 where
  pub issued_at : Issued
  pub action : Text
  pub purpose : Text
  pub ttl_hours : Ttl

-- The journal of the controlled window: no file, one that is not readable JSON of an object, or an
-- object. A field of the wrong type is `none`; a phase that is a list or an object cannot be hashed.
pub data Journal : Type 0 where
  no_journal bad_journal unhashable_phase : Journal
  journal : Text → Option ℕ → Option Text → Journal

-- `home_valid` is false where `estop_path` raises; `home_is_dir` and `home_has_marker` are `none` where
-- looking is an `OSError`. `writable` says whether the home can be written.
pub record World : Type 0 where
  pub home_valid : Bool
  pub configured : Bool
  pub home_is_dir : Option Bool
  pub home_has_marker : Option Bool
  pub writable : Bool
  pub sentinel : File
  pub clear_marker : File
  pub canary_marker : File
  pub window : Journal

-- What the functions use of the signing of markers, of process inspection and of the clock. `sign` is
-- `none` where `operator_auth.sign_marker` raises, `verify` where `verify_marker` rejects or raises.
pub record Services : Type 0 where
  pub sign : Payload → Option Text
  pub verify : Text → Option Payload
  pub inspect : ℕ → Inspection

abbrev pub hour : ℕ
hour = 3_600_000_000

abbrev pub minute : ℕ
minute = 60_000_000

-- CLEAR_TTL_HOURS_DEFAULT and CANARY_TTL_MINUTES
abbrev pub clear_ttl_default : ℕ
clear_ttl_default = 24 * hour

abbrev pub canary_ttl : ℕ
canary_ttl = 30 * minute

abbrev pub authorize_clear_action : Text
authorize_clear_action = codes "authorize-clear"

abbrev pub authorize_canary_action : Text
authorize_canary_action = codes "authorize-canary"

abbrev pub canary_use : Text
canary_use = codes "single-connectivity-canary"
