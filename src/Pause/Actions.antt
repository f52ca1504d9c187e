-- ===== src/Pause/Actions.antt =====
-- orchestrator/execution_pause.py: the functions that write the sentinel and the markers. Each returns
-- the world after it beside its result.
use agi_inspired.Prelude.{ℕ, Bool, true, false, not, ◌||◌, Option, none, some, [], if◌then◌else◌}
use agi_inspired.Prelude.Text.{Text, codes, text_eq, strip}
use agi_inspired.Pause.World.{
  no_file, hidden, unreadable, undecodable, content, no_time, at, default_ttl, span, Payload, World,
  Services, canary_ttl, authorize_clear_action, authorize_canary_action, canary_use,
}
use agi_inspired.Pause.Checks.{pause_engaged, How, clear_is_authorized, is_fresh}

-- `verify_pause_integrity`: the classification, or the exception of a `reengage` that cannot write
-- (`not_written`) or of `clear_is_authorized` (`not_checked`).
pub data Integrity : Type 0 where
  engaged tamper_reengaged not_written not_checked : Integrity
  authorized : How → Integrity

-- `reengage` writes the sentinel; the reason is not kept apart here.
unfoldable pub reengage : World → World × Bool
reengage w =
    if w.writable
    then (record w { sentinel = content (codes "tamper-recovery") }, true)
    else (w, false)

unfoldable pub classified : World → Option (Bool × How) → World × Integrity
classified w none = (w, not_checked)
classified w (some (true, how)) = (w, authorized how)
classified w (some (false, how)) =
    let (w', written) = reengage w in (w', (if written then tamper_reengaged else not_written))

unfoldable pub verify_pause_integrity : Services → ℕ → World → World × Integrity
unfolding classified
verify_pause_integrity s now w =
    if pause_engaged w then (w, engaged) else classified w (clear_is_authorized s now w)

-- `authorize_clear` with a span that is not negative; `none` where the signature or the write fails, and
-- nothing is written then.
unfoldable pub authorize_clear : Services → ℕ → ℕ → World → Option World
authorize_clear s now ttl w =
    elim (s.sign (record {
      issued_at = at now;
      action = authorize_clear_action;
      purpose = [];
      ttl_hours = span ttl;
    })) [
      | none ↦ none
      | some token ↦ if w.writable then some (record w { clear_marker = content token }) else none
    ]

unfoldable pub authorize_canary : Services → ℕ → World → Option World
authorize_canary s now w =
    elim (s.sign (record {
      issued_at = at now;
      action = authorize_canary_action;
      purpose = canary_use;
      ttl_hours = default_ttl;
    })) [
      | none ↦ none
      | some token ↦ if w.writable then some (record w { canary_marker = content token }) else none
    ]

-- The ways in which `consume_canary_authorization` ends.
pub data Consumed : Type 0 where
  accepted : Payload → Consumed
  no_marker cannot_read cannot_remove untrusted wrong_purpose malformed stale_marker : Consumed

-- The tests on a verified payload.
unfoldable pub judge_payload : ℕ → Payload → Consumed
judge_payload now p =
    if not (text_eq p.action authorize_canary_action) || not (text_eq p.purpose canary_use)
    then wrong_purpose
    else elim p.issued_at [
      | no_time ↦ malformed
      | at issued ↦ if is_fresh now (at issued) canary_ttl then accepted p else stale_marker
    ]

unfoldable pub judge_verified : ℕ → Option Payload → Consumed
judge_verified now none = untrusted
judge_verified now (some p) = judge_payload now p

-- The tests on a marker's text, once it is removed.
unfoldable pub judge_canary : Services → ℕ → Text → Consumed
judge_canary s now raw = judge_verified now (s.verify (strip raw))

-- `consume_canary_authorization`: the marker is removed before it is looked at.
unfoldable pub consume_canary_authorization : Services → ℕ → World → World × Consumed
consume_canary_authorization s now w = elim w.canary_marker [
  | no_file ↦ (w, no_marker)
  | hidden ↦ (w, cannot_read)
  | unreadable ↦ (w, cannot_read)
  | undecodable ↦ (w, cannot_read)
  | content raw ↦
      if w.writable
      then (record w { canary_marker = no_file }, judge_canary s now raw)
      else (w, cannot_remove)
]
