-- ===== src/Pause/Examples.antt =====
-- orchestrator/execution_pause.py: its functions at a concrete world, with a verifier that reads tokens
-- of two kinds.
use agi_inspired.Prelude.{ℕ, true, false, ◌≢◌, Option, none, some, [], ◌∷◌, ◌≡◌, ◌⊎◌, ◌↔◌, refl}
use agi_inspired.Prelude.Text.{Text, strip, text_eq}
use agi_inspired.Scheduler.Recovery.{absent}
use agi_inspired.Pause.World.{
  no_file, undecodable, content, at, Payload, World, Services, no_journal, authorize_canary_action,
  canary_use, default_ttl, span, authorize_clear_action,
}
use agi_inspired.Pause.Checks.{
  is_fresh, pause_engaged, clear_is_authorized, operator_clear_marker, How, unauthorized,
  parse_marker, read_authorizes, window_authorizes, explanation,
}
use agi_inspired.Pause.Actions.{
  judge_canary, judge_verified, judge_payload, reengage, accepted, consume_canary_authorization,
  classified, verify_pause_integrity, tamper_reengaged, engaged, not_written, not_checked,
  authorized,
}
use agi_inspired.Pause.Closed.{IsClear, IsUncheckable, verify_pause_integrity_closed}
use agi_inspired.Pause.Canary.{IsCanary, consume_accepts}
use agi_inspired.Pause.Authorized.{HasMarker, clear_is_authorized-HasMarker}

abbrev canary_payload : ℕ → Payload
canary_payload now = record {
  issued_at = at now;
  action = authorize_canary_action;
  purpose = canary_use;
  ttl_hours = default_ttl;
}

-- A token of three numbers is a canary's, one of four an authorization to clear.
read_token : Text → Option Payload
read_token (a ∷ n ∷ b ∷ []) = some (canary_payload n)
read_token (a ∷ n ∷ h ∷ b ∷ []) =
    some (record {
      issued_at = at n;
      action = authorize_clear_action;
      purpose = [];
      ttl_hours = span h;
    })
read_token _ = none

abbrev services : Services
services = record { sign = λ p. none; verify = read_token; inspect = λ pid. absent }

abbrev world : World
world = record {
  home_valid = true;
  configured = true;
  home_is_dir = some true;
  home_has_marker = some true;
  writable = true;
  sentinel = no_file;
  clear_marker = no_file;
  canary_marker = content (49 ∷ 5 ∷ 49 ∷ []);
  window = no_journal;
}

accepted_at_7 : (consume_canary_authorization services 7 world).1 ≡ accepted (canary_payload 5)
unfolding consume_canary_authorization judge_canary judge_verified judge_payload is_fresh strip
    read_token text_eq
accepted_at_7 = refl

consume_accepts_example :
    ((raw : Text) × (world.canary_marker ≡ content raw)
      × IsCanary services 7 raw (canary_payload 5))
    × ((consume_canary_authorization services 7 world).0 ≡ record world { canary_marker = no_file })
consume_accepts_example = consume_accepts services 7 world (canary_payload 5) accepted_at_7

verify_pause_integrity_closed_example :
    let (w', r) = verify_pause_integrity services 7 world in
    (pause_engaged w' ≡ true) × ((r ≡ engaged) ⊎ (r ≡ tamper_reengaged))
    ⊎ (r ≡ not_written) × (world.writable ≡ false) × (w' ≡ world)
    ⊎ (r ≡ not_checked) × (w' ≡ world) × IsClear world × IsUncheckable services world
    ⊎ (w' ≡ world)
      × IsClear world
      × ((how : How) × (r ≡ authorized how)
          × (how ≢ unauthorized)
          × (clear_is_authorized services 7 world ≡ some (true, how)))
verify_pause_integrity_closed_example = verify_pause_integrity_closed services 7 world

tampered : (verify_pause_integrity services 7 world).1 ≡ tamper_reengaged
unfolding verify_pause_integrity classified pause_engaged clear_is_authorized parse_marker
    read_authorizes window_authorizes explanation reengage
tampered = refl

abbrev garbled : World
garbled = record world { clear_marker = undecodable }

-- A marker whose bytes are no UTF-8 keeps the removed sentinel from being written again.
garbled_stays : verify_pause_integrity services 7 garbled ≡ (garbled, not_checked)
unfolding verify_pause_integrity classified pause_engaged clear_is_authorized parse_marker
    read_authorizes window_authorizes explanation
garbled_stays = refl

abbrev allowed : World
allowed = record world { clear_marker = content (50 ∷ 5 ∷ 3 ∷ 50 ∷ []) }

clear_is_authorized-HasMarker_example :
    (clear_is_authorized services 8 allowed ≡ some (true, operator_clear_marker))
    ↔ HasMarker services 8 allowed
clear_is_authorized-HasMarker_example = clear_is_authorized-HasMarker services 8 allowed
