-- ===== src/Pause/Checks.antt =====
-- orchestrator/execution_pause.py: `pause_engaged`, `clear_is_authorized` and what they call.
use agi_inspired.Prelude.{
  ℕ, ◌-◌, Bool, true, false, not, ◌&&◌, Option, none, some, [], ◌∷◌, leb, if◌then◌else◌,
}
use agi_inspired.Prelude.Text.{Text, codes, text_eq, contains, strip}
use agi_inspired.Scheduler.Recovery.{Inspection, absent, unknown, identity}
use agi_inspired.Pause.World.{
  File, no_file, hidden, unreadable, undecodable, content, Issued, no_time, at, Ttl, default_ttl,
  not_a_number, negative, too_large, span, Payload, Journal, no_journal, bad_journal,
  unhashable_phase, journal, World, Services, clear_ttl_default, authorize_clear_action,
}

-- Only a clean "not found" lets the function go on; whatever else happens counts as paused.
unfoldable pub pause_engaged : World → Bool
pause_engaged w =
    if w.home_valid
    then elim w.sentinel [
      | content t ↦ true
      | undecodable ↦ true
      | hidden ↦ true
      | unreadable ↦ true
      | no_file ↦ elim w.home_is_dir [
        | none ↦ true
        | some false ↦ true
        | some true ↦
            if w.configured
            then elim w.home_has_marker [ none ↦ true | some found ↦ not found ]
            else false
      ]
    ]
    else true

module _ (s : Services) where
  unfoldable pub verified_text : Text → Option Payload
  verified_text [] = none
  verified_text (c ∷ r) = s.verify (c ∷ r)

  -- `marker.is_file()` and `_parse_marker`; the outer `none` is an exception that nothing catches: the
  -- OSError of the one, or the UnicodeDecodeError of the other.
  unfoldable pub parse_marker : File → Option (Option Payload)
  parse_marker no_file = some none
  parse_marker hidden = none
  parse_marker unreadable = some none
  parse_marker undecodable = none
  parse_marker (content t) = some (verified_text (strip t))

  -- `_window_owner_alive`: an owner that cannot be inspected counts as alive.
  unfoldable pub owner_matches : Text → Inspection → Bool
  unfolding text_eq
  owner_matches recorded absent = false
  owner_matches recorded unknown = true
  owner_matches recorded (identity current) = text_eq current recorded

  unfoldable pub window_owner_alive : Option ℕ → Option Text → Bool
  unfolding owner_matches
  window_owner_alive none recorded = false
  window_owner_alive (some pid) none = false
  window_owner_alive (some pid) (some []) = false
  window_owner_alive (some pid) (some (c ∷ t)) = owner_matches (c ∷ t) (s.inspect pid)

-- `_ACTIVE_WINDOW_PHASES`
unfoldable pub is_active_phase : Text → Bool
unfolding contains
is_active_phase = contains (codes "quiesced" ∷ codes "open" ∷ codes "restoring" ∷ [])

-- Whether the age of a marker is between zero and its span.
unfoldable pub is_fresh : ℕ → Issued → ℕ → Bool
is_fresh now no_time limit = false
is_fresh now (at issued) limit = leb issued now && leb (now - issued) limit

-- The age is known and not negative.
unfoldable pub is_issued : ℕ → Issued → Bool
is_issued now no_time = false
is_issued now (at issued) = leb issued now

-- The span in force: a value that `float` refuses means the default. A negative one admits no age, and
-- one that is too large raises, as soon as the age lets it be looked at.
unfoldable pub ttl_allows : ℕ → Issued → Ttl → Option Bool
unfolding is_fresh is_issued
ttl_allows now issued default_ttl = some (is_fresh now issued clear_ttl_default)
ttl_allows now issued not_a_number = some (is_fresh now issued clear_ttl_default)
ttl_allows now issued negative = some false
ttl_allows now issued too_large = if is_issued now issued then none else some false
ttl_allows now issued (span limit) = some (is_fresh now issued limit)

-- Whether a marker that was read authorizes; `none` for an exception.
unfoldable pub marker_authorizes : ℕ → Option Payload → Option Bool
unfolding text_eq ttl_allows
marker_authorizes now none = some false
marker_authorizes now (some p) =
    if text_eq p.action authorize_clear_action
    then ttl_allows now p.issued_at p.ttl_hours
    else some false

unfoldable pub read_authorizes : ℕ → Option (Option Payload) → Option Bool
unfolding marker_authorizes
read_authorizes now none = none
read_authorizes now (some p) = marker_authorizes now p

-- `none` is the TypeError of the test on the phase, which is not among the exceptions caught.
unfoldable pub window_authorizes : Services → Journal → Option Bool
unfolding is_active_phase window_owner_alive
window_authorizes s no_journal = some false
window_authorizes s bad_journal = some false
window_authorizes s unhashable_phase = none
window_authorizes s (journal phase pid recorded) =
    some (is_active_phase phase && window_owner_alive s pid recorded)

-- How an absent sentinel is explained.
pub data How : Type 0 where
  operator_clear_marker controlled_window unauthorized : How

-- The marker is asked first; the window only where the marker does not authorize.
unfoldable pub explanation : Option Bool → Option Bool → Option (Bool × How)
explanation none window = none
explanation (some true) window = some (true, operator_clear_marker)
explanation (some false) none = none
explanation (some false) (some true) = some (true, controlled_window)
explanation (some false) (some false) = some (false, unauthorized)

-- `clear_is_authorized`; `none` is an exception, and the answer is `false` exactly with `unauthorized`.
unfoldable pub clear_is_authorized : Services → ℕ → World → Option (Bool × How)
unfolding parse_marker read_authorizes window_authorizes explanation
clear_is_authorized s now w =
    explanation (read_authorizes now (parse_marker s w.clear_marker)) (window_authorizes s w.window)

-- `unauthorized_removal_detected`; `none` is the exception of `clear_is_authorized`.
unfoldable pub unauthorized_removal_detected : Services → ℕ → World → Option Bool
unfolding clear_is_authorized
unauthorized_removal_detected s now w =
    if w.home_valid
    then elim w.sentinel [
      | content t ↦ some false
      | undecodable ↦ some false
      | hidden ↦ some true
      | unreadable ↦ some false
      | no_file ↦ elim (clear_is_authorized s now w) [
        | none ↦ none
        | some (allowed, how) ↦ some (not allowed)
      ]
    ]
    else some true
