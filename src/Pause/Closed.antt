-- ===== src/Pause/Closed.antt =====
-- orchestrator/execution_pause.py: when the sentinel's absence counts, and what a check of the
-- integrity leaves behind.
use agi_inspired.Prelude.{
  ℕ, Bool, true, false, Option, none, some, ◌≡◌, ◌≢◌, ◌⊎◌, inl, inr, ◌↔◌, refl, sym, ap, ◌∙◌,
  Bool-cases, Option-cases, arith,
}
use agi_inspired.Pause.World.{
  File, no_file, hidden, unreadable, undecodable, content, too_large, Payload, Journal, no_journal,
  bad_journal, unhashable_phase, journal, World, Services,
}
use agi_inspired.Prelude.Text.{strip}
use agi_inspired.Pause.Checks.{
  pause_engaged, clear_is_authorized, How, unauthorized, marker_authorizes, parse_marker,
  window_authorizes, read_authorizes, verified_text, ttl_allows, explanation,
}
use agi_inspired.Pause.Actions.{
  Integrity, engaged, tamper_reengaged, not_written, not_checked, authorized, reengage, classified,
  verify_pause_integrity,
}

-- The four observations under which work may go on.
abbrev pub IsClear : World → Type 0
IsClear w =
    (w.home_valid ≡ true)
    × (w.sentinel ≡ no_file)
    × (w.home_is_dir ≡ some true)
    × (w.configured ≡ true → w.home_has_marker ≡ some true)

-- `pause_engaged` answers `false` in exactly one situation: the home resolves, the sentinel is
-- cleanly not found, the home is a directory, and a configured home carries its marker file.
pub pause_engaged_iff : (w : World) → (pause_engaged w ≡ false) ↔ IsClear w
unfolding pause_engaged
pause_engaged_iff w = ground arith

reengage-engaged : (w : World) → (reengage w).1 ≡ true → pause_engaged (reengage w).0 ≡ true
unfolding reengage pause_engaged
reengage-engaged w h = ground arith

reengage_fails : (w : World) → (reengage w).1 ≡ false → (w.writable ≡ false) × ((reengage w).0 ≡ w)
unfolding reengage
reengage_fails w h = ground arith

-- What keeps `clear_is_authorized` from an answer: a marker that cannot even be looked at or whose bytes
-- are no UTF-8, one that verifies with a span too large for a float, or a journal whose phase cannot
-- be hashed.
abbrev pub IsUncheckable : Services → World → Type 0
IsUncheckable s w =
    ((w.clear_marker ≡ hidden) ⊎ (w.clear_marker ≡ undecodable))
    ⊎ ((p : Payload) × (parse_marker s w.clear_marker ≡ some (some p)) × (p.ttl_hours ≡ too_large))
    ⊎ (w.window ≡ unhashable_phase)

-- What is left where the check lets work go on or ends with an exception.
abbrev IsChecked : Services → ℕ → World → World × Integrity → Type 0
IsChecked s now w (w', r) =
    (pause_engaged w' ≡ true) × ((r ≡ engaged) ⊎ (r ≡ tamper_reengaged))
    ⊎ (r ≡ not_written) × (w.writable ≡ false) × (w' ≡ w)
    ⊎ (r ≡ not_checked) × (w' ≡ w) × IsClear w × IsUncheckable s w
    ⊎ (w' ≡ w)
      × IsClear w
      × ((how : How) × (r ≡ authorized how)
          × (how ≢ unauthorized)
          × (clear_is_authorized s now w ≡ some (true, how)))

module _ (s : Services) (now : ℕ) where
  window_raises : (j : Journal) → window_authorizes s j ≡ none → j ≡ unhashable_phase
  unfolding window_authorizes
  window_raises no_journal h = cc
  window_raises bad_journal h = cc
  window_raises unhashable_phase h = refl
  window_raises (journal phase pid recorded) h = cc

  marker_raises : (p : Payload) → marker_authorizes now (some p) ≡ none → p.ttl_hours ≡ too_large
  unfolding marker_authorizes ttl_allows
  marker_raises p h = ground arith

  read_raises :
      (f : File)
      → read_authorizes now (parse_marker s f) ≡ none
      → ((f ≡ hidden) ⊎ (f ≡ undecodable))
        ⊎ ((p : Payload) × (parse_marker s f ≡ some (some p)) × (p.ttl_hours ≡ too_large))
  unfolding parse_marker read_authorizes
  read_raises no_file h = unfold marker_authorizes in cc
  read_raises unreadable h = unfold marker_authorizes in cc
  read_raises hidden h = inl (inl refl)
  read_raises undecodable h = inl (inr refl)
  read_raises (content t) h = elim (Option-cases (verified_text s (strip t))) [
    | inl e ↦ unfold marker_authorizes in absurd (ground arith)
    | inr (p, e) ↦ inr (p, ap some e, marker_raises p (ap (marker_authorizes now) (sym e) ∙ h))
  ]

  explanation_raises : (a b : Option Bool) → explanation a b ≡ none → (a ≡ none) ⊎ (b ≡ none)
  unfolding explanation
  explanation_raises a b h = ground arith

  unchecked : (w : World) → clear_is_authorized s now w ≡ none → IsUncheckable s w
  unfolding clear_is_authorized
  unchecked w h = elim (explanation_raises _ _ h) [
    | inl e ↦ elim (read_raises w.clear_marker e) [ inl u ↦ inl u | inr t ↦ inr (inl t) ]
    | inr e ↦ inr (inr (window_raises w.window e))
  ]

  explanation_known :
      (a b : Option Bool) (how : How) → explanation a b ≡ some (true, how) → how ≢ unauthorized
  unfolding explanation
  explanation_known none b how h e = cc
  explanation_known (some true) b how h e = cc
  explanation_known (some false) none how h e = cc
  explanation_known (some false) (some true) how h e = cc
  explanation_known (some false) (some false) how h e = cc

  known_how :
      (w : World) (how : How) → clear_is_authorized s now w ≡ some (true, how) → how ≢ unauthorized
  unfolding clear_is_authorized
  known_how w how h = explanation_known _ _ how h

  classified-IsChecked :
      (w : World) (o : Option (Bool × How))
      → clear_is_authorized s now w ≡ o
      → pause_engaged w ≡ false
      → IsChecked s now w (classified w o)
  unfolding classified
  classified-IsChecked w none h e =
      inr (inr (inl (refl, refl, (pause_engaged_iff w).0 e, unchecked w h)))
  classified-IsChecked w (some (true, how)) h e =
      inr (inr (inr (refl, (pause_engaged_iff w).0 e, (how, refl, known_how w how h, h))))
  classified-IsChecked w (some (false, how)) h e = elim (Bool-cases (reengage w).1) [
    | inl b ↦ rw b (inl (reengage-engaged w b, inr refl))
    | inr b ↦ let (ro, same) = reengage_fails w b in rw b (inr (inl (refl, ro, same)))
  ]

  -- A check of the integrity lets work go on only where the absence of the sentinel is explained by the
  -- operator's marker or by a controlled window, and it changes nothing then. Else the pause holds
  -- afterwards, with two exceptions that are both errors and change nothing: the sentinel cannot be
  -- written, or the check raises on the marker or the journal, and then the sentinel stays absent.
  pub verify_pause_integrity_closed :
      (w : World)
      → let (w', r) = verify_pause_integrity s now w in
        (pause_engaged w' ≡ true) × ((r ≡ engaged) ⊎ (r ≡ tamper_reengaged))
        ⊎ (r ≡ not_written) × (w.writable ≡ false) × (w' ≡ w)
        ⊎ (r ≡ not_checked) × (w' ≡ w) × IsClear w × IsUncheckable s w
        ⊎ (w' ≡ w)
          × IsClear w
          × ((how : How) × (r ≡ authorized how)
              × (how ≢ unauthorized)
              × (clear_is_authorized s now w ≡ some (true, how)))
  unfolding verify_pause_integrity
  verify_pause_integrity_closed w = elim (Bool-cases (pause_engaged w)) [
    | inl e ↦ rw e (inl (e, inl refl))
    | inr e ↦ rw e (classified-IsChecked w (clear_is_authorized s now w) refl e)
  ]
