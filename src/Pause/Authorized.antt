-- ===== src/Pause/Authorized.antt =====
-- orchestrator/execution_pause.py: which operator's marker explains an absent sentinel, and for how long.
use agi_inspired.Prelude.{
  ℕ, ◌+◌, ◌*◌, ◌≤◌, Bool, true, false, Option, none, some, [], ◌∷◌, ◌≡◌, ◌≢◌, ◌↔◌, refl, arith, ap,
  sym, ◌∙◌, Bool-cases, Option-cases, inl, inr,
}
use agi_inspired.Prelude.Text.{Text, text_eq, text_eq_refl, text_eq_sound, strip}
use agi_inspired.Pause.World.{
  File, no_file, hidden, unreadable, undecodable, content, Issued, no_time, at, Ttl, default_ttl,
  not_a_number, negative, too_large, span, Payload, World, Services, hour, authorize_clear_action,
}
use agi_inspired.Pause.Checks.{
  is_fresh, verified_text, parse_marker, ttl_allows, marker_authorizes, read_authorizes,
  explanation, clear_is_authorized, window_authorizes, operator_clear_marker,
}

-- The time for which a marker holds: its span, or a day where it names none that is a number.
abbrev pub Lasts : Ttl → ℕ → Type 0
Lasts default_ttl limit = limit ≡ 24 * hour
Lasts not_a_number limit = limit ≡ 24 * hour
Lasts negative limit = ⊥
Lasts too_large limit = ⊥
Lasts (span h) limit = limit ≡ h

-- A payload that authorizes the clearing at a time.
abbrev pub IsInForce : ℕ → Payload → Type 0
IsInForce now p =
    (p.action ≡ authorize_clear_action)
    × ((issued : ℕ) × (limit : ℕ) × (p.issued_at ≡ at issued)
        × Lasts p.ttl_hours limit
        × (issued ≤ now)
        × (now ≤ issued + limit))

-- The marker's file has a text that is not blank, and the verifier accepts it as a payload in force.
abbrev pub HasMarker : Services → ℕ → World → Type 0
HasMarker s now w =
    (raw : Text) × (p : Payload) × (w.clear_marker ≡ content raw)
    × (strip raw ≢ [])
    × (s.verify (strip raw) ≡ some p)
    × IsInForce now p

fresh_sound :
    (now : ℕ) (i : Issued) (limit : ℕ)
    → is_fresh now i limit ≡ true
    → ((issued : ℕ) × (i ≡ at issued) × (issued ≤ now) × (now ≤ issued + limit))
unfolding is_fresh
fresh_sound now no_time limit h = cc
fresh_sound now (at issued) limit h = (issued, refl, ground arith, ground arith)

fresh_complete :
    (now issued limit : ℕ)
    → issued ≤ now
    → now ≤ issued + limit
    → is_fresh now (at issued) limit ≡ true
unfolding is_fresh
fresh_complete now issued limit a b = ground arith

-- An age that a span admits.
abbrev InSpan : ℕ → Issued → Ttl → Type 0
InSpan now i t =
    (issued : ℕ) × (limit : ℕ) × (i ≡ at issued)
    × Lasts t limit
    × (issued ≤ now)
    × (now ≤ issued + limit)

allows_within :
    (now : ℕ) (i : Issued) (t : Ttl) (limit : ℕ)
    → Lasts t limit
    → some (is_fresh now i limit) ≡ some true
    → InSpan now i t
allows_within now i t limit l h =
    let (issued, e, a, b) = fresh_sound now i limit cc in (issued, limit, e, l, a, b)

ttl_sound : (now : ℕ) (i : Issued) (t : Ttl) → ttl_allows now i t ≡ some true → InSpan now i t
unfolding ttl_allows
ttl_sound now i default_ttl h = allows_within now i default_ttl _ refl h
ttl_sound now i not_a_number h = allows_within now i not_a_number _ refl h
ttl_sound now i negative h = absurd cc
ttl_sound now i too_large h = absurd (ground arith)
ttl_sound now i (span limit) h = allows_within now i (span limit) limit refl h

ttl_complete :
    (now issued limit : ℕ) (t : Ttl)
    → Lasts t limit
    → is_fresh now (at issued) limit ≡ true
    → ttl_allows now (at issued) t ≡ some true
unfolding ttl_allows
ttl_complete now issued limit default_ttl l h = ap some (ap (is_fresh now (at issued)) (sym l) ∙ h)
ttl_complete now issued limit not_a_number l h = ap some (ap (is_fresh now (at issued)) (sym l) ∙ h)
ttl_complete now issued limit negative l h = elim l [ ]
ttl_complete now issued limit too_large l h = elim l [ ]
ttl_complete now issued limit (span n) l h = ap some (ap (is_fresh now (at issued)) (sym l) ∙ h)

marker_sound :
    (now : ℕ) (p : Payload) → marker_authorizes now (some p) ≡ some true → IsInForce now p
unfolding marker_authorizes
marker_sound now p h = elim (Bool-cases (text_eq p.action authorize_clear_action)) [
  | inl e ↦
      let (issued, limit, i, l, a, b) = ttl_sound now p.issued_at p.ttl_hours (ground arith) in
      (text_eq_sound _ _ e, (issued, limit, i, l, a, b))
  | inr e ↦ absurd (ground arith)
]

marker_complete :
    (now : ℕ) (p : Payload) → IsInForce now p → marker_authorizes now (some p) ≡ some true
unfolding marker_authorizes
marker_complete now p (action, (issued, limit, i, l, a, b)) =
    rw (action, text_eq_refl authorize_clear_action, i)
      (ttl_complete now issued limit p.ttl_hours l (fresh_complete now issued limit a b))

explained_by :
    (a b : Option Bool) → (explanation a b ≡ some (true, operator_clear_marker)) ↔ (a ≡ some true)
unfolding explanation
explained_by none b = (λ h. absurd cc, λ h. absurd cc)
explained_by (some true) b = (λ h. refl, λ h. refl)
explained_by (some false) none = (λ h. absurd cc, λ h. absurd cc)
explained_by (some false) (some true) = (λ h. absurd cc, λ h. absurd cc)
explained_by (some false) (some false) = (λ h. absurd cc, λ h. absurd cc)

module _ (s : Services) (now : ℕ) where
  verified_sound :
      (t : Text) (p : Payload) → verified_text s t ≡ some p → (t ≢ []) × (s.verify t ≡ some p)
  unfolding verified_text
  verified_sound [] p h = absurd cc
  verified_sound (c ∷ t) p h = (λ e. cc, h)

  verified_complete :
      (t : Text) (p : Payload) → t ≢ [] → s.verify t ≡ some p → verified_text s t ≡ some p
  unfolding verified_text
  verified_complete [] p ne h = absurd (ne refl)
  verified_complete (c ∷ t) p ne h = h

  read_sound :
      (f : File)
      → read_authorizes now (parse_marker s f) ≡ some true
      → (raw : Text) × (p : Payload) × (f ≡ content raw)
        × (strip raw ≢ [])
        × (s.verify (strip raw) ≡ some p)
        × IsInForce now p
  unfolding parse_marker read_authorizes
  read_sound no_file h = unfold marker_authorizes in absurd cc
  read_sound unreadable h = unfold marker_authorizes in absurd cc
  read_sound undecodable h = absurd cc
  read_sound hidden h = absurd cc
  read_sound (content raw) h = elim (Option-cases (verified_text s (strip raw))) [
    | inl e ↦ unfold marker_authorizes in absurd (ground arith)
    | inr (p, e) ↦
        let (ne, v) = verified_sound (strip raw) p e in
        (raw, p, refl, ne, v, marker_sound now p (ap (marker_authorizes now) (sym e) ∙ h))
  ]

  read_complete :
      (raw : Text) (p : Payload)
      → strip raw ≢ []
      → s.verify (strip raw) ≡ some p
      → IsInForce now p
      → read_authorizes now (parse_marker s (content raw)) ≡ some true
  unfolding parse_marker read_authorizes
  read_complete raw p ne v force =
      ap (marker_authorizes now) (verified_complete (strip raw) p ne v)
      ∙ marker_complete now p force

  -- An absent sentinel is explained by the operator's marker exactly where the marker's file has a text
  -- that is not blank and that the verifier accepts, signed for the clearing and issued at a time
  -- from which its span, or a day if it names no number, has not yet passed.
  pub clear_is_authorized-HasMarker :
      (w : World)
      → (clear_is_authorized s now w ≡ some (true, operator_clear_marker)) ↔ HasMarker s now w
  unfolding clear_is_authorized
  clear_is_authorized-HasMarker w =
      let (to, from) =
        explained_by (read_authorizes now (parse_marker s w.clear_marker))
          (window_authorizes s w.window) in
      (
        λ h. read_sound w.clear_marker (to h),
        λ (raw, p, e, ne, v, force).
            from
              (ap (λ f. read_authorizes now (parse_marker s f)) e ∙ read_complete raw p ne v force),
      )
