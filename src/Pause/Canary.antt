-- ===== src/Pause/Canary.antt =====
-- orchestrator/execution_pause.py: the canary's marker works once, within its half hour, and only as
-- signed for this use.
use agi_inspired.Prelude.{
  ℕ, ◌+◌, ◌≤◌, Option, none, some, ◌≡◌, ◌⊎◌, inl, inr, refl, subst, Bool-cases, arith, ap,
}
use agi_inspired.Prelude.Text.{Text, text_eq_sound, strip}
use agi_inspired.Pause.World.{
  File, no_file, hidden, unreadable, undecodable, content, at, Payload, World, Services, canary_ttl,
  authorize_canary_action, canary_use,
}
use agi_inspired.Pause.Checks.{is_fresh}
use agi_inspired.Pause.Actions.{
  accepted, no_marker, cannot_read, cannot_remove, judge_canary, judge_payload, judge_verified,
  consume_canary_authorization,
}

-- What a marker must be to be accepted at a time.
abbrev pub IsCanary : Services → ℕ → Text → Payload → Type 0
IsCanary s now raw p =
    (s.verify (strip raw) ≡ some p)
    × (p.action ≡ authorize_canary_action)
    × (p.purpose ≡ canary_use)
    × ((issued : ℕ) × (p.issued_at ≡ at issued) × (issued ≤ now) × (now ≤ issued + canary_ttl))

judge_payload_lem :
    (now : ℕ) (p q : Payload)
    → judge_payload now q ≡ accepted p
    → (q ≡ p)
      × (q.action ≡ authorize_canary_action)
      × (q.purpose ≡ canary_use)
      × ((issued : ℕ) × (q.issued_at ≡ at issued) × (issued ≤ now) × (now ≤ issued + canary_ttl))
unfolding judge_payload is_fresh
judge_payload_lem now p q h =
    ground
      (arith, text_eq_sound q.action authorize_canary_action, text_eq_sound q.purpose canary_use)

judge_verified_lem :
    (now : ℕ) (p : Payload) (o : Option Payload)
    → judge_verified now o ≡ accepted p
    → (o ≡ some p) × (judge_payload now p ≡ accepted p)
unfolding judge_verified
judge_verified_lem now p none h = cc
judge_verified_lem now p (some q) h =
    let e = (judge_payload_lem now p q h).0 in
    (ap some e, subst (λ r. judge_payload now r ≡ accepted p) e h)

File-cases :
    (f : File)
    → (f ≡ no_file)
      ⊎ (f ≡ unreadable)
      ⊎ (f ≡ undecodable)
      ⊎ (f ≡ hidden)
      ⊎ ((raw : Text) × (f ≡ content raw))
File-cases no_file = inl refl
File-cases unreadable = inr (inl refl)
File-cases undecodable = inr (inr (inl refl))
File-cases hidden = inr (inr (inr (inl refl)))
File-cases (content raw) = inr (inr (inr (inr (raw, refl))))

module _ (s : Services) (now : ℕ) where
  judged : (raw : Text) (p : Payload) → judge_canary s now raw ≡ accepted p → IsCanary s now raw p
  unfolding judge_canary
  judged raw p h =
      let (e, j) = judge_verified_lem now p (s.verify (strip raw)) h in
      let (same, action, purpose, age) = judge_payload_lem now p p j in (e, action, purpose, age)

  -- A payload is handed out only for a marker that is there, verifies, is signed for this action and
  -- use and is between zero and thirty minutes old; and the marker is gone then, all else being as it was.
  pub consume_accepts :
      (w : World) (p : Payload)
      → (consume_canary_authorization s now w).1 ≡ accepted p
      → ((raw : Text) × (w.canary_marker ≡ content raw) × IsCanary s now raw p)
        × ((consume_canary_authorization s now w).0 ≡ record w { canary_marker = no_file })
  unfolding consume_canary_authorization
  consume_accepts w p h = elim (File-cases w.canary_marker) [
    | inl e ↦ absurd (ground arith)
    | inr (inl e) ↦ absurd (ground arith)
    | inr (inr (inl e)) ↦ absurd (ground arith)
    | inr (inr (inr (inl e))) ↦ absurd (ground arith)
    | inr (inr (inr (inr (raw, e)))) ↦ elim (Bool-cases w.writable) [
      | inl b ↦ ((raw, e, judged raw p (ground arith)), ground arith)
      | inr b ↦ absurd (ground arith)
    ]
  ]

  -- After any call that got past the removal the marker is gone, so whoever comes next is told that
  -- there is none. The rejected marker is used up like the accepted one.
  consume_once :
      (w : World) (later : ℕ)
      → let (w', r) = consume_canary_authorization s now w in
        (r ≡ cannot_read)
        ⊎ (r ≡ cannot_remove)
        ⊎ (consume_canary_authorization s later w' ≡ (w', no_marker))
  unfolding consume_canary_authorization
  consume_once w later = ground arith
