-- ===== src/Ledger/Verdicts.antt =====
-- orchestrator/ledger.py: `latest_human_note` and `is_ai_performed`, which read the notes that
-- orchestrator/spotcheck.py appends to a row with each human verdict.
use agi_inspired.Prelude.{
  ℕ, ◌≡◌, Bool, false, ◌||◌, Option, none, some, [], ◌∷◌, ◌++◌, if◌then◌else◌, or_else, refl, ap,
  ◌∙◌,
}
use agi_inspired.Prelude.Text.{Text, codes, lower, strip, starts_with, has_part}
use agi_inspired.Ledger.Rows.{Verdict, pass, fail, done, Task, Ledger, find_row, update_row}

-- The text from the last place where the pattern occurs: `n[n.rfind(pattern):]`.
unfoldable pub from_last : Text → Text → Option Text
unfolding starts_with
from_last pattern [] = none
from_last pattern (c ∷ t) = elim (from_last pattern t) [
  | some s ↦ some s
  | none ↦ if starts_with (c ∷ t) pattern then some (c ∷ t) else none
]

-- The text behind the first "): ".
unfoldable pub behind_close : Text → Option Text
behind_close (a ∷ b ∷ c ∷ t) =
    let later = behind_close (b ∷ c ∷ t) in
    if starts_with (a ∷ b ∷ c ∷ t) (codes "): ") then some t else later
behind_close _ = none

abbrev pub piped_marker : Text
piped_marker = codes "| HUMAN("

abbrev pub plain_marker : Text
plain_marker = codes "HUMAN("

-- The last `HUMAN(...)` segment; rows from before the convention have no pipe.
unfoldable pub last_segment : Text → Option Text
unfolding from_last
last_segment n = elim (from_last piped_marker n) [
  | some seg ↦ some seg
  | none ↦ from_last plain_marker n
]

unfoldable pub segment_note : Option Text → Text
unfolding behind_close strip
segment_note none = []
segment_note (some seg) = elim (behind_close seg) [ some note ↦ strip note | none ↦ [] ]

unfoldable pub latest_human_note : Option Text → Text
unfolding last_segment segment_note
latest_human_note notes = segment_note (last_segment (or_else notes []))

unfoldable pub marks_ai : Text → Bool
unfolding starts_with lower has_part
marks_ai note =
    starts_with note (codes "AI-PERFORMED CHECK")
    || has_part (lower note) (codes "by claude session")
    || has_part (lower note) (codes "(not operator)")

-- `if not note: return False`, then the marks.
unfoldable pub ai_note : Text → Bool
ai_note [] = false
ai_note (c ∷ t) = marks_ai (c ∷ t)

unfoldable pub is_ai_performed : Option Text → Bool
is_ai_performed notes = ai_note (latest_human_note notes)

unfoldable pub verdict_name : Verdict → Text
verdict_name pass = codes "pass"
verdict_name fail = codes "fail"

-- What `cmd_verdict` of orchestrator/spotcheck.py appends: nothing for an empty note.
unfoldable pub verdict_segment : Verdict → Text → Text
unfolding verdict_name
verdict_segment v [] = []
verdict_segment v (c ∷ t) = codes " | HUMAN(" ++ verdict_name v ++ codes "): " ++ c ∷ t

-- The row that `cmd_verdict` writes.
unfoldable pub judged : Verdict → Text → Task → Task
judged v note t = record t {
  human_verdict = some v;
  critic_notes = some (or_else t.critic_notes [] ++ verdict_segment v note);
}

-- A verdict is taken for a task that is done; else the command stops and writes nothing.
unfoldable pub cmd_verdict : ℕ → Verdict → Text → Ledger → Option Ledger
cmd_verdict id v note l = elim (find_row id l.tasks) [
  | none ↦ none
  | some t ↦ elim t.status [
    | done ↦ some (record l { tasks = update_row id (judged v note) l.tasks })
    | _ ↦ none
  ]
]

from_last-append :
    (pattern h t s : Text) → from_last pattern t ≡ some s → from_last pattern (h ++ t) ≡ some s
unfolding from_last
from_last-append pattern [] t s e = e
from_last-append pattern (c ∷ h) t s e = rw (from_last-append pattern h t s e)

segment_start :
    (v : Verdict) (note : Text)
    → from_last piped_marker note ≡ none
    → from_last piped_marker (codes " | HUMAN(" ++ verdict_name v ++ codes "): " ++ note)
      ≡ some (codes "| HUMAN(" ++ verdict_name v ++ codes "): " ++ note)
unfolding from_last verdict_name
segment_start pass note h = rw h
segment_start fail note h = rw h

segment_read :
    (v : Verdict) (note : Text)
    → segment_note (some (codes "| HUMAN(" ++ verdict_name v ++ codes "): " ++ note)) ≡ strip note
unfolding segment_note verdict_name starts_with
segment_read pass note = refl
segment_read fail note = refl

last_segment_piped :
    (n seg : Text) → from_last piped_marker n ≡ some seg → last_segment n ≡ some seg
unfolding last_segment
last_segment_piped n seg h = rw (h, last_segment)

-- Whatever the notes of a row hold, after a verdict with a note that does not itself hold the marker,
-- the latest human note is that note: an earlier verdict never shines through.
latest_after_verdict :
    (notes : Option Text) (v : Verdict) (c : ℕ) (note : Text)
    → from_last piped_marker (c ∷ note) ≡ none
    → latest_human_note (some (or_else notes [] ++ verdict_segment v (c ∷ note))) ≡ strip (c ∷ note)
unfolding latest_human_note verdict_segment
latest_after_verdict notes v c note h =
    let old = or_else notes [] in
    let new = codes " | HUMAN(" ++ verdict_name v ++ codes "): " ++ c ∷ note in
    let seg = codes "| HUMAN(" ++ verdict_name v ++ codes "): " ++ c ∷ note in
    ap segment_note (
      last_segment_piped (old ++ new) seg
        (from_last-append piped_marker old new seg (segment_start v (c ∷ note) h)))
    ∙ segment_read v (c ∷ note)

-- After a verdict with a note that does not itself hold the marker, whether the row counts as checked
-- by the AI is settled by that note alone.
ai_performed_after_verdict :
    (notes : Option Text) (v : Verdict) (c : ℕ) (note : Text)
    → from_last piped_marker (c ∷ note) ≡ none
    → is_ai_performed (some (or_else notes [] ++ verdict_segment v (c ∷ note)))
      ≡ ai_note (strip (c ∷ note))
unfolding is_ai_performed
ai_performed_after_verdict notes v c note h = ap ai_note (latest_after_verdict notes v c note h)
