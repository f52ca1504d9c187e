-- ===== src/Trajectory/Broken.antt =====
-- orchestrator/trajectory.py: a file whose last line a crash has cut off.
use agi_inspired.Prelude.{
  ℕ, Bool, true, false, Option, none, some, List, [], ◌∷◌, ◌++◌, Any, is_some, ◌≡◌, ◌≢◌, inl, inr,
  refl, ap, Bool-cases,
}
use agi_inspired.Prelude.Text.{Text, codes, text_eq, strip}
use agi_inspired.Trajectory.Chain.{
  malformed, Json, Position, verify_parsed, verify_stripped, verify_line, verify_rest, verify_lines,
  at_start, Log, raw_lines, verify_chain,
}
use agi_inspired.Trajectory.Writer.{
  Writer, unended, new_writer, append_line, signed, unsigned, emit,
}
use agi_inspired.Trajectory.Extended.{emit_all}

-- A line that is not blank and no JSON.
abbrev pub IsCut : Json → Text → Type 0
IsCut j raw = (strip raw ≢ []) × (j.loads raw ≡ malformed)

module _ (j : Json) where
  stripped_cut :
      (p : Position) (raw t : Text)
      → t ≢ []
      → j.loads raw ≡ malformed
      → verify_stripped j p raw t ≡ none
  unfolding verify_stripped verify_parsed
  stripped_cut p raw [] ne e = absurd (ne refl)
  stripped_cut p raw (c ∷ t) ne e = rw e refl

  rest_none :
      (o : Option Position) (k : Position → Option Position)
      → ((q : Position) → k q ≡ none)
      → verify_rest k o ≡ none
  unfolding verify_rest
  rest_none none k h = refl
  rest_none (some q) k h = h q

  -- A file with a cut line does not verify.
  verify_lines_cut :
      (lines : List Text) (p : Position) → Any (IsCut j) lines → verify_lines j lines p ≡ none
  unfolding verify_lines
  verify_lines_cut [] p h = elim h [ ]
  verify_lines_cut (raw ∷ lines) p (inl (ne, e)) =
      unfold verify_line in rw (stripped_cut p raw (strip raw) ne e) (unfold verify_rest in refl)
  verify_lines_cut (raw ∷ lines) p (inr h) =
      rest_none (verify_line j p raw) (verify_lines j lines) (λ q. verify_lines_cut lines q h)

  Any-left : (xs ys : List Text) → Any (IsCut j) xs → Any (IsCut j) (xs ++ ys)
  Any-left [] ys h = elim h [ ]
  Any-left (x ∷ xs) ys (inl h) = inl h
  Any-left (x ∷ xs) ys (inr h) = inr (Any-left xs ys h)

  Any-end : (xs : List Text) (x : Text) → IsCut j x → Any (IsCut j) (xs ++ (x ∷ []))
  Any-end [] x h = inl h
  Any-end (y ∷ xs) x h = inr (Any-end xs x h)

  appended-IsCut :
      (b : Bool) (line : Text) (log : Log)
      → Any (IsCut j) log.lines
      → Any (IsCut j) (append_line b line log).lines
  unfolding append_line
  appended-IsCut true line log h =
      Any-left (log.lines ++ ((log.tail ++ codes "\n") ∷ [])) (line ∷ [])
        (Any-left log.lines ((log.tail ++ codes "\n") ∷ []) h)
  appended-IsCut false line log h = Any-left log.lines ((log.tail ++ line) ∷ []) h

  separated-IsCut :
      (line : Text) (log : Log)
      → IsCut j (log.tail ++ codes "\n")
      → Any (IsCut j) (append_line true line log).lines
  unfolding append_line
  separated-IsCut line log h =
      Any-left (log.lines ++ ((log.tail ++ codes "\n") ∷ [])) (line ∷ [])
        (Any-end log.lines (log.tail ++ codes "\n") h)

  emit_all-IsCut :
      (events : List Text) (w : Writer) (log : Log)
      → Any (IsCut j) log.lines
      → Any (IsCut j) (emit_all j events (w, log)).1.lines
  unfolding emit_all emit
  emit_all-IsCut [] w log h = h
  emit_all-IsCut (fields ∷ events) w log h = emit_all-IsCut events _ _ (
      appended-IsCut w.needs_separator (j.dumps (signed j (unsigned w fields)) ++ codes "\n") log h)

  raw_lines-IsCut : (log : Log) → Any (IsCut j) log.lines → Any (IsCut j) (raw_lines log)
  unfolding raw_lines
  raw_lines-IsCut log h = elim (Bool-cases (text_eq log.tail [])) [
    | inl e ↦ rw e h
    | inr e ↦ rw e (Any-left log.lines (log.tail ∷ []) h)
  ]

  cut-unverified : (log : Log) → Any (IsCut j) log.lines → verify_chain j log ≡ false
  unfolding verify_chain
  cut-unverified log h =
      ap is_some (verify_lines_cut (raw_lines log) at_start (raw_lines-IsCut log h))

  -- If a crash has cut off the last line of a file, so that it has no line feed and is no JSON, a writer that resumes
  -- the file appends its events, but the chain of the file never verifies again, whatever is emitted.
  pub cut_for_good :
      (id : ℕ) (log : Log) (fields : Text) (events : List Text)
      → unended log.tail ≡ true
      → IsCut j (log.tail ++ codes "\n")
      → verify_chain j (emit_all j (fields ∷ events) (new_writer j id log, log)).1 ≡ false
  unfolding emit_all emit new_writer
  cut_for_good id log fields events open' cut =
      cut-unverified _ (emit_all-IsCut events _ _ (rw open' (separated-IsCut _ log cut)))
