-- ===== src/Trajectory/Extended.antt =====
-- orchestrator/trajectory.py: what a writer appends verifies and can be resumed.
use agi_inspired.Prelude.{
  ℕ, suc, Bool, true, false, Option, none, some, List, [], ◌∷◌, ◌++◌, ◌==◌, ltb, ◌≡◌, ◌≢◌, refl,
  sym, ◌∙◌, ap, subst, arith,
}
use agi_inspired.Prelude.Text.{Text, codes, text_eq, text_eq_refl, strip}
use agi_inspired.Trajectory.Chain.{
  Hash, no_hash, hash, other_hash, Event, event, Json, genesis_hash, event_digest, hash_eq,
  Position, verify_hash, verify_parsed, verify_stripped, verify_line, verify_rest, verify_lines,
  at_start, Log, raw_lines, verify_chain,
}
use agi_inspired.Trajectory.Writer.{
  Writer, hash_or, Resumed, resume_sequence, same_task, resume_parsed, resume_lines, unended,
  new_writer, unsigned, signed, append_line, emit,
}

-- A number of events, one after the other.
unfoldable pub emit_all : Json → List Text → Writer × Log → Writer × Log
unfolding emit
emit_all j [] s = s
emit_all j (fields ∷ rest) s = emit_all j rest (emit j fields s)

abbrev pub empty_log : Log
empty_log = record { lines = []; tail = [] }

abbrev pub nothing_resumed : Resumed
nothing_resumed = record { highest = 0; previous = hash genesis_hash }

verify_rest_assoc :
    (f g k : Position → Option Position)
    → ((q : Position) → f q ≡ verify_rest k (g q))
    → (o : Option Position) → verify_rest f o ≡ verify_rest k (verify_rest g o)
unfolding verify_rest
verify_rest_assoc f g k h none = refl
verify_rest_assoc f g k h (some q) = h q

verify_lines-append :
    (j : Json) (xs ys : List Text) (p : Position)
    → verify_lines j (xs ++ ys) p ≡ verify_rest (verify_lines j ys) (verify_lines j xs p)
unfolding verify_lines
verify_lines-append j [] ys p = unfold verify_rest in refl
verify_lines-append j (x ∷ xs) ys p =
    verify_rest_assoc (verify_lines j (xs ++ ys)) (verify_lines j xs) (verify_lines j ys)
      (verify_lines-append j xs ys) (verify_line j p x)

resume_lines-append :
    (j : Json) (id : ℕ) (xs ys : List Text) (r : Resumed)
    → resume_lines j id (xs ++ ys) r ≡ resume_lines j id ys (resume_lines j id xs r)
unfolding resume_lines
resume_lines-append j id [] ys r = refl
resume_lines-append j id (x ∷ xs) ys r =
    resume_lines-append j id xs ys (resume_parsed j id x r (j.loads x))

-- What the code relies on of Python for an event: its dumped line is read back and is not blank, and its digest is
-- not empty.
pub record IsRead (j : Json) (e : Event) : Type 0 where
  pub reads : j.loads (j.dumps e ++ codes "\n") ≡ event e
  pub filled : strip (j.dumps e ++ codes "\n") ≢ []
  pub digest : event_digest j e ≢ []

-- This holds for each of the events that are emitted.
abbrev pub AllRead : Json → List Text → Writer × Log → Type 0
AllRead j [] s = Unit
AllRead j (fields ∷ events) s =
    IsRead j (signed j (unsigned s.0 fields)) × AllRead j events (emit j fields s)

-- A writer and a file that ends in a line feed: the file verifies up to the writer's hash, and resuming it gives
-- the writer's number and hash.
pub record InStep (j : Json) (w : Writer) (log : Log) : Type 0 where
  pub whole : log.tail ≡ []
  pub joined : w.needs_separator ≡ false
  pub hashed : Bool
  pub verified :
      verify_lines j log.lines at_start
      ≡ some (record { previous = w.previous_hash; saw_hashed = hashed })
  pub resumed :
      resume_lines j w.task_id log.lines nothing_resumed
      ≡ record { highest = w.sequence; previous = w.previous_hash }

hash_eq_refl : (h : Hash) → hash_eq h h ≡ true
unfolding hash_eq
hash_eq_refl no_hash = refl
hash_eq_refl (hash t) = text_eq_refl t
hash_eq_refl (other_hash n) = ground arith

-- The event of a writer, its line and its digest, and what a writer has resumed.
abbrev unsigned_of : Writer → Text → Event
unsigned_of w fields = record {
  task_id = some w.task_id;
  sequence = some (suc w.sequence);
  prev_event_hash = w.previous_hash;
  event_hash = no_hash;
  rest = fields;
}

abbrev line_of : Json → Writer → Text → Text
line_of j w fields = j.dumps (signed j (unsigned w fields)) ++ codes "\n"

abbrev digest_of : Json → Writer → Text → Text
digest_of j w fields = j.sha256 (j.canonical (unsigned_of w fields))

abbrev place : Hash → Bool → Position
place h b = record { previous = h; saw_hashed = b }

abbrev so_far : Writer → Resumed
so_far w = record { highest = w.sequence; previous = w.previous_hash }

same_number : (n : ℕ) → (n == n) ≡ true
same_number n = ground arith

next_number : (n : ℕ) → ltb n (suc n) ≡ true
next_number n = ground arith

module _ (j : Json) where
  stripped :
      (p : Position) (raw t : Text)
      → t ≢ []
      → verify_stripped j p raw t ≡ verify_parsed j p raw (j.loads raw)
  unfolding verify_stripped
  stripped p raw [] ne = absurd (ne refl)
  stripped p raw (c ∷ t) ne = refl

  -- The line of an event that a writer signs verifies where the writer's hash is the last.
  signed_verifies :
      (w : Writer) (fields : Text) (b : Bool)
      → IsRead j (signed j (unsigned w fields))
      → verify_line j (place w.previous_hash b) (line_of j w fields)
        ≡ some (place (hash (digest_of j w fields)) true)
  signed_verifies w fields b good =
      unfold verify_line in
      stripped (place w.previous_hash b) (line_of j w fields) (strip (line_of j w fields))
        good.filled
      ∙ ap (verify_parsed j (place w.previous_hash b) (line_of j w fields)) good.reads
      ∙ (unfold verify_parsed verify_hash signed unsigned event_digest in
          rw
            (
              hash_eq_refl w.previous_hash,
              text_eq_refl (j.sha256 (j.canonical (unsigned_of w fields))),
            )
            refl)

  digest_or : (raw t : Text) → t ≢ [] → hash_or j raw (hash t) ≡ hash t
  unfolding hash_or
  digest_or raw [] ne = absurd (ne refl)
  digest_or raw (c ∷ t) ne = refl

  digest_there :
      (w : Writer) (fields : Text)
      → IsRead j (signed j (unsigned w fields))
      → digest_of j w fields ≢ []
  unfolding event_digest signed unsigned
  digest_there w fields good = good.digest

  signed_resumes :
      (w : Writer) (fields : Text)
      → IsRead j (signed j (unsigned w fields))
      → resume_parsed j w.task_id (line_of j w fields) (so_far w) (j.loads (line_of j w fields))
        ≡ record { highest = suc w.sequence; previous = hash (digest_of j w fields) }
  signed_resumes w fields good =
      ap (resume_parsed j w.task_id (line_of j w fields) (so_far w)) good.reads
      ∙ (unfold resume_parsed resume_sequence signed unsigned same_task in
          rw
            (
              same_number w.task_id,
              next_number w.sequence,
              digest_or (line_of j w fields) (digest_of j w fields) (digest_there w fields good),
            )
            refl)

  appended :
      (w : Writer) (log : Log) (fields : Text)
      → InStep j w log
      → append_line w.needs_separator (line_of j w fields) log
        ≡ record { lines = log.lines ++ (line_of j w fields ∷ []); tail = [] }
  unfolding append_line
  appended w log fields h = rw (h.joined, h.whole) refl

  next_writer : Writer → Text → Writer
  next_writer w fields = record w {
    sequence = suc w.sequence;
    previous_hash = hash (digest_of j w fields);
    needs_separator = false;
  }

  next_log : Writer → Log → Text → Log
  next_log w log fields = record { lines = log.lines ++ (line_of j w fields ∷ []); tail = [] }

  next-InStep :
      (w : Writer) (log : Log) (fields : Text)
      → IsRead j (signed j (unsigned w fields))
      → InStep j w log
      → InStep j (next_writer w fields) (next_log w log fields)
  unfolding next_writer next_log
  next-InStep w log fields good h = record {
    whole = refl;
    joined = refl;
    hashed = true;
    verified =
        verify_lines-append j log.lines (line_of j w fields ∷ []) at_start
        ∙ ap (verify_rest (verify_lines j (line_of j w fields ∷ []))) h.verified
        ∙ (unfold verify_rest verify_lines in rw (signed_verifies w fields h.hashed good) refl);
    resumed =
        resume_lines-append j w.task_id log.lines (line_of j w fields ∷ []) nothing_resumed
        ∙ ap (resume_lines j w.task_id (line_of j w fields ∷ [])) h.resumed
        ∙ (unfold resume_lines in signed_resumes w fields good);
  }

  emit-next :
      (w : Writer) (log : Log) (fields : Text)
      → InStep j w log
      → emit j fields (w, log) ≡ (next_writer w fields, next_log w log fields)
  unfolding emit next_writer next_log
  emit-next w log fields h = ap (λ l. (next_writer w fields, l)) (appended w log fields h)

  emit_all-InStep :
      (events : List Text) (s : Writer × Log)
      → AllRead j events s
      → InStep j s.0 s.1
      → InStep j (emit_all j events s).0 (emit_all j events s).1
  unfolding emit_all
  emit_all-InStep [] s good h = h
  emit_all-InStep (fields ∷ events) (w, log) good h =
      emit_all-InStep events (emit j fields (w, log)) good.1 (
        subst (λ s. InStep j s.0 s.1) (sym (emit-next w log fields h))
          (next-InStep w log fields good.0 h))

  InStep-verifies : (w : Writer) (log : Log) → InStep j w log → verify_chain j log ≡ true
  unfolding verify_chain raw_lines text_eq
  InStep-verifies w log h = rw (h.whole, h.verified) refl

  InStep-resumes : (w : Writer) (log : Log) → InStep j w log → new_writer j w.task_id log ≡ w
  unfolding new_writer raw_lines text_eq unended
  InStep-resumes w log h =
      rw (h.whole, h.resumed) (ap (λ b. record w { needs_separator = b }) (sym h.joined))

  empty-InStep : (id : ℕ) → InStep j (new_writer j id empty_log) empty_log
  unfolding new_writer raw_lines text_eq unended resume_lines
  empty-InStep id = record {
    whole = refl;
    joined = refl;
    hashed = false;
    verified = unfold verify_lines in refl;
    resumed = refl;
  }

  -- A file that verifies and that is resumed as by the writer.
  abbrev pub IsChain : Writer × Log → Type 0
  IsChain (w, log) = (verify_chain j log ≡ true) × (new_writer j w.task_id log ≡ w)

  -- After any number of events that a new writer emits into an empty file, the chain of the file verifies, and a
  -- writer that resumes the file for the same task has the same sequence number and the same hash, so
  -- that it goes on where the first one stopped.
  pub emit_all-IsChain :
      (id : ℕ) (events : List Text)
      → AllRead j events (new_writer j id empty_log, empty_log)
      → IsChain (emit_all j events (new_writer j id empty_log, empty_log))
  emit_all-IsChain id events good =
      let h =
        emit_all-InStep events (new_writer j id empty_log, empty_log) good (empty-InStep id) in
      (InStep-verifies _ _ h, InStep-resumes _ _ h)
