-- ===== src/MailBus/Drained.antt =====
-- orchestrator/mailbus.py: what is deferred is drained, in order and once, and what makes a drain raise.
use agi_inspired.Prelude.{
  ℕ, suc, ◌+◌, ◌*◌, ◌≤◌, ◌<◌, Bool, true, Option, none, some, List, [], ◌∷◌, ◌++◌, map, length,
  length-append, All, Any, ◌≡◌, inl, inr, refl, sym, ◌∙◌, ap, arith,
}
use agi_inspired.Prelude.Text.{Text}
use agi_inspired.MailBus.Message.{text, replace_z}
use agi_inspired.MailBus.Deferred.{
  Deferred, Line, blank, damaged, not_an_object, entry, aware, Clock, deferred_cap, default_ttl,
  or_value, stamped, lines_of, defer_input, Judged, expired, kept, judging_raised, judge_ttl,
  ttl_of, judge_instant, judge_queued, judge, kept_with, partition, cleared, drain_deferred,
}

-- The buffer after a number of commands, each with its time, that are deferred one after the other.
unfoldable pub defer_all : Clock → List (ℕ × Deferred) → Option (List Line) → Option (List Line)
unfolding defer_input
defer_all c [] file = file
defer_all c ((now, d) ∷ rest) file = defer_all c rest (defer_input c now true d file).0

-- The entries of the commands, as they are written.
unfoldable pub stamped_all : Clock → List (ℕ × Deferred) → List Deferred
unfolding stamped
stamped_all c [] = []
stamped_all c ((now, d) ∷ rest) = stamped c now d ∷ stamped_all c rest

-- A command without a time or a lifetime of its own, that is at most an hour old.
abbrev pub IsFresh : ℕ → ℕ × Deferred → Type 0
IsFresh now (at, d) = (d.queued_at ≡ none) × (d.ttl ≡ none) × (now ≤ at + default_ttl * 1000000)

defer_input-room :
    (c : Clock) (now : ℕ) (d : Deferred) (file : Option (List Line))
    → length (lines_of file) < deferred_cap
    → (defer_input c now true d file).0 ≡ some (lines_of file ++ (entry (stamped c now d) ∷ []))
unfolding defer_input
defer_input-room c now d file h = ground arith

few_lines :
    (file : Option (List Line)) (cs : List (ℕ × Deferred))
    → lines_of file ≡ []
    → length cs ≤ deferred_cap
    → length (lines_of file) + length cs ≤ deferred_cap
few_lines file cs e h = rw e (omega arith)

append_assoc : (xs ys zs : List Line) → ((xs ++ ys) ++ zs) ≡ (xs ++ (ys ++ zs))
append_assoc [] ys zs = refl
append_assoc (x ∷ xs) ys zs = ap (λ t. x ∷ t) (append_assoc xs ys zs)

append_nil : (xs : List Line) → (xs ++ []) ≡ xs
append_nil [] = refl
append_nil (x ∷ xs) = ap (λ t. x ∷ t) (append_nil xs)

next_room :
    (file : Option (List Line)) (d : Deferred) (n : ℕ)
    → length (lines_of file) + suc n ≤ deferred_cap
    → length (lines_of (some (lines_of file ++ (entry d ∷ [])))) + n ≤ deferred_cap
unfolding lines_of
next_room file d n h = ground (arith, length-append (lines_of file) (entry d ∷ []))

abbrev pub entries : List Deferred → List Line
entries ds = map entry ds

defer_all-lines :
    (c : Clock) (cs : List (ℕ × Deferred)) (file : Option (List Line))
    → length (lines_of file) + length cs ≤ deferred_cap
    → lines_of (defer_all c cs file) ≡ lines_of file ++ entries (stamped_all c cs)
unfolding defer_all stamped_all
defer_all-lines c [] file h = sym (append_nil (lines_of file))
defer_all-lines c ((now, d) ∷ cs) file h =
    let next = lines_of file ++ (entry (stamped c now d) ∷ []) in
    let e : (defer_input c now true d file).0 ≡ some next =
      defer_input-room c now d file (omega arith) in
    let rest = defer_all-lines c cs (some next) (next_room file (stamped c now d) (length cs) h) in
    rw e (
      rest
      ∙ append_assoc (lines_of file) (entry (stamped c now d) ∷ []) (entries (stamped_all c cs)))

-- The buffer never has more than `deferred_cap` lines.
pub defer_input-deferred_cap :
    (c : Clock) (now : ℕ) (appended : Bool) (d : Deferred) (file : Option (List Line))
    → length (lines_of file) ≤ deferred_cap
    → length (lines_of (defer_input c now appended d file).0) ≤ deferred_cap
unfolding defer_input lines_of
defer_input-deferred_cap c now appended d file h =
    ground (arith, length-append (lines_of file) (entry (stamped c now d) ∷ []))

module _ (c : Clock)
    (parses : (t : ℕ) → c.fromisoformat (replace_z (c.isoformat t)) ≡ aware t) where
  fresh-kept :
      (now at : ℕ) (d : Deferred) → IsFresh now (at, d) → judge c now (stamped c at d) ≡ kept
  unfolding judge stamped or_value judge_queued judge_instant ttl_of judge_ttl
  fresh-kept now at d (q, t, young) = rw (q, t, parses at) (ground arith)

  partition-fresh :
      (now : ℕ) (cs : List (ℕ × Deferred))
      → All (IsFresh now) cs
      → partition c now (entries (stamped_all c cs)) ≡ some (stamped_all c cs)
  unfolding partition stamped_all kept_with
  partition-fresh now [] h = refl
  partition-fresh now ((at, d) ∷ cs) h =
      rw (fresh-kept now at d h.0, partition-fresh now cs h.1) refl

  drain-some :
      (now : ℕ) (ds : List Deferred) (file : Option (List Line))
      → partition c now (lines_of file) ≡ some ds
      → drain_deferred c now true true file ≡ (none, some ds)
  unfolding drain_deferred cleared lines_of
  drain-some now ds none h = ap (λ r. (none, r)) h
  drain-some now ds (some ls) h = rw h refl

  -- Commands without a time or a lifetime of their own that are deferred one after the other into an empty
  -- buffer, no more than it takes, come back from a drain within the hour: all of them, in their
  -- order, with their times, and the file is gone, so that the next drain returns none. This
  -- needs the file operations to succeed and `fromisoformat` to read what `isoformat` writes.
  pub drain-defer_all :
      (now : ℕ) (cs : List (ℕ × Deferred)) (file : Option (List Line))
      → lines_of file ≡ []
      → length cs ≤ deferred_cap
      → All (IsFresh now) cs
      → drain_deferred c now true true (defer_all c cs file) ≡ (none, some (stamped_all c cs))
  drain-defer_all now cs file e few fresh =
      drain-some now (stamped_all c cs) (defer_all c cs file) (
        ap (partition c now) (
          defer_all-lines c cs file (few_lines file cs e few)
          ∙ ap (λ ls. ls ++ entries (stamped_all c cs)) e)
        ∙ partition-fresh now cs fresh)

-- A line at which the loop raises at every time: JSON that is no object, a `queued_at` that is no text or
-- that has no zone, or a readable `queued_at` with a lifetime that is no number.
abbrev pub IsUndrainable : Clock → Line → Type 0
IsUndrainable c blank = ⊥
IsUndrainable c damaged = ⊥
IsUndrainable c not_an_object = Unit
IsUndrainable c (entry d) = (now : ℕ) → judge c now d ≡ judging_raised

partition-undrainable :
    (c : Clock) (now : ℕ) (ls : List Line) → Any (IsUndrainable c) ls → partition c now ls ≡ none
unfolding partition
partition-undrainable c now [] h = elim h [ ]
partition-undrainable c now (blank ∷ ls) (inl h) = elim h [ ]
partition-undrainable c now (damaged ∷ ls) (inl h) = elim h [ ]
partition-undrainable c now (blank ∷ ls) (inr h) = partition-undrainable c now ls h
partition-undrainable c now (damaged ∷ ls) (inr h) = partition-undrainable c now ls h
partition-undrainable c now (not_an_object ∷ ls) h = refl
partition-undrainable c now (entry d ∷ ls) (inl h) = unfold kept_with in rw (h now) refl
partition-undrainable c now (entry d ∷ ls) (inr h) =
    rw (partition-undrainable c now ls h) (kept_with-none d (judge c now d))
  where
    kept_with-none : (d : Deferred) (j : Judged) → kept_with d j none ≡ none
    kept_with-none d expired = unfold kept_with in refl
    kept_with-none d kept = unfold kept_with in refl
    kept_with-none d judging_raised = unfold kept_with in refl

Any-last : (P : Line → Type 0) (xs : List Line) (x : Line) → P x → Any P (xs ++ (x ∷ []))
Any-last P [] x p = inl p
Any-last P (y ∷ xs) x p = inr (Any-last P xs x p)

text_ttl :
    (c : Clock)
    → ((t : ℕ) → c.fromisoformat (replace_z (c.isoformat t)) ≡ aware t)
    → (at : ℕ) (d : Deferred) (ttl : Text) → d.queued_at ≡ none
    → d.ttl ≡ some (text ttl)
    → (now : ℕ) → judge c now (stamped c at d) ≡ judging_raised
unfolding judge stamped or_value judge_queued judge_instant ttl_of judge_ttl
text_ttl c parses at d ttl q l now = rw (q, l, parses at) refl

-- `defer_input` takes a command whose lifetime is a text and whose time is the clock's, and then every drain
-- that can open the file raises and leaves the buffer as it is.
pub drain-undrainable :
    (c : Clock)
    → ((t : ℕ) → c.fromisoformat (replace_z (c.isoformat t)) ≡ aware t)
    → (at now : ℕ) (removed : Bool) (d : Deferred) (ttl : Text) (file : Option (List Line))
    → d.queued_at ≡ none
    → d.ttl ≡ some (text ttl)
    → length (lines_of file) < deferred_cap
    → drain_deferred c now true removed (defer_input c at true d file).0
      ≡ ((defer_input c at true d file).0, none)
drain-undrainable c parses at now removed d ttl file q l room =
    let ls = lines_of file ++ (entry (stamped c at d) ∷ []) in
    let bad =
      Any-last (IsUndrainable c) (lines_of file) (entry (stamped c at d))
        (text_ttl c parses at d ttl q l) in
    rw (defer_input-room c at d file room)
      (unfold drain_deferred cleared in rw (partition-undrainable c now ls bad) refl)
