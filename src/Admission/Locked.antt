-- ===== src/Admission/Locked.antt =====
-- orchestrator/dependency_integrity.py: the requirements of a lock that passes.
use agi_inspired.Prelude.{
  ℕ, ◌<◌, true, false, some, List, [], ◌∷◌, all, All, ◌≡◌, ◌≢◌, ◌⊎◌, refl, inl, inr, sym, ◌∙◌,
  subst, arith, Bool-cases,
}
use agi_inspired.Prelude.Text.{Text, text_eq, text_eq_refl, text_eq_sound, strip}
use agi_inspired.Admission.Dependencies.{
  Patterns, read, result, package_of, Entries, has_entry, Scan, scan_requirement, scan_line,
  scan_lines, start, is_hashed, no_duplicate, lock_ok, requirements_lock_state,
}
use agi_inspired.Admission.Scanned.{
  scan_line-requirement, scan_lines-has, is_blank, IsRequirement, Effect, skipped, required, added,
  ignored, scan_line-Effect, hashes_of, hashes_of-set, hashes_of-set_other, hashes_of-add_other,
  set_entry-has, Effect-has, required-fresh, scan_lines-no_duplicate,
}

-- A line with a hash stands among the lines before the next requirement.
abbrev pub HasHash : Patterns → List Text → Type 0
HasHash p [] = ⊥
HasHash p (raw ∷ l) =
    ((name : Text) → IsRequirement p raw name → ⊥)
    × (((is_blank raw ≡ false) × (0 < p.hashes (strip raw))) ⊎ HasHash p l)

-- Each requirement has a hash on its line or below it, and is the only one of its package.
abbrev pub IsSealed : Patterns → List Text → Type 0
IsSealed p [] = Unit
IsSealed p (raw ∷ l) =
    ((name : Text)
      → IsRequirement p raw name
      → ((0 < p.hashes (strip raw)) ⊎ HasHash p l)
        × All (λ r. (n : Text) → IsRequirement p r n → package_of n ≢ package_of name) l)
    × IsSealed p l

module _ (p : Patterns) (k : Text) where
  -- The hashes of a package do not change while another is the current one.
  abbrev Frozen : List Text → Type 0
  Frozen l =
      (s : Scan) (c : Text)
      → s.current ≡ some c
      → text_eq c k ≡ false
      → has_entry k s.entries ≡ true
      → no_duplicate (scan_lines p l s).duplicates ≡ true
      → hashes_of k (scan_lines p l s).entries ≡ hashes_of k s.entries

  -- A requirement that is no duplicate is of another package.
  apart_required :
      (l : List Text) (s : Scan) (j : Text) (n : ℕ)
      → has_entry k s.entries ≡ true
      → no_duplicate (scan_lines p l (scan_requirement j n s)).duplicates ≡ true
      → text_eq j k ≡ false
  apart_required l s j n h d = elim (Bool-cases (text_eq j k)) [
    | inl e ↦
        let (fresh, none_before) =
          required-fresh j n s (scan_lines-no_duplicate p l (scan_requirement j n s) d) in
        let free : has_entry k s.entries ≡ false =
          subst (λ t. has_entry t s.entries ≡ false) (text_eq_sound j k e) fresh in
        absurd (cc (h, free))
    | inr e ↦ e
  ]

  Frozen-after :
      (raw : Text) (l : List Text) (s t : Scan) (c : Text)
      → Frozen l
      → Effect p raw s t
      → s.current ≡ some c
      → text_eq c k ≡ false
      → has_entry k s.entries ≡ true
      → no_duplicate (scan_lines p l t).duplicates ≡ true
      → hashes_of k (scan_lines p l t).entries ≡ hashes_of k s.entries
  unfolding scan_requirement
  Frozen-after raw l s t c rest (skipped b) cur away h d = rest s c cur away h d
  Frozen-after raw l s t c rest (required name r) cur away h d =
      let j = package_of name in
      let n = p.hashes (strip raw) in
      let apart = apart_required l s j n h d in
      rest (scan_requirement j n s) j refl apart (Effect-has p raw k s _ (required name r) h) d
      ∙ hashes_of-set_other k j n apart s.entries
  Frozen-after raw l s t c rest (added b' b o n e) cur away h d =
      let same : b' ≡ c = cc (sym e ∙ cur) in
      let away' : text_eq b' k ≡ false = subst (λ x. text_eq x k ≡ false) (sym same) away in
      rest _ b' e away' (Effect-has p raw k s _ (added b' b o n e) h) d
      ∙ hashes_of-add_other k b' (p.hashes (strip raw)) away' s.entries
  Frozen-after raw l s t c rest (ignored n b o) cur away h d = rest _ c cur away h d

  frozen : (l : List Text) → Frozen l
  unfolding scan_lines
  frozen [] s c cur away h d = refl
  frozen (raw ∷ l) s c cur away h d =
      Frozen-after raw l s (scan_line p raw s) c (frozen l) (scan_line-Effect p raw s) cur away h d

  -- While a package is the current one, its hashes come from lines below it.
  abbrev Grows : List Text → Type 0
  Grows l =
      (s : Scan)
      → s.current ≡ some k
      → has_entry k s.entries ≡ true
      → no_duplicate (scan_lines p l s).duplicates ≡ true
      → 0 < hashes_of k (scan_lines p l s).entries
      → (0 < hashes_of k s.entries) ⊎ HasHash p l

  below :
      (raw : Text) (l : List Text) (s : Scan)
      → ((name : Text) → IsRequirement p raw name → ⊥)
      → (0 < hashes_of k s.entries) ⊎ HasHash p l
      → (0 < hashes_of k s.entries) ⊎ HasHash p (raw ∷ l)
  below raw l s no_req (inl h) = inl h
  below raw l s no_req (inr h) = inr (no_req, inr h)

  Grows-after :
      (raw : Text) (l : List Text) (s t : Scan)
      → Grows l
      → Effect p raw s t
      → s.current ≡ some k
      → has_entry k s.entries ≡ true
      → no_duplicate (scan_lines p l t).duplicates ≡ true
      → 0 < hashes_of k (scan_lines p l t).entries
      → (0 < hashes_of k s.entries) ⊎ HasHash p (raw ∷ l)
  unfolding scan_requirement
  Grows-after raw l s t rest (skipped b) cur h d pos =
      below raw l s (λ name r. cc (r.0, b)) (rest s cur h d pos)
  Grows-after raw l s t rest (required name r) cur h d pos =
      let j = package_of name in
      let n = p.hashes (strip raw) in
      let apart = apart_required l s j n h d in
      let same =
        frozen l (scan_requirement j n s) j refl apart (Effect-has p raw k s _ (required name r) h)
          d
        ∙ hashes_of-set_other k j n apart s.entries in
      inl (subst (λ x. 0 < x) same pos)
  Grows-after raw l s t rest (added c b o n e) cur h d pos =
      inr ((λ name r. cc (r.1, o)), inl (b, n))
  Grows-after raw l s t rest (ignored n b o) cur h d pos =
      below raw l s (λ name r. cc (r.1, o)) (rest _ cur h d pos)

  grows : (l : List Text) → Grows l
  unfolding scan_lines
  grows [] s cur h d pos = inl pos
  grows (raw ∷ l) s cur h d pos =
      Grows-after raw l s (scan_line p raw s) (grows l) (scan_line-Effect p raw s) cur h d pos

  -- No later requirement is of a package that has an entry.
  alone :
      (l : List Text) (s : Scan)
      → has_entry k s.entries ≡ true
      → no_duplicate (scan_lines p l s).duplicates ≡ true
      → All (λ r. (n : Text) → IsRequirement p r n → package_of n ≢ k) l
  unfolding scan_lines
  alone [] s h d = tt
  alone (raw ∷ l) s h d = (
    λ n r e.
        let d' =
          subst (λ t. no_duplicate (scan_lines p l t).duplicates ≡ true)
            (scan_line-requirement p raw n s r) d in
        let apart = apart_required l s (package_of n) (p.hashes (strip raw)) h d' in
        cc (text_eq_refl k, (subst (λ x. text_eq x k ≡ false) e apart)),
    alone l (scan_line p raw s) (Effect-has p raw k s _ (scan_line-Effect p raw s) h) d,
  )

hashed :
    (k : Text) (l : Entries) → has_entry k l ≡ true → all is_hashed l ≡ true → 0 < hashes_of k l
unfolding has_entry all is_hashed hashes_of
hashed k [] h a = cc
hashed k ((i, n) ∷ l) h a = elim (Bool-cases (text_eq i k)) [
  | inl e ↦ rw e (ground arith)
  | inr e ↦ rw e (hashed k l (ground arith) (ground arith))
]

module _ (p : Patterns) where
  -- A requirement after which the scan goes on to an end with hashes everywhere and no duplicate.
  scan_requirement-below :
      (l : List Text) (s : Scan) (k : Text) (n : ℕ)
      → no_duplicate (scan_lines p l (scan_requirement k n s)).duplicates ≡ true
      → all is_hashed (scan_lines p l (scan_requirement k n s)).entries ≡ true
      → ((0 < n) ⊎ HasHash p l) × All (λ r. (m : Text) → IsRequirement p r m → package_of m ≢ k) l
  unfolding scan_requirement
  scan_requirement-below l s k n d a =
      let t = scan_requirement k n s in
      let has = set_entry-has k n s.entries in
      let pos = hashed k (scan_lines p l t).entries (scan_lines-has p k l t has) a in
      (
        elim (grows p k l t refl has d pos) [
          | inl h ↦ inl (subst (λ x. 0 < x) (hashes_of-set k n s.entries) h)
          | inr h ↦ inr h
        ],
        alone p k l t has d,
      )

  lines-IsSealed :
      (l : List Text) (s : Scan)
      → no_duplicate (scan_lines p l s).duplicates ≡ true
      → all is_hashed (scan_lines p l s).entries ≡ true
      → IsSealed p l
  unfolding scan_lines
  lines-IsSealed [] s d a = tt
  lines-IsSealed (raw ∷ l) s d a = (
    λ name r.
        let line = scan_line-requirement p raw name s r in
        scan_requirement-below l s (package_of name) (p.hashes (strip raw))
          (subst (λ t. no_duplicate (scan_lines p l t).duplicates ≡ true) line d)
          (subst (λ t. all is_hashed (scan_lines p l t).entries ≡ true) line a),
    lines-IsSealed l (scan_line p raw s) d a,
  )

lock_ok_lem :
    (s : Scan)
    → lock_ok s ≡ true
    → (no_duplicate s.duplicates ≡ true) × (all is_hashed s.entries ≡ true)
unfolding lock_ok
lock_ok_lem s h = (ground arith, ground arith)

-- In a lock that passes, each line that is an exact requirement has a hash, on the line or on one below it
-- before the next requirement, and no other requirement is of the same package.
pub requirements_lock_state-IsSealed :
    (p : Patterns) (t : Text)
    → requirements_lock_state p (read t) ≡ result true
    → IsSealed p (p.splitlines t)
unfolding requirements_lock_state
requirements_lock_state-IsSealed p t h =
    let (d, a) = lock_ok_lem (scan_lines p (p.splitlines t) start) cc in
    lines-IsSealed p (p.splitlines t) start d a
