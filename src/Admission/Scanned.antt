-- ===== src/Admission/Scanned.antt =====
-- orchestrator/dependency_integrity.py: what a line does to the variables of the scan of a lock.
use agi_inspired.Prelude.{
  ℕ, suc, ◌<◌, not, Bool, true, false, ◌&&◌, ◌||◌, Option, none, some, List, [], ◌∷◌, ◌++◌, ◌≡◌,
  inl, inr, refl, ap, ◌∙◌, arith, Bool-cases, ltb, if◌then◌else◌,
}
use agi_inspired.Prelude.Text.{
  Text, codes, text_eq, text_eq_refl, text_eq_sound, strip, starts_with,
}
use agi_inspired.Egress.Load.{is_empty}
use agi_inspired.Admission.Dependencies.{
  Patterns, package_of, Entries, set_entry, add_hashes, has_entry, Scan, scan_requirement,
  scan_other, scan_hashes, scan_match, scan_line, scan_lines, no_duplicate,
}

abbrev pub is_blank : Text → Bool
is_blank raw = is_empty (strip raw) || starts_with (strip raw) (codes "#")

-- A line that is neither blank nor a comment and matches an exact requirement of a package.
abbrev pub IsRequirement : Patterns → Text → Text → Type 0
IsRequirement p raw name = (is_blank raw ≡ false) × (p.requirement (strip raw) ≡ some name)

-- What a line does to a scan.
pub data Effect (p : Patterns) (raw : Text) (s : Scan) : Scan → Type 0 where
  skipped : is_blank raw ≡ true → Effect p raw s s
  required :
      (name : Text)
      → IsRequirement p raw name
      → Effect p raw s (scan_requirement (package_of name) (p.hashes (strip raw)) s)
  added :
      (c : Text)
      → is_blank raw ≡ false
      → p.requirement (strip raw) ≡ none
      → 0 < p.hashes (strip raw)
      → s.current ≡ some c
      → Effect p raw s (record s { entries = add_hashes c (p.hashes (strip raw)) s.entries })
  ignored :
      (n : ℕ)
      → is_blank raw ≡ false
      → p.requirement (strip raw) ≡ none
      → Effect p raw s (record s { malformed = n })

module _ (p : Patterns) (raw : Text) (s : Scan) (full : is_blank raw ≡ false)
    (other : p.requirement (strip raw) ≡ none) where
  other-Effect : (c : Option Text) → Effect p raw s (scan_other (strip raw) s c)
  unfolding scan_other
  other-Effect none = ignored (suc s.malformed) full other
  other-Effect (some k) = elim (Bool-cases (starts_with (strip raw) (codes "--"))) [
    | inl e ↦ rw e (ignored (suc s.malformed) full other)
    | inr e ↦ rw e (ignored s.malformed full other)
  ]

  hashes-Effect :
      (c : Option Text)
      → s.current ≡ c
      → Effect p raw s (scan_hashes (strip raw) (p.hashes (strip raw)) s c)
  unfolding scan_hashes
  hashes-Effect none e = other-Effect none
  hashes-Effect (some k) e = elim (Bool-cases (ltb 0 (p.hashes (strip raw)) && not (is_empty k))) [
    | inl y ↦ rw y (added k full other (ground arith) e)
    | inr n ↦ rw n (other-Effect (some k))
  ]

match-Effect :
    (p : Patterns) (raw : Text) (s : Scan) (o : Option Text)
    → is_blank raw ≡ false
    → p.requirement (strip raw) ≡ o
    → Effect p raw s (scan_match p (strip raw) s o)
unfolding scan_match
match-Effect p raw s (some name) full e = required name (full, e)
match-Effect p raw s none full e = hashes-Effect p raw s full e s.current refl

pub scan_line-Effect : (p : Patterns) (raw : Text) (s : Scan) → Effect p raw s (scan_line p raw s)
unfolding scan_line
scan_line-Effect p raw s = elim (Bool-cases (is_blank raw)) [
  | inl e ↦ rw e (skipped e)
  | inr e ↦ rw e (match-Effect p raw s (p.requirement (strip raw)) e refl)
]

pub scan_line-requirement :
    (p : Patterns) (raw name : Text) (s : Scan)
    → IsRequirement p raw name
    → scan_line p raw s ≡ scan_requirement (package_of name) (p.hashes (strip raw)) s
unfolding scan_line scan_match
scan_line-requirement p raw name s (b, m) = rw (b, m) refl

-- The hashes of a package's entry.
unfoldable pub hashes_of : Text → Entries → ℕ
unfolding text_eq
hashes_of k [] = 0
hashes_of k ((j, m) ∷ l) = let rest = hashes_of k l in if text_eq j k then m else rest

pub hashes_of-set : (j : Text) (n : ℕ) (l : Entries) → hashes_of j (set_entry j n l) ≡ n
unfolding hashes_of set_entry
hashes_of-set j n [] = rw (text_eq_refl j) refl
hashes_of-set j n ((i, m) ∷ l) = elim (Bool-cases (text_eq i j)) [
  | inl e ↦ rw (e, e) refl
  | inr e ↦ rw (e, e) (hashes_of-set j n l)
]

pub set_entry-has : (j : Text) (n : ℕ) (l : Entries) → has_entry j (set_entry j n l) ≡ true
unfolding has_entry set_entry
set_entry-has j n [] = rw (text_eq_refl j) refl
set_entry-has j n ((i, m) ∷ l) = elim (Bool-cases (text_eq i j)) [
  | inl e ↦ rw (e, e) refl
  | inr e ↦ rw (e, e) (set_entry-has j n l)
]

module _ (k j : Text) (n : ℕ) (apart : text_eq j k ≡ false) where
  apart_from : (i : Text) → text_eq i j ≡ true → text_eq i k ≡ false
  apart_from i e = ap (λ t. text_eq t k) (text_eq_sound i j e) ∙ apart

  pub hashes_of-set_other : (l : Entries) → hashes_of k (set_entry j n l) ≡ hashes_of k l
  unfolding hashes_of set_entry
  hashes_of-set_other [] = rw apart refl
  hashes_of-set_other ((i, m) ∷ l) = elim (Bool-cases (text_eq i j)) [
    | inl e ↦ rw (e, apart_from i e) refl
    | inr e ↦ rw (e, hashes_of-set_other l) refl
  ]

  pub hashes_of-add_other : (l : Entries) → hashes_of k (add_hashes j n l) ≡ hashes_of k l
  unfolding hashes_of add_hashes
  hashes_of-add_other [] = refl
  hashes_of-add_other ((i, m) ∷ l) = elim (Bool-cases (text_eq i j)) [
    | inl e ↦ rw (e, apart_from i e) refl
    | inr e ↦ rw (e, hashes_of-add_other l) refl
  ]

module _ (k j : Text) (n : ℕ) where
  pub set_entry-keeps : (l : Entries) → has_entry k l ≡ true → has_entry k (set_entry j n l) ≡ true
  unfolding has_entry set_entry
  set_entry-keeps [] h = cc
  set_entry-keeps ((i, m) ∷ l) h = elim (Bool-cases (text_eq i j)) [
    | inl e ↦ rw e h
    | inr e ↦ elim (Bool-cases (text_eq i k)) [
      | inl f ↦ rw (e, f) refl
      | inr f ↦ rw (e, f) (set_entry-keeps l (ground arith))
    ]
  ]

  pub add_hashes-keeps :
      (l : Entries) → has_entry k l ≡ true → has_entry k (add_hashes j n l) ≡ true
  unfolding has_entry add_hashes
  add_hashes-keeps [] h = cc
  add_hashes-keeps ((i, m) ∷ l) h = elim (Bool-cases (text_eq i j)) [
    | inl e ↦ rw e h
    | inr e ↦ elim (Bool-cases (text_eq i k)) [
      | inl f ↦ rw (e, f) refl
      | inr f ↦ rw (e, f) (add_hashes-keeps l (ground arith))
    ]
  ]

-- A package with an entry keeps it.
pub Effect-has :
    (p : Patterns) (raw k : Text) (s t : Scan)
    → Effect p raw s t
    → has_entry k s.entries ≡ true
    → has_entry k t.entries ≡ true
unfolding scan_requirement
Effect-has p raw k s _ (skipped b) h = h
Effect-has p raw k s _ (required name r) h =
    set_entry-keeps k (package_of name) (p.hashes (strip raw)) s.entries h
Effect-has p raw k s _ (added c b o n e) h = add_hashes-keeps k c (p.hashes (strip raw)) s.entries h
Effect-has p raw k s _ (ignored n b o) h = h

pub scan_lines-has :
    (p : Patterns) (k : Text) (l : List Text) (s : Scan)
    → has_entry k s.entries ≡ true
    → has_entry k (scan_lines p l s).entries ≡ true
unfolding scan_lines
scan_lines-has p k [] s h = h
scan_lines-has p k (raw ∷ l) s h =
    scan_lines-has p k l (scan_line p raw s) (Effect-has p raw k s _ (scan_line-Effect p raw s) h)

no_duplicate-append : (l : List Text) (k : Text) → no_duplicate (l ++ (k ∷ [])) ≡ false
unfolding no_duplicate
no_duplicate-append [] k = refl
no_duplicate-append (x ∷ l) k = refl

-- A second requirement of a package is a duplicate.
pub required-fresh :
    (k : Text) (n : ℕ) (s : Scan)
    → no_duplicate (scan_requirement k n s).duplicates ≡ true
    → (has_entry k s.entries ≡ false) × (no_duplicate s.duplicates ≡ true)
unfolding scan_requirement
required-fresh k n s h = elim (Bool-cases (has_entry k s.entries)) [
  | inl e ↦ absurd (ground (arith, no_duplicate-append s.duplicates k, rw e at h))
  | inr e ↦ (e, (rw e at h))
]

-- A scan that ends without a duplicate had none before.
pub scan_lines-no_duplicate :
    (p : Patterns) (l : List Text) (s : Scan)
    → no_duplicate (scan_lines p l s).duplicates ≡ true
    → no_duplicate s.duplicates ≡ true
unfolding scan_lines
scan_lines-no_duplicate p [] s h = h
scan_lines-no_duplicate p (raw ∷ l) s h =
    before (scan_line p raw s) (scan_line-Effect p raw s)
      (scan_lines-no_duplicate p l (scan_line p raw s) h)
  where
    before :
        (t : Scan)
        → Effect p raw s t
        → no_duplicate t.duplicates ≡ true
        → no_duplicate s.duplicates ≡ true
    before _ (skipped b) h = h
    before _ (required name r) h = (required-fresh (package_of name) (p.hashes (strip raw)) s h).1
    before _ (added c b o n e) h = h
    before _ (ignored n b o) h = h
