-- ===== src/Admission/Dependencies.antt =====
-- orchestrator/dependency_integrity.py: the lock of the requirements and the flags of the bootstrap.
use agi_inspired.Prelude.{
  ℕ, suc, ◌+◌, Bool, true, false, not, ◌&&◌, ◌||◌, Option, none, some, List, [], ◌∷◌, ◌++◌, all,
  ltb, ◌==◌, map, if◌then◌else◌,
}
use agi_inspired.Prelude.Text.{Text, codes, text_eq, lower, strip, starts_with, has_part}
use agi_inspired.Egress.Load.{is_empty}

-- A file's text: an `OSError`, bytes that are no UTF-8, or the text.
pub data Reading : Type 0 where
  os_error undecodable : Reading
  read : Text → Reading

-- What is used of Python on texts: `splitlines`, the first group of `_REQUIREMENT_RE.match` (`none`
-- without a match), and how often `_HASH_RE` is found.
pub record Patterns : Type 0 where
  pub splitlines : Text → List Text
  pub requirement : Text → Option Text
  pub hashes : Text → ℕ

-- The answer of a check: an exception, or the field `ok` of its result.
pub data Answer : Type 0 where
  raises : Answer
  result : Bool → Answer

unfoldable pub dashed_code : ℕ → ℕ
dashed_code c = if c == 95 then 45 else c

-- `match.group(1).lower().replace("_", "-")`
unfoldable pub package_of : Text → Text
unfolding lower dashed_code
package_of t = map dashed_code (lower t)

-- The entries in the order in which their keys came, each with its number of hashes.
abbrev pub Entries : Type 0
Entries = List (Text × ℕ)

unfoldable pub set_entry : Text → ℕ → Entries → Entries
unfolding text_eq
set_entry k n [] = (k, n) ∷ []
set_entry k n ((j, m) ∷ l) =
    let rest = set_entry k n l in if text_eq j k then (j, n) ∷ l else (j, m) ∷ rest

unfoldable pub add_hashes : Text → ℕ → Entries → Entries
unfolding text_eq
add_hashes k n [] = []
add_hashes k n ((j, m) ∷ l) =
    let rest = add_hashes k n l in if text_eq j k then (j, m + n) ∷ l else (j, m) ∷ rest

unfoldable pub has_entry : Text → Entries → Bool
unfolding text_eq
has_entry k [] = false
has_entry k ((j, m) ∷ l) = text_eq j k || has_entry k l

-- The variables of the loop; of the malformed lines only their number is kept.
pub record Scan : Type 0 where
  pub entries : Entries
  pub current : Option Text
  pub duplicates : List Text
  pub malformed : ℕ

unfoldable pub scan_requirement : Text → ℕ → Scan → Scan
unfolding set_entry has_entry
scan_requirement pkg n s = record {
  entries = set_entry pkg n s.entries;
  current = some pkg;
  duplicates = if has_entry pkg s.entries then s.duplicates ++ (pkg ∷ []) else s.duplicates;
  malformed = s.malformed;
}

-- A line that is no requirement and has no hash to add: an option is refused, anything else only
-- before the first requirement.
unfoldable pub scan_other : Text → Scan → Option Text → Scan
unfolding starts_with
scan_other line s none = record s { malformed = suc s.malformed }
scan_other line s (some k) =
    if starts_with line (codes "--") then record s { malformed = suc s.malformed } else s

unfoldable pub scan_hashes : Text → ℕ → Scan → Option Text → Scan
unfolding scan_other add_hashes
scan_hashes line n s none = scan_other line s none
scan_hashes line n s (some k) =
    if ltb 0 n && not (is_empty k)
    then record s { entries = add_hashes k n s.entries }
    else scan_other line s (some k)

unfoldable pub scan_match : Patterns → Text → Scan → Option Text → Scan
unfolding scan_requirement scan_hashes package_of
scan_match p line s (some name) = scan_requirement (package_of name) (p.hashes line) s
scan_match p line s none = scan_hashes line (p.hashes line) s s.current

unfoldable pub scan_line : Patterns → Text → Scan → Scan
unfolding scan_match starts_with
scan_line p raw s =
    let line = strip raw in
    if is_empty line || starts_with line (codes "#")
    then s
    else scan_match p line s (p.requirement line)

unfoldable pub scan_lines : Patterns → List Text → Scan → Scan
unfolding scan_line
scan_lines p [] s = s
scan_lines p (raw ∷ l) s = scan_lines p l (scan_line p raw s)

abbrev pub start : Scan
start = record { entries = []; current = none; duplicates = []; malformed = 0 }

unfoldable pub is_hashed : Text × ℕ → Bool
is_hashed (k, n) = ltb 0 n

unfoldable pub no_duplicate : List Text → Bool
no_duplicate [] = true
no_duplicate (k ∷ l) = false

unfoldable pub some_entry : Entries → Bool
some_entry [] = false
some_entry (e ∷ l) = true

unfoldable pub lock_ok : Scan → Bool
unfolding is_hashed no_duplicate some_entry has_entry
lock_ok s =
    some_entry s.entries
    && all is_hashed s.entries
    && no_duplicate s.duplicates
    && s.malformed == 0
    && not (has_entry (codes "hermes-agent") s.entries)

-- `requirements_lock_state`; a byte order mark is taken off by the reading.
unfoldable pub requirements_lock_state : Patterns → Reading → Answer
unfolding lock_ok scan_lines
requirements_lock_state p os_error = result false
requirements_lock_state p undecodable = raises
requirements_lock_state p (read t) = result (lock_ok (scan_lines p (p.splitlines t) start))

abbrev pub bootstrap_flags : List Text
bootstrap_flags = codes "--require-hashes" ∷ codes "--no-deps" ∷ codes "--no-input" ∷ []

-- `bootstrap_hash_enforcement_state`
unfoldable pub bootstrap_hash_enforcement_state : Reading → Answer
unfolding has_part
bootstrap_hash_enforcement_state os_error = result false
bootstrap_hash_enforcement_state undecodable = raises
bootstrap_hash_enforcement_state (read t) = result (all (has_part t) bootstrap_flags)
