-- ===== src/Ledger/Keys.antt =====
-- The keys of the table `tasks`, and how the shared SQL of orchestrator/ledger.py meets them.
use agi_inspired.Prelude.{
  ℕ, ◌+◌, ◌≤◌, ◌≡◌, none, some, List, [], ◌∷◌, ◌++◌, ◌==◌, if◌then◌else◌, refl, arith,
}
use mathlib.Core.Option
use agi_inspired.Ledger.Rows.{Task, Ledger, update_row, find_row}

-- Ids rise from row to row, from `lo` on, and stay below `hi`.
abbrev pub Keyed : ℕ → ℕ → List Task → Type 0
Keyed lo hi [] = lo ≤ hi
Keyed lo hi (t ∷ ts) = (lo ≤ t.task_id) × Keyed (t.task_id + 1) hi ts

-- The table has a primary key, and the next key is fresh.
abbrev pub IsKeyed : Ledger → Type 0
IsKeyed l = Keyed 0 l.next_id l.tasks

-- A change of a row that keeps its key.
abbrev pub KeepsId : (Task → Task) → Type 0
KeepsId f = (t : Task) → (f t).task_id ≡ t.task_id

pub update_row-Keyed :
    (id : ℕ) (f : Task → Task) (lo hi : ℕ) (ts : List Task)
    → KeepsId f
    → Keyed lo hi ts
    → Keyed lo hi (update_row id f ts)
unfolding update_row
update_row-Keyed id f lo hi [] k h = h
update_row-Keyed id f lo hi (t ∷ ts) k h =
    ground (arith, k t, update_row-Keyed id f (t.task_id + 1) hi ts k h.1)

pub append-Keyed :
    (lo hi : ℕ) (ts : List Task) (t : Task)
    → t.task_id ≡ hi
    → Keyed lo hi ts
    → Keyed lo (hi + 1) (ts ++ t ∷ [])
append-Keyed lo hi [] t e h = omega arith
append-Keyed lo hi (u ∷ us) t e h = (h.0, append-Keyed (u.task_id + 1) hi us t e h.1)

pub find_row-update_row :
    (id j : ℕ) (f : Task → Task) (ts : List Task)
    → KeepsId f
    → find_row j (update_row id f ts)
      ≡ (if j == id then Option.map f (find_row j ts) else find_row j ts)
unfolding find_row update_row
find_row-update_row id j f [] k = ground arith
find_row-update_row id j f (t ∷ ts) k = ground (arith, k t, find_row-update_row id j f ts k)

pub find_row-append :
    (j : ℕ) (ts us : List Task)
    → find_row j (ts ++ us) ≡ elim (find_row j ts) [ none ↦ find_row j us | some t ↦ some t ]
unfolding find_row
find_row-append j [] us = refl
find_row-append j (t ∷ ts) us = ground (arith, find_row-append j ts us)

Keyed-le : (lo hi : ℕ) (ts : List Task) → Keyed lo hi ts → lo ≤ hi
Keyed-le lo hi [] h = h
Keyed-le lo hi (t ∷ ts) h = omega (arith, Keyed-le (t.task_id + 1) hi ts h.1)

-- The next key is no row's.
pub find_row-fresh : (lo hi j : ℕ) (ts : List Task) → Keyed lo hi ts → hi ≤ j → find_row j ts ≡ none
unfolding find_row
find_row-fresh lo hi j [] h le = refl
find_row-fresh lo hi j (t ∷ ts) h le =
    ground
      (arith, find_row-fresh (t.task_id + 1) hi j ts h.1 le, Keyed-le (t.task_id + 1) hi ts h.1)

find_row-keyed_at : (id : ℕ) (ts : List Task) (t : Task) → find_row id ts ≡ some t → t.task_id ≡ id
unfolding find_row
find_row-keyed_at id [] t h = cc
find_row-keyed_at id (u ∷ us) t h = ground (arith, find_row-keyed_at id us t)

-- An update of one row leaves every other row, and changes that one by the update's function.
pub find_row-update_self :
    (id : ℕ) (f : Task → Task) (ts : List Task) (t : Task)
    → KeepsId f
    → find_row id ts ≡ some t
    → find_row id (update_row id f ts) ≡ some (f t)
find_row-update_self id f ts t k h = rw (find_row-update_row id id f ts k, h) (ground arith)
