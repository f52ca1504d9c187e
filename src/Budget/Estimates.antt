-- ===== src/Budget/Estimates.antt =====
-- orchestrator/policy.py: what an estimate stands on, what admission keeps, and the counting of calls.
use agi_inspired.Prelude.{
  ℕ, ◌≤◌, ◌<◌, Option, none, some, List, [], ◌∷◌, All, Any, leb, keep, ◌≡◌, ◌⊎◌, inl, inr, refl,
  Bool-cases, Option-cases, arith, subst,
}
use agi_inspired.Prelude.Text.{Text}
use agi_inspired.Ledger.Rows.{Task, find_row}
use agi_inspired.Budget.Limits.{
  spend, is_peer, larger, max_spend, if_positive, own_spend, estimated_tokens_for,
}

-- A spend of a list that no other exceeds.
abbrev pub IsLargest : ℕ → List Task → Type 0
IsLargest n ts = Any (λ t. spend t ≡ some n) ts × All (λ t. (m : ℕ) → spend t ≡ some m → m ≤ n) ts

-- Whether a list has no spend at all.
abbrev pub IsUnknown : List Task → Type 0
IsUnknown ts = All (λ t. spend t ≡ none) ts

All-below :
    (ts : List Task) (a b : ℕ)
    → a ≤ b
    → All (λ t. (m : ℕ) → spend t ≡ some m → m ≤ a) ts
    → All (λ t. (m : ℕ) → spend t ≡ some m → m ≤ b) ts
All-below [] a b h k = tt
All-below (t ∷ ts) a b h k = ((λ m e. omega (arith, k.0 m e, h)), All-below ts a b h k.1)

unknown_below :
    (ts : List Task) (b : ℕ) → IsUnknown ts → All (λ t. (m : ℕ) → spend t ≡ some m → m ≤ b) ts
unknown_below [] b k = tt
unknown_below (t ∷ ts) b k = ((λ m e. cc (k.0, e)), unknown_below ts b k.1)

max_spend_lem :
    (ts : List Task)
    → (max_spend ts ≡ none) × IsUnknown ts ⊎ ((n : ℕ) × (max_spend ts ≡ some n) × IsLargest n ts)
unfolding max_spend larger
max_spend_lem [] = inl (refl, tt)
max_spend_lem (t ∷ ts) = elim (Option-cases (spend t)) [
  | inl e ↦ elim (max_spend_lem ts) [
    | inl (f, u) ↦ inl (rw (e, f) refl, (e, u))
    | inr (n, f, (some_one, below)) ↦
        inr (n, rw (e, f) refl, (inr some_one, ((λ m g. cc (e, g)), below)))
  ]
  | inr (a, e) ↦ elim (max_spend_lem ts) [
    | inl (f, u) ↦ inr (a, rw (e, f) refl, (inl e, ((λ m g. ground arith), unknown_below ts a u)))
    | inr (n, f, (some_one, below)) ↦ elim (Bool-cases (leb a n)) [
      | inl g ↦ inr (n, rw (e, f, g) refl, (inr some_one, ((λ m k. ground arith), below)))
      | inr g ↦ inr (
        a,
        rw (e, f, g) refl,
        (inl e, ((λ m k. ground arith), All-below ts n a (ground arith) below)),
      )
    ]
  ]
]

if_positive_lem : (o : Option ℕ) (n : ℕ) → if_positive o ≡ some n → (o ≡ some n) × (0 < n)
unfolding if_positive
if_positive_lem none n h = cc
if_positive_lem (some m) n h = ground arith

own_spend_lem :
    (o : Option Task) (n : ℕ)
    → own_spend o ≡ some n
    → ((t : Task) × (o ≡ some t) × (spend t ≡ some n) × (0 < n))
unfolding own_spend
own_spend_lem none n h = cc
own_spend_lem (some t) n h = let (e, pos) = if_positive_lem (spend t) n h in (t, refl, e, pos)

-- An estimate is positive, and is either what the task's own row spent, or, where that row has no
-- spend, the largest spend among the settled tasks of the mission in the last three weeks.
pub estimated_tokens_for_lem :
    (now id : ℕ) (mission : Text) (tasks : List Task) (n : ℕ)
    → estimated_tokens_for now id mission tasks ≡ some n
    → (0 < n)
      × (((t : Task) × (find_row id tasks ≡ some t) × (spend t ≡ some n))
          ⊎ (own_spend (find_row id tasks) ≡ none) × IsLargest n (keep (is_peer now mission) tasks))
unfolding estimated_tokens_for
estimated_tokens_for_lem now id mission tasks n h =
    elim (Option-cases (own_spend (find_row id tasks))) [
      | inl e ↦
          let (f, pos) =
            if_positive_lem (max_spend (keep (is_peer now mission) tasks)) n (ground arith) in
          elim (max_spend_lem (keep (is_peer now mission) tasks)) [
            | inl (g, u) ↦ absurd (cc (g, f))
            | inr (m, g, largest) ↦
                let same : m ≡ n = cc (g, f) in
                (
                  pos,
                  inr (e, subst (λ k. IsLargest k (keep (is_peer now mission) tasks)) same largest),
                )
          ]
      | inr (m, e) ↦
          let (t, f, s, pos) = own_spend_lem (find_row id tasks) n (ground arith) in
          (pos, inl (t, f, s))
    ]
