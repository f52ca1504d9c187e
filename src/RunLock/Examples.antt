-- ===== src/RunLock/Examples.antt =====
-- orchestrator/runlock.py: taking over the lock of a process that is gone, and releasing it.
use agi_inspired.Prelude.{ℕ, ◌≡◌, refl}
use agi_inspired.Prelude.Text.{codes}
use agi_inspired.Scheduler.Recovery.{Inspection, absent}
use agi_inspired.RunLock.Held.{
  Lock, Others, removed_at, acquired, read_lock, lock_of, filled, positive, same_process, written,
  second_attempt, owner_is_same_process, is_stale, reclaim, acquire,
}
use agi_inspired.RunLock.Reclaim.{WasReclaimable, acquire-WasReclaimable}
use agi_inspired.Prelude.{◌+◌, ◌≢◌, arith, zero, suc, [], ◌∷◌, true, ap}
use agi_inspired.Prelude.Text.{Text}
use agi_inspired.RunLock.Race.{
  System, Reach, start, then_step, creates, gives_up, ready, holding, move, two_holders,
  mutual_exclusion,
}

abbrev mine : Lock
mine = record { pid = 7; started_at = 5000; process_start_id = codes "p7"; lock_id = codes "a" }

abbrev dead : Lock
dead = record { pid = 3; started_at = 100; process_start_id = codes "p3"; lock_id = codes "b" }

abbrev all_gone : ℕ → Inspection
all_gone pid = absent

abbrev untouched : Others
untouched = record { after_open = λ f. f; after_judgement = λ f. f; after_removal = λ f. f }

takes_over : (acquire all_gone 5000 untouched mine (written dead)).1 ≡ acquired
unfolding acquire written read_lock lock_of filled positive reclaim is_stale owner_is_same_process
    same_process second_attempt removed_at
takes_over = refl

acquire-WasReclaimable_example :
    WasReclaimable all_gone 5000 untouched mine (written dead)
    × ((acquire all_gone 5000 untouched mine (written dead)).0 ≡ written mine)
acquire-WasReclaimable_example =
    acquire-WasReclaimable all_gone 5000 untouched mine (written dead) takes_over

-- Processes that differ in their lock ids; the process of number `i` has the pid `i + 1`.
marks : ℕ → Text
marks zero = 1 ∷ []
marks (suc n) = 0 ∷ marks n

marks-injective : (i j : ℕ) → marks i ≡ marks j → i ≡ j
unfolding marks
marks-injective zero zero e = refl
marks-injective zero (suc j) e = absurd (cc e)
marks-injective (suc i) zero e = absurd (cc e)
marks-injective (suc i) (suc j) e =
    let rest : marks i ≡ marks j = cc e in ap suc (marks-injective i j rest)

abbrev crowd : ℕ → Lock
crowd i = record { pid = i + 1; started_at = 5000; process_start_id = codes "p"; lock_id = marks i }

abbrev SeesAllGone : (ℕ → Inspection) → ℕ → Type 0
SeesAllGone inspect now = (inspect ≡ all_gone) × (now ≡ 5000)

is_stale-dead : is_stale all_gone 5000 dead ≡ true
unfolding is_stale owner_is_same_process same_process
is_stale-dead = refl

two_holders_example :
    (s : System) × Reach crowd SeesAllGone (ready crowd SeesAllGone (written dead)) s
    × (s.phase 0 ≡ holding)
    × (s.phase 1 ≡ holding)
unfolding written read_lock lock_of filled positive
two_holders_example =
    two_holders crowd SeesAllGone all_gone 5000 dead (written dead) (refl, refl) refl is_stale-dead

marks-filled : (i : ℕ) → marks i ≢ []
unfolding marks
marks-filled zero e = cc e
marks-filled (suc n) e = cc e

mutual_exclusion_example : ◌≡◌ {A = ℕ} 0 0
unfolding move written
mutual_exclusion_example =
    mutual_exclusion crowd (λ i. (omega arith, (λ e. cc e), marks-filled i)) marks-injective
      (then_step (then_step start (creates 0 refl refl)) (gives_up 1 refl (λ e. cc e))) 0 0 refl
      refl
