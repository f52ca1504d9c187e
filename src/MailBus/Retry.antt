-- ===== src/MailBus/Retry.antt =====
-- orchestrator/mailbus.py: the retry ladder for sharing violations, with the time that it sleeps.
use agi_inspired.Prelude.{ℕ, suc, ◌+◌, ◌*◌, ◌%◌, ◌≤◌, ◌<◌, List, [], ◌∷◌, ◌≡◌, arith}

-- How one call of the operation ends: it returns, it raises an OSError with winerror 5 or 32, or one
-- with another winerror.
pub data Attempt : Type 0 where
  ok sharing_violation other_error : Attempt

-- `True`, `False`, or the OSError that is raised again.
pub data Retried : Type 0 where
  succeeded exhausted raised : Retried

abbrev pub retry_ladder_ms : List ℕ
retry_ladder_ms = 10 ∷ 50 ∷ 200 ∷ []

abbrev pub retry_jitter_ms : ℕ
retry_jitter_ms = 5

-- One sleep, in microseconds: the jitter is a number of nanoseconds divided by 1000, and is added to
-- milliseconds.
unfoldable pub sleep_us : ℕ → ℕ → ℕ
sleep_us delay_ms time_ns = delay_ms * 1000 + time_ns % retry_jitter_ms

-- The rungs that are left, from attempt number `n` on: the end, and the microseconds slept. `clock`
-- is `time.time_ns()` at an attempt.
module _ (operation : ℕ → Attempt) (clock : ℕ → ℕ) where
  unfoldable pub after_attempt : ℕ → ℕ → List ℕ → Retried × ℕ → Attempt → Retried × ℕ
  after_attempt n delay rungs rest ok = (succeeded, 0)
  after_attempt n delay rungs rest other_error = (raised, 0)
  after_attempt n delay [] rest sharing_violation = (exhausted, 0)
  after_attempt n delay (next ∷ rungs) rest sharing_violation =
      (rest.0, sleep_us delay (clock n) + rest.1)

  unfoldable pub climb : ℕ → List ℕ → Retried × ℕ
  unfolding after_attempt
  climb n [] = (exhausted, 0)
  climb n (delay ∷ rungs) = after_attempt n delay rungs (climb (suc n) rungs) (operation n)

  -- `_retry_with_backoff`
  unfoldable pub retry_with_backoff : Retried × ℕ
  unfolding climb
  retry_with_backoff = climb 0 retry_ladder_ms

-- How the ladder ends with the outcomes of the three attempts, written without the ladder.
unfoldable pub three_attempts : Attempt → Attempt → Attempt → Retried
three_attempts ok b c = succeeded
three_attempts other_error b c = raised
three_attempts sharing_violation ok c = succeeded
three_attempts sharing_violation other_error c = raised
three_attempts sharing_violation sharing_violation ok = succeeded
three_attempts sharing_violation sharing_violation other_error = raised
three_attempts sharing_violation sharing_violation sharing_violation = exhausted

sleep_us-bound : (d t : ℕ) → sleep_us d t < d * 1000 + 5
unfolding sleep_us
sleep_us-bound d t = omega arith

-- The retry ladder runs the operation three times at most: it succeeds at the first attempt that returns,
-- unless an error other than a sharing violation came before, which is raised, and it gives up
-- after three sharing violations. It sleeps at most 60 milliseconds and 8 microseconds in all.
pub retry_with_backoff_lem :
    (operation : ℕ → Attempt) (clock : ℕ → ℕ)
    → ((retry_with_backoff operation clock).0
        ≡ three_attempts (operation 0) (operation 1) (operation 2))
      × ((retry_with_backoff operation clock).1 ≤ 60008)
unfolding retry_with_backoff climb after_attempt three_attempts
retry_with_backoff_lem operation clock =
    ground (arith, sleep_us-bound 10 (clock 0), sleep_us-bound 50 (clock 1))
