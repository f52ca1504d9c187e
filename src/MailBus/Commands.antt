-- ===== src/MailBus/Commands.antt =====
-- orchestrator/mailbus.py: the patterns that look like execution commands, and the rewriting of a message
-- that has one. White space, case and word boundaries are those of ASCII.
use agi_inspired.Prelude.{
  ℕ, Bool, true, false, not, ◌&&◌, ◌||◌, Option, none, some, List, [], ◌∷◌, ◌++◌, ◌==◌, leb, any,
  take, if◌then◌else◌, ◌≡◌, refl,
}
use agi_inspired.Prelude.Text.{Text, codes, lower, lower_code, starts_with, strip_left, is_space}
use agi_inspired.MailBus.Message.{Value, text, Message, get}

-- `\w`
unfoldable pub is_word : ℕ → Bool
is_word c = (leb 48 c && leb c 57) || (leb 65 c && leb c 90) || (leb 97 c && leb c 122) || c == 95

-- What follows the literal text of a pattern: `\s*\(`, `\s*[=:]\s*(?:off|false|0|disable)`, or nothing.
pub data Tail : Type 0 where
  call switched_off anything : Tail

-- A pattern: whether it starts with `\b`, its literal text and its tail.
pub record Pattern : Type 0 where
  pub bounded : Bool
  pub literal : Text
  pub tail : Tail

unfoldable pub switched : Text → Bool
unfolding starts_with strip_left is_space
switched [] = false
switched (c ∷ t) =
    (c == 61 || c == 58)
    && any (starts_with (strip_left t))
        (codes "off" ∷ codes "false" ∷ codes "0" ∷ codes "disable" ∷ [])

unfoldable pub tail_matches : Tail → Text → Bool
unfolding starts_with strip_left is_space switched
tail_matches call t = starts_with (strip_left t) (codes "(")
tail_matches switched_off t = switched (strip_left t)
tail_matches anything t = true

-- What of a text follows a prefix.
unfoldable pub after_prefix : Text → Text → Option Text
after_prefix [] t = some t
after_prefix (p ∷ ps) [] = none
after_prefix (p ∷ ps) (c ∷ t) = let rest = after_prefix ps t in if p == c then rest else none

unfoldable pub tail_after : Tail → Option Text → Bool
unfolding tail_matches
tail_after tail none = false
tail_after tail (some t) = tail_matches tail t

-- The pattern at one place of a text; `before` says whether a word character stands before it.
unfoldable pub matches_here : Pattern → Bool → Text → Bool
unfolding tail_after after_prefix
matches_here p before t = not (p.bounded && before) && tail_after p.tail (after_prefix p.literal t)

-- `p.search(text)` of a text in lower case. Every literal starts with a word character or has no `\b`.
unfoldable pub search_from : Pattern → Bool → Text → Bool
unfolding matches_here is_word
search_from p before [] = matches_here p before []
search_from p before (c ∷ t) = matches_here p before (c ∷ t) || search_from p (is_word c) t

-- _INTERCEPT_PATTERNS, in lower case; `exec(?:ute)?_mission` is two of them.
unfoldable pub intercept_patterns : List Pattern
intercept_patterns =
    record { bounded = true; literal = codes "run_task"; tail = call }
    ∷ record { bounded = true; literal = codes "exec_mission"; tail = call }
    ∷ record { bounded = true; literal = codes "execute_mission"; tail = call }
    ∷ record { bounded = true; literal = codes "dispatch"; tail = call }
    ∷ record { bounded = true; literal = codes "estop"; tail = switched_off }
    ∷ record { bounded = true; literal = codes "authorize_single_paused_canary"; tail = call }
    ∷ record { bounded = false; literal = codes "--controlled-window"; tail = anything }
    ∷ record { bounded = true; literal = codes "databasemutationguard"; tail = switched_off }
    ∷ []

unfoldable pub contains_execution_command : Text → Bool
unfolding intercept_patterns search_from lower lower_code
contains_execution_command body = any (λ p. search_from p false (lower body)) intercept_patterns

-- The text of a value that has passed the schema.
unfoldable pub text_of : Value → Text
text_of (text t) = t
text_of _ = []

abbrev pub operator : Text
operator = codes "operator"

-- The message as `send` rewrites it, for the operator.
unfoldable pub intercepted : Message → Message
unfolding text_of get
intercepted m = record m {
  body = some (
      text (
        codes
          "[INTERCEPTED — original body contained execution commands]\n\nThe following message was flagged as containing mission-execution or ESTOP-bypass patterns and has been rewritten as a passive proposal to the Operator for review:\n\nOriginal subject: "
        ++ text_of (get m.subject)
        ++ codes "\n\nOriginal body (first 500 chars):\n"
        ++ take 500 (text_of (get m.body))));
  subject = some (text (codes "[INTERCEPTED] " ++ text_of (get m.subject)));
  to = some (text operator);
}

-- The message as the router rewrites it.
unfoldable pub intercepted_at_router : Message → Message
unfolding text_of get
intercepted_at_router m = record m {
  body = some (
      text (
        codes "[INTERCEPTED at router boundary]\n\nOriginal body (first 500 chars):\n"
        ++ take 500 (text_of (get m.body))));
  subject = some (text (codes "[INTERCEPTED] " ++ text_of (get m.subject)));
  to = some (text operator);
}

abbrev c_test : Text → Bool
unfolding contains_execution_command
c_test = contains_execution_command

calls_a_task : c_test (codes "please Run_Task (7)") ≡ true
unfolding search_from matches_here is_word tail_after after_prefix tail_matches intercept_patterns
    lower lower_code starts_with strip_left is_space any contains_execution_command
calls_a_task = refl

a_longer_word : c_test (codes "rerun_task(7)") ≡ false
unfolding search_from matches_here is_word tail_after after_prefix tail_matches intercept_patterns
    lower lower_code starts_with strip_left is_space any contains_execution_command switched
a_longer_word = refl

switches_the_stop_off : c_test (codes "ESTOP = off") ≡ true
unfolding search_from matches_here is_word tail_after after_prefix tail_matches intercept_patterns
    lower lower_code starts_with strip_left is_space any contains_execution_command switched
switches_the_stop_off = refl
