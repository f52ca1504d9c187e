-- ===== src/Trajectory/Examples.antt =====
-- orchestrator/trajectory.py: a file on concrete data.
use agi_inspired.Prelude.{true, false, some, List, [], ◌∷◌, ◌≡◌, refl, if◌then◌else◌}
use agi_inspired.Prelude.Text.{Text, codes, text_eq, strip}
use agi_inspired.Trajectory.Chain.{
  hash, genesis_hash, Event, malformed, event, Json, Log, verify_chain,
}
use agi_inspired.Trajectory.Writer.{unended, new_writer, emit}
use agi_inspired.Trajectory.Extended.{IsChain, AllRead, emit_all, empty_log, emit_all-IsChain}
use agi_inspired.Trajectory.Broken.{cut_for_good}

-- JSON that reads nothing.
abbrev deaf : Json
deaf = record {
  loads = λ t. malformed;
  dumps = λ e. e.rest;
  canonical = λ e. e.rest;
  sha256 = λ t. 35 ∷ t;
  is_true = λ n. true;
}

abbrev cut_log : Log
cut_log = record { lines = codes "a\n" ∷ []; tail = codes "{" }

cut_for_good_example :
    verify_chain deaf
      (emit_all deaf (codes "b" ∷ codes "c" ∷ []) (new_writer deaf 1 cut_log, cut_log)).1
    ≡ false
unfolding unended strip
cut_for_good_example =
    cut_for_good deaf 1 cut_log (codes "b") (codes "c" ∷ []) refl ((λ e. cc e), refl)

abbrev first_event : Event
first_event = record {
  task_id = some 1;
  sequence = some 1;
  prev_event_hash = hash genesis_hash;
  event_hash = hash (codes "#a");
  rest = codes "a";
}

abbrev second_event : Event
second_event = record {
  task_id = some 1;
  sequence = some 2;
  prev_event_hash = hash (codes "#a");
  event_hash = hash (codes "#b");
  rest = codes "b";
}

-- JSON that reads the two events.
abbrev two_lines : Json
two_lines = record {
  loads = λ t. if text_eq t (codes "{a\n") then event first_event else event second_event;
  dumps = λ e. 123 ∷ e.rest;
  canonical = λ e. e.rest;
  sha256 = λ t. 35 ∷ t;
  is_true = λ n. true;
}

abbrev two_fields : List Text
two_fields = codes "a" ∷ codes "b" ∷ []

two_fields-AllRead : AllRead two_lines two_fields (new_writer two_lines 1 empty_log, empty_log)
unfolding new_writer emit strip text_eq
two_fields-AllRead = (
  record { reads = refl; filled = λ e. cc e; digest = λ e. cc e },
  (record { reads = refl; filled = λ e. cc e; digest = λ e. cc e }, tt),
)

emit_all-IsChain_example :
    IsChain
      (two_lines)
      (emit_all two_lines two_fields (new_writer two_lines 1 empty_log, empty_log))
emit_all-IsChain_example = emit_all-IsChain two_lines 1 two_fields two_fields-AllRead
