-- ===== src/MailBus/Examples.antt =====
-- orchestrator/mailbus.py: the mailboxes on concrete data.
use agi_inspired.Prelude.{
  if◌then◌else◌, ◌==◌, ◌≤◌, ℕ, zero, suc, ap, Bool, true, false, none, some, any, length, List, [],
  ◌∷◌, All, ◌≡◌, ◌≢◌, refl, sym, ◌∙◌, subst, arith, inl, inr,
}
use agi_inspired.Prelude.Text.{Text, codes, text_eq}
use agi_inspired.MailBus.Message.{
  replace_z, text, integer, Message, faults, type_error, validate_message,
}
use agi_inspired.MailBus.Commands.{operator}
use agi_inspired.MailBus.Files.{object, not_utf8, File, Mailboxes, find, inbox_count}
use agi_inspired.MailBus.Retry.{
  ok, sharing_violation, retry_with_backoff, three_attempts, retry_with_backoff_lem,
}
use agi_inspired.MailBus.Router.{
  inbox_cap, written, moved, Outcomes, id_of, file_of, quarantined_name, delivered,
  hop_limit_terminated, list_outbox_files, route_cycle,
}
use agi_inspired.MailBus.Delivery.{Accounted, route_cycle-Accounted}
use agi_inspired.MailBus.Caps.{NotRedirected, route_cycle-inbox_cap}
use agi_inspired.MailBus.Cycles.{IsPoison, cycles, cycles_blocked, route_cycle-hops}
use agi_inspired.MailBus.Settled.{IsSmooth, Through, route_cycle-Through}
use agi_inspired.MailBus.Guarded.{
  object-injective, AllGuarded, start, then_step, sends, routes, Reach-AllGuarded,
}
use agi_inspired.MailBus.Agent.{send}
use agi_inspired.MailBus.Deferred.{Deferred, Clock, aware, lines_of, defer_input, drain_deferred}
use agi_inspired.MailBus.Drained.{defer_all, stamped_all, drain-defer_all, drain-undrainable}
use agi_inspired.MailBus.Sending.{IsSent, send-IsSent}

abbrev any_iso : Text → Bool
any_iso t = true

abbrev note : Message
note = record {
  id = some (text (codes "mbx-0000000a"));
  sender = some (text (codes "worker"));
  to = some (text (codes "critic"));
  act = some (text (codes "inform"));
  subject = some (text (codes "s"));
  body = some (text (codes "b"));
  conversation = some (text (codes "c"));
  hops = some (integer 0);
  created_at = some (text (codes "2026"));
  in_reply_to = none;
}

abbrev order : Message
order = record note {
  id = some (text (codes "mbx-0000000b"));
  body = some (text (codes "run_task (1)"));
}

abbrev order_file : File
order_file = record {
  agent = codes "worker";
  name = codes "mbx-0000000b.json";
  content = object order;
}

abbrev poison_file : File
poison_file = record {
  agent = codes "worker";
  name = codes "mbx-00000000.json";
  content = not_utf8;
}

abbrev note_file : File
note_file = record {
  agent = codes "worker";
  name = codes "mbx-0000000a.json";
  content = object note;
}

abbrev boxes : List File → Mailboxes
boxes fs = record {
  inbox = [];
  archive = [];
  outbox = fs;
  quarantine = [];
  outboxes = codes "worker" ∷ [];
}

abbrev smooth : File → Outcomes
smooth f = record {
  readable = true;
  aside = moved;
  suffix = codes "0a0a0a";
  rewrite = written;
  inbox_made = true;
  staged = true;
  replace = λ n. ok;
  unlink = λ n. ok;
  clock = λ n. 7;
}

note_delivered : (route_cycle any_iso smooth (boxes (note_file ∷ []))).1 ≡ delivered ∷ []
unfolding route_cycle any
note_delivered = refl

abbrev two : Mailboxes
two = boxes (order_file ∷ note_file ∷ [])

two_in_order : list_outbox_files two ≡ note_file ∷ order_file ∷ []
unfolding list_outbox_files
two_in_order = refl

retry_with_backoff_lem_example :
    ((retry_with_backoff (λ n. if n == 0 then sharing_violation else ok) (λ n. 9)).0
      ≡ three_attempts sharing_violation ok ok)
    × ((retry_with_backoff (λ n. if n == 0 then sharing_violation else ok) (λ n. 9)).1 ≤ 60008)
retry_with_backoff_lem_example =
    retry_with_backoff_lem (λ n. if n == 0 then sharing_violation else ok) (λ n. 9)

apart_ids :
    (m n a b : Message)
    → object a ≡ object m
    → object b ≡ object n
    → text_eq (file_of (id_of a)) (file_of (id_of b)) ≡ false
    → text_eq (file_of (id_of m)) (file_of (id_of n)) ≡ false
apart_ids m n a b e e' h =
    subst (λ x. text_eq (file_of (id_of x)) (file_of (id_of n)) ≡ false) (object-injective a m e)
      (subst (λ x. text_eq (file_of (id_of a)) (file_of (id_of x)) ≡ false)
        (object-injective b n e') h)

route_cycle-Accounted_example :
    All (λ f. Accounted smooth f (route_cycle any_iso smooth two).0) (list_outbox_files two)
unfolding list_outbox_files find id_of file_of quarantined_name
route_cycle-Accounted_example =
    route_cycle-Accounted any_iso smooth (λ f c. λ e. cc) two (refl, (refl, tt))
      (
        (
          (
            (refl, refl, λ m n e e'. apart_ids m n order note e e' refl),
            (refl, refl, λ m n e e'. apart_ids m n note order e e' refl),
          ),
          tt,
        ),
        (tt, tt),
      )

cap_example_direct : All (NotRedirected (codes "critic")) (list_outbox_files two)
unfolding list_outbox_files
cap_example_direct = ((λ m e c. λ h. cc), ((λ m e c. λ h. cc), tt))

route_cycle-inbox_cap_example :
    inbox_count (codes "critic") (route_cycle any_iso smooth two).0 ≤ inbox_cap
route_cycle-inbox_cap_example =
    route_cycle-inbox_cap any_iso smooth (codes "critic") two cap_example_direct
      (unfold inbox_count in omega arith)

cycles_blocked_example :
    cycles any_iso (smooth ∷ smooth ∷ []) (boxes (note_file ∷ poison_file ∷ []))
    ≡ boxes (note_file ∷ poison_file ∷ [])
unfolding list_outbox_files
cycles_blocked_example =
    cycles_blocked any_iso poison_file (note_file ∷ []) (boxes (note_file ∷ poison_file ∷ [])) refl
      (inl refl) (smooth ∷ smooth ∷ []) (refl, (refl, tt))

route_cycle-hops_example : All (λ e. e ≢ hop_limit_terminated) (route_cycle any_iso smooth two).1
route_cycle-hops_example = route_cycle-hops any_iso smooth two

smooth-IsSmooth : (f : File) → IsSmooth (smooth f)
smooth-IsSmooth f = record {
  readable = refl;
  aside = refl;
  rewrite = refl;
  inbox_made = refl;
  staged = refl;
  replace = refl;
  unlink = refl;
}

not_poison :
    (f : File) (a : Message)
    → f.content ≡ object a
    → validate_message any_iso a ≡ faults []
    → IsPoison any_iso f
    → ⊥
not_poison f a e v (inl h) = cc (e, h)
not_poison f a e v (inr (m, h, t)) =
    let t' : validate_message any_iso a ≡ type_error =
      subst (λ x. validate_message any_iso x ≡ type_error) (object-injective m a (sym h ∙ e)) t in
    cc (v, t')

route_cycle-Through_example :
    Through any_iso smooth two (list_outbox_files two) (route_cycle any_iso smooth two)
unfolding list_outbox_files validate_message
route_cycle-Through_example = route_cycle-Through any_iso smooth two (
  (smooth-IsSmooth note_file, not_poison note_file note refl refl),
  ((smooth-IsSmooth order_file, not_poison order_file order refl refl), tt),
)

abbrev made : Mailboxes
made = record (boxes (note_file ∷ [])) { outboxes = operator ∷ [] }

Reach-AllGuarded_example :
    AllGuarded (route_cycle any_iso smooth (send any_iso made order written).0).0
Reach-AllGuarded_example =
    Reach-AllGuarded any_iso (then_step (then_step start (sends order written)) (routes smooth)) tt

-- A clock whose texts are tally marks.
ones : ℕ → Text
ones zero = []
ones (suc n) = 49 ∷ ones n

ones-replace : (n : ℕ) → length (replace_z (ones n)) ≡ n
unfolding replace_z ones
ones-replace zero = refl
ones-replace (suc n) = ap suc (ones-replace n)

abbrev tally : Clock
tally = record {
  isoformat = ones;
  fromisoformat = λ t. aware (length t);
  exceeds_float = λ now queued n. false;
}

tally_parses : (t : ℕ) → tally.fromisoformat (replace_z (tally.isoformat t)) ≡ aware t
tally_parses t = ap aware (ones-replace t)

abbrev plain : ℕ → Deferred
plain n = record { queued_at = none; ttl = none; command = n }

abbrev two_commands : List (ℕ × Deferred)
two_commands = (5, plain 1) ∷ (8, plain 2) ∷ []

drain-defer_all_example :
    drain_deferred tally 9 true true (defer_all tally two_commands none)
    ≡ (none, some (stamped_all tally two_commands))
drain-defer_all_example =
    drain-defer_all tally tally_parses 9 two_commands none (unfold lines_of in refl) (omega arith)
      ((refl, refl, omega arith), ((refl, refl, omega arith), tt))

abbrev lasting : Deferred
lasting = record { queued_at = none; ttl = some (text (codes "1h")); command = 3 }

drain-undrainable_example :
    drain_deferred tally 9 true true (defer_input tally 5 true lasting none).0
    ≡ ((defer_input tally 5 true lasting none).0, none)
drain-undrainable_example =
    drain-undrainable tally tally_parses 5 9 true lasting (codes "1h") none refl refl
      (unfold lines_of in omega arith)

send-IsSent_example : IsSent note (send any_iso two note written)
send-IsSent_example = send-IsSent any_iso two note written
