-- ===== src/MailBus/Router.antt =====
-- orchestrator/mailbus.py: one routing cycle. `Outcomes` has what the operating system does with the
-- calls for one pending file; the staging directory `.tmp` is not part of the state.
use agi_inspired.Prelude.{
  ℕ, suc, Bool, true, false, List, [], ◌∷◌, ◌++◌, ltb, leb, if◌then◌else◌, keep,
}
use agi_inspired.Prelude.Text.{Text, codes, text_eq, text_le}
use agi_inspired.Prelude.Sort.{sort_by}
use agi_inspired.MailBus.Message.{
  Value, boolean, integer, Message, get, max_hops, Validation, type_error, faults, validate_message,
  is_message_file,
}
use agi_inspired.MailBus.Commands.{
  contains_execution_command, text_of, operator, intercepted_at_router,
}
use agi_inspired.MailBus.Files.{
  Content, not_utf8, not_json, not_object, object, File, Mailboxes, remove, put, inbox_count,
}
use agi_inspired.MailBus.Retry.{Attempt, Retried, succeeded, exhausted, raised, retry_with_backoff}

abbrev pub inbox_cap : ℕ
inbox_cap = 50

-- Writing a file in place: it is written, it cannot be opened, or the write breaks off and leaves something,
-- as where a text has a lone surrogate, which UTF-8 does not encode.
pub data Rewrite : Type 0 where
  written not_opened : Rewrite
  broken_off : Content → Rewrite

-- Moving a file aside: it is moved, it cannot be moved, or the directory cannot be made.
pub data Aside : Type 0 where
  moved not_moved no_directory : Aside

-- `readable`: the file can be read. `suffix`: the six digits of the quarantined name. `inbox_made`: the
-- recipient's directories can be made. `staged`: the copy under `.tmp` is written. `replace` and
-- `unlink`: the attempts of the two ladders, with the clock.
pub record Outcomes : Type 0 where
  pub readable : Bool
  pub aside : Aside
  pub suffix : Text
  pub rewrite : Rewrite
  pub inbox_made : Bool
  pub staged : Bool
  pub replace : ℕ → Attempt
  pub unlink : ℕ → Attempt
  pub clock : ℕ → ℕ

-- What becomes of a pending file. `aborted`: an exception leaves `route_cycle`.
pub data Event : Type 0 where
  quarantined hop_limit_terminated backpressure_held delivery_deferred delivered_unlink_deferred
        delivered aborted :
      Event

unfoldable pub file_order : File → File → Bool
unfolding text_eq text_le
file_order f g = if text_eq f.agent g.agent then text_le f.name g.name else text_le f.agent g.agent

-- `_list_outbox_files`
unfoldable pub list_outbox_files : Mailboxes → List File
unfolding keep is_message_file sort_by file_order
list_outbox_files s = sort_by file_order (keep (λ f. is_message_file f.name) s.outbox)

-- `f"{msg_id}.json"`
unfoldable pub file_of : Text → Text
file_of id = id ++ codes ".json"

unfoldable pub quarantined_name : Outcomes → File → Text
quarantined_name o f = f.name ++ codes "." ++ o.suffix

unfoldable pub unlinked : File → Mailboxes → Mailboxes
unfolding remove
unlinked f s = record s { outbox = remove f.agent f.name s.outbox }

unfoldable pub set_aside : Outcomes → File → Mailboxes → Mailboxes
unfolding unlinked put quarantined_name
set_aside o f s = record (unlinked f s) {
  quarantine = put f.agent (quarantined_name o f) f.content s.quarantine;
}

-- `_quarantine_unparseable`; only making the directory may raise.
unfoldable pub quarantine_unparseable : Outcomes → Mailboxes → File → Aside → Mailboxes × Event
unfolding set_aside
quarantine_unparseable o s f moved = (set_aside o f s, quarantined)
quarantine_unparseable o s f not_moved = (s, quarantined)
quarantine_unparseable o s f no_directory = (s, aborted)

unfoldable pub rewritten : File → Content → Mailboxes → Mailboxes
unfolding put
rewritten f c s = record s { outbox = put f.agent f.name c s.outbox }

-- A copy in the recipient's inbox.
unfoldable pub copied : Text → Text → Content → Mailboxes → Mailboxes
unfolding put file_of
copied recipient id c s = record s { inbox = put recipient (file_of id) c s.inbox }

-- After the delivery, the file of the outbox.
unfoldable pub finish_unlink : File → Mailboxes → Retried → Mailboxes × Event
unfolding unlinked
finish_unlink f s succeeded = (unlinked f s, delivered)
finish_unlink f s exhausted = (s, delivered_unlink_deferred)
finish_unlink f s raised = (s, aborted)

unfoldable pub finish_replace :
    Outcomes → File → Text → Text → Content → Mailboxes → Retried → Mailboxes × Event
unfolding finish_unlink copied retry_with_backoff
finish_replace o f recipient id c s succeeded =
    finish_unlink f (copied recipient id c s) (retry_with_backoff o.unlink o.clock).0
finish_replace o f recipient id c s exhausted = (s, delivery_deferred)
finish_replace o f recipient id c s raised = (s, aborted)

-- `_stage_and_deliver` once the directories are there, and what the cycle does with its result.
unfoldable pub stage_and_deliver :
    Outcomes → File → Text → Text → Content → Mailboxes → Bool → Mailboxes × Event
unfolding finish_replace retry_with_backoff
stage_and_deliver o f recipient id c s false = (s, delivery_deferred)
stage_and_deliver o f recipient id c s true =
    finish_replace o f recipient id c s (retry_with_backoff o.replace o.clock).0

unfoldable pub deliver :
    Outcomes → File → Text → Text → Content → Mailboxes → Bool → Mailboxes × Event
unfolding stage_and_deliver
deliver o f recipient id c s false = (s, aborted)
deliver o f recipient id c s true = stage_and_deliver o f recipient id c s o.staged

unfoldable pub id_of : Message → Text
unfolding text_of get
id_of m = text_of (get m.id)

unfoldable pub recipient_of : Message → Text
unfolding text_of get
recipient_of m = text_of (get m.to)

unfoldable pub body_of : Message → Text
unfolding text_of get
body_of m = text_of (get m.body)

-- A message with a command, rewritten in the outbox and delivered to the operator.
unfoldable pub redirect : Outcomes → File → Message → Mailboxes → Rewrite → Mailboxes × Event
unfolding rewritten deliver id_of intercepted_at_router
redirect o f m s written =
    let c = object (intercepted_at_router m) in
    deliver o f operator (id_of m) c (rewritten f c s) o.inbox_made
redirect o f m s not_opened = (s, aborted)
redirect o f m s (broken_off c) = (rewritten f c s, aborted)

unfoldable pub route_by_body : Outcomes → File → Message → Mailboxes → Bool → Mailboxes × Event
unfolding redirect deliver id_of recipient_of
route_by_body o f m s true = redirect o f m s o.rewrite
route_by_body o f m s false = deliver o f (recipient_of m) (id_of m) (object m) s o.inbox_made

-- The backpressure test, on the recipient that the message names.
unfoldable pub route_by_room : Outcomes → File → Message → Mailboxes → Bool → Mailboxes × Event
unfolding route_by_body contains_execution_command body_of
route_by_room o f m s true = (s, backpressure_held)
route_by_room o f m s false = route_by_body o f m s (contains_execution_command (body_of m))

unfoldable pub terminate : File → Mailboxes → Retried → Mailboxes × Event
unfolding unlinked
terminate f s succeeded = (unlinked f s, hop_limit_terminated)
terminate f s exhausted = (s, hop_limit_terminated)
terminate f s raised = (s, aborted)

-- The number that a valid `hops` has.
unfoldable pub hops_of : Value → ℕ
hops_of (integer n) = n
hops_of (boolean true) = 1
hops_of _ = 0

unfoldable pub route_by_hops : Outcomes → File → Message → Mailboxes → Bool → Mailboxes × Event
unfolding terminate retry_with_backoff route_by_room inbox_count recipient_of
route_by_hops o f m s true = terminate f s (retry_with_backoff o.unlink o.clock).0
route_by_hops o f m s false = route_by_room o f m s (leb inbox_cap (inbox_count (recipient_of m) s))

unfoldable pub route_validated :
    Outcomes → File → Message → Mailboxes → Validation → Mailboxes × Event
unfolding quarantine_unparseable route_by_hops hops_of get
route_validated o f m s type_error = (s, aborted)
route_validated o f m s (faults (x ∷ xs)) = quarantine_unparseable o s f o.aside
route_validated o f m s (faults []) = route_by_hops o f m s (ltb max_hops (hops_of (get m.hops)))

-- An exception ends the loop.
unfoldable pub after_one :
    Mailboxes × Event → (Mailboxes → Mailboxes × List Event) → Mailboxes × List Event
after_one (s, aborted) rest = (s, aborted ∷ [])
after_one (s, e) rest = let (s', es) = rest s in (s', e ∷ es)

module _ (is_iso : Text → Bool) where
  unfoldable pub route_content : Outcomes → File → Mailboxes → Content → Mailboxes × Event
  unfolding quarantine_unparseable route_validated validate_message
  route_content o f s not_utf8 = (s, aborted)
  route_content o f s not_json = quarantine_unparseable o s f o.aside
  route_content o f s not_object = quarantine_unparseable o s f o.aside
  route_content o f s (object m) = route_validated o f m s (validate_message is_iso m)

  -- The body of the loop of `route_cycle`. A file that cannot be read is moved aside.
  unfoldable pub route_one : Outcomes → Mailboxes → File → Bool → Mailboxes × Event
  unfolding route_content quarantine_unparseable
  route_one o s f true = route_content o f s f.content
  route_one o s f false = quarantine_unparseable o s f o.aside

  -- The loop, with the events of the files that were handled.
  unfoldable pub route_all : (File → Outcomes) → List File → Mailboxes → Mailboxes × List Event
  unfolding route_one after_one
  route_all os [] s = (s, [])
  route_all os (f ∷ fs) s =
      after_one (route_one (os f) s f (os f).readable) (λ t. route_all os fs t)

  -- `route_cycle`
  unfoldable pub route_cycle : (File → Outcomes) → Mailboxes → Mailboxes × List Event
  unfolding route_all list_outbox_files
  route_cycle os s = route_all os (list_outbox_files s) s

-- What `route_cycle` returns: the number of deliveries.
unfoldable pub delivered_count : List Event → ℕ
delivered_count [] = 0
delivered_count (delivered ∷ es) = suc (delivered_count es)
delivered_count (delivered_unlink_deferred ∷ es) = suc (delivered_count es)
delivered_count (e ∷ es) = delivered_count es
