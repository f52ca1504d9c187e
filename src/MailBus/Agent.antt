-- ===== src/MailBus/Agent.antt =====
-- orchestrator/mailbus.py: what an agent calls: sending and reading.
use agi_inspired.Prelude.{
  ℕ, Bool, true, false, Option, none, some, List, [], ◌∷◌, if◌then◌else◌, keep, all, count,
}
use agi_inspired.Prelude.Text.{Text, contains, text_le}
use agi_inspired.Prelude.Sort.{sort_by}
use agi_inspired.MailBus.Message.{
  Value, text, Message, get, Validation, type_error, faults, validate_message,
}
use agi_inspired.MailBus.Commands.{contains_execution_command, text_of, operator, intercepted}
use agi_inspired.MailBus.Files.{
  Content, not_utf8, not_json, not_object, object, File, Mailboxes, remove, put, is_message_of,
  inbox_count,
}
use agi_inspired.MailBus.Retry.{Attempt, Retried, succeeded, exhausted, raised, retry_with_backoff}
use agi_inspired.MailBus.Router.{Rewrite, written, not_opened, broken_off, file_of, id_of, body_of}

-- What `send` returns, or the exception that leaves it: an agent and a file name for the path.
pub data Sent : Type 0 where
  refused write_failed send_raised : Sent
  sent : Text → Text → Sent

unfoldable pub sender_of : Message → Text
unfolding text_of get
sender_of m = text_of (get m.sender)

-- `_ensure_dir` of an outbox
unfoldable pub ensure_outbox : Text → Mailboxes → Mailboxes
unfolding contains
ensure_outbox agent s = record s {
  outboxes = (if contains s.outboxes agent then s.outboxes else agent ∷ s.outboxes);
}

unfoldable pub in_outbox : Text → Message → Content → Mailboxes → Mailboxes
unfolding put file_of id_of
in_outbox agent m c s = record s { outbox = put agent (file_of (id_of m)) c s.outbox }

-- Writing into an outbox whose directory is there, or is not.
unfoldable pub write_message : Text → Message → Mailboxes → Bool → Rewrite → Mailboxes × Sent
unfolding in_outbox file_of id_of
write_message agent m s false w = (s, write_failed)
write_message agent m s true written =
    (in_outbox agent m (object m) s, sent agent (file_of (id_of m)))
write_message agent m s true not_opened = (s, write_failed)
write_message agent m s true (broken_off c) = (in_outbox agent m c s, write_failed)

-- A message with a command goes into the outbox of the operator, which is not made.
unfoldable pub send_by_body : Mailboxes → Message → Rewrite → Bool → Mailboxes × Sent
unfolding write_message intercepted contains sender_of
send_by_body s m w true = write_message operator (intercepted m) s (contains s.outboxes operator) w
send_by_body s m w false = write_message (sender_of m) m s (contains s.outboxes (sender_of m)) w

unfoldable pub send_validated : Mailboxes → Message → Rewrite → Validation → Mailboxes × Sent
unfolding send_by_body ensure_outbox sender_of contains_execution_command body_of
send_validated s m w type_error = (s, send_raised)
send_validated s m w (faults (x ∷ xs)) = (s, refused)
send_validated s m w (faults []) =
    send_by_body (ensure_outbox (sender_of m) s) m w (contains_execution_command (body_of m))

-- `send`
unfoldable pub send : (Text → Bool) → Mailboxes → Message → Rewrite → Mailboxes × Sent
unfolding send_validated validate_message
send is_iso s m w = send_validated s m w (validate_message is_iso m)

-- What the operating system does for one file of an inbox: it can be read, and the attempts to move it.
pub record Reading : Type 0 where
  pub readable : Bool
  pub replace : ℕ → Attempt
  pub clock : ℕ → ℕ

unfoldable pub archived : File → Mailboxes → Mailboxes
unfolding remove put
archived f s = record s {
  inbox = remove f.agent f.name s.inbox;
  archive = put f.agent f.name f.content s.archive;
}

-- `_archive_message`: `none` where an OSError is raised.
unfoldable pub archive_message : File → Mailboxes → Retried → Option Mailboxes
unfolding archived
archive_message f s succeeded = some (archived f s)
archive_message f s exhausted = some s
archive_message f s raised = none

unfoldable pub marked : Bool → Reading → File → Mailboxes → Option Mailboxes
unfolding archive_message retry_with_backoff
marked false o f s = some s
marked true o f s = archive_message f s (retry_with_backoff o.replace o.clock).0

-- The content that a read finds: what cannot be read is skipped as what is no JSON.
unfoldable pub content_read : Reading → Content → Content
content_read o c = if o.readable then c else not_json

unfoldable pub after_read :
    Message → Mailboxes × Option (List Message) → Mailboxes × Option (List Message)
after_read m (s, none) = (s, none)
after_read m (s, some ms) = (s, some (m ∷ ms))

unfoldable pub collect_marked :
    Message
    → Mailboxes
    → Option Mailboxes
    → (Mailboxes → Mailboxes × Option (List Message))
    → Mailboxes × Option (List Message)
unfolding after_read
collect_marked m s none rest = (s, none)
collect_marked m s (some t) rest = after_read m (rest t)

-- One file of the inbox, with the reading of the rest.
unfoldable pub read_content :
    Bool
    → Reading
    → File
    → Mailboxes
    → Content
    → (Mailboxes → Mailboxes × Option (List Message))
    → Mailboxes × Option (List Message)
unfolding collect_marked marked
read_content mark o f s not_utf8 rest = (s, none)
read_content mark o f s not_json rest = rest s
read_content mark o f s not_object rest = rest s
read_content mark o f s (object m) rest = collect_marked m s (marked mark o f s) rest

-- The loop of `read_inbox`; `none` where an exception leaves it.
unfoldable pub read_files :
    Bool → (File → Reading) → List File → Mailboxes → Mailboxes × Option (List Message)
unfolding read_content content_read
read_files mark os [] s = (s, some [])
read_files mark os (f ∷ fs) s =
    read_content mark (os f) f s (content_read (os f) f.content) (λ t. read_files mark os fs t)

unfoldable pub name_order : File → File → Bool
unfolding text_le
name_order f g = text_le f.name g.name

unfoldable pub list_inbox_files : Text → Mailboxes → List File
unfolding keep is_message_of sort_by name_order
list_inbox_files agent s = sort_by name_order (keep (is_message_of agent) s.inbox)

-- `m.get("created_at", "")`
unfoldable pub created_key : Message → Value
created_key m = elim m.created_at [ none ↦ text [] | some v ↦ v ]

unfoldable pub is_text : Value → Bool
is_text (text t) = true
is_text _ = false

unfoldable pub created_order : Message → Message → Bool
unfolding text_le text_of created_key
created_order m n = text_le (text_of (created_key m)) (text_of (created_key n))

-- `messages.sort` by the keys. On keys that are not all texts it is `sort_values`, which may raise.
unfoldable pub sort_messages :
    (List Message → Option (List Message)) → List Message → Option (List Message)
unfolding all is_text created_key sort_by created_order
sort_messages sort_values ms =
    if all (λ m. is_text (created_key m)) ms
    then some (sort_by created_order ms)
    else sort_values ms

unfoldable pub sorted_read :
    (List Message → Option (List Message))
    → Mailboxes × Option (List Message)
    → Mailboxes × Option (List Message)
unfolding sort_messages
sorted_read sort_values (s, none) = (s, none)
sorted_read sort_values (s, some ms) = (s, sort_messages sort_values ms)

-- `read_inbox`
unfoldable pub read_inbox :
    (List Message → Option (List Message))
    → Bool
    → (File → Reading)
    → Text
    → Mailboxes
    → Mailboxes × Option (List Message)
unfolding sorted_read read_files list_inbox_files
read_inbox sort_values mark os agent s =
    sorted_read sort_values (read_files mark os (list_inbox_files agent s) s)

-- `mailbox_stats` of one agent: the messages of its inbox, its outbox and `.done`.
unfoldable pub agent_stats : Text → Mailboxes → ℕ × ℕ × ℕ
unfolding count is_message_of inbox_count
agent_stats agent s = (
  inbox_count agent s,
  count (is_message_of agent) s.outbox,
  count (is_message_of agent) s.archive,
)

-- The outboxes that `init_mailboxes` makes.
unfoldable pub init_outboxes : List Text → Mailboxes → Mailboxes
unfolding ensure_outbox
init_outboxes [] s = s
init_outboxes (a ∷ agents) s = init_outboxes agents (ensure_outbox a s)
