-- ===== src/MailBus/Files.antt =====
-- orchestrator/mailbus.py: the files of the mailboxes. A file stands under its agent's directory with
-- its name; agents and names are texts that name no other directory.
use agi_inspired.Prelude.{
  ℕ, Bool, not, ◌&&◌, Option, none, some, List, [], ◌∷◌, count, keep, if◌then◌else◌,
}
use agi_inspired.Prelude.Text.{Text, text_eq}
use agi_inspired.MailBus.Message.{Message, is_message_file}

-- What a file has: bytes that are no UTF-8, a text that is no JSON, JSON that is no object, or a message.
pub data Content : Type 0 where
  not_utf8 not_json not_object : Content
  object : Message → Content

pub record File : Type 0 where
  pub agent : Text
  pub name : Text
  pub content : Content

-- The files in `inbox/`, `inbox/.done/`, `outbox/` and `outbox/.quarantine/` of every agent, and the
-- agents that have an outbox directory.
pub record Mailboxes : Type 0 where
  pub inbox : List File
  pub archive : List File
  pub outbox : List File
  pub quarantine : List File
  pub outboxes : List Text

unfoldable pub is_at : Text → Text → File → Bool
unfolding text_eq
is_at agent name f = text_eq f.agent agent && text_eq f.name name

-- The first file that passes a test.
unfoldable pub first : (File → Bool) → List File → Option Content
first p [] = none
first p (f ∷ fs) = let rest = first p fs in if p f then some f.content else rest

-- The file at a path.
unfoldable pub find : Text → Text → List File → Option Content
unfolding first is_at
find agent name = first (is_at agent name)

-- `unlink`
unfoldable pub remove : Text → Text → List File → List File
unfolding keep is_at
remove agent name = keep (λ f. not (is_at agent name f))

-- `os.replace` to a path, and `open("w")`: what was there is gone.
unfoldable pub put : Text → Text → Content → List File → List File
unfolding remove
put agent name c fs = record { agent = agent; name = name; content = c } ∷ remove agent name fs

-- A file of an agent with the name of a message.
unfoldable pub is_message_of : Text → File → Bool
unfolding text_eq is_message_file
is_message_of agent f = text_eq f.agent agent && is_message_file f.name

-- `_inbox_count`
unfoldable pub inbox_count : Text → Mailboxes → ℕ
unfolding count is_message_of
inbox_count agent s = count (is_message_of agent) s.inbox
