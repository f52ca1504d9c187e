-- ===== src/MailBus/Sending.antt =====
-- orchestrator/mailbus.py: what `send` leaves in an outbox.
use agi_inspired.Prelude.{
  Bool, true, false, some, [], ◌∷◌, ◌≡◌, inl, inr, refl, ◌∙◌, ap, Bool-cases, if◌then◌else◌,
}
use agi_inspired.Prelude.Text.{Text, contains, text_eq}
use agi_inspired.MailBus.Message.{Message, Validation, type_error, faults, validate_message}
use agi_inspired.MailBus.Commands.{operator, intercepted}
use agi_inspired.MailBus.Files.{object, Mailboxes, find}
use agi_inspired.MailBus.Paths.{find-put}
use agi_inspired.MailBus.Router.{Rewrite, written, not_opened, broken_off, file_of, id_of}
use agi_inspired.MailBus.Routed.{has_command}
use agi_inspired.MailBus.Agent.{
  Sent, refused, write_failed, send_raised, sent, sender_of, ensure_outbox, in_outbox,
  write_message, send_by_body, send_validated, send,
}

-- The agent and the message that are written for a message.
abbrev pub outbox_of : Message → Text
outbox_of m = if has_command m then operator else sender_of m

abbrev pub sent_form : Message → Message
sent_form m = if has_command m then intercepted m else m

-- What a result `sent agent name` says of the state after it.
abbrev pub IsSent : Message → Mailboxes × Sent → Type 0
IsSent m (s, sent agent name) =
    (agent ≡ outbox_of m) × (find agent name s.outbox ≡ some (object (sent_form m)))
IsSent m (s, refused) = Unit
IsSent m (s, write_failed) = Unit
IsSent m (s, send_raised) = Unit

write-IsSent :
    (m : Message) (agent : Text) (k : Message) (s : Mailboxes) (b : Bool) (w : Rewrite)
    → agent ≡ outbox_of m
    → k ≡ sent_form m
    → IsSent m (write_message agent k s b w)
unfolding write_message in_outbox
write-IsSent m agent k s false w a e = tt
write-IsSent m agent k s true written a e =
    (a, find-put agent (file_of (id_of k)) (object k) s.outbox ∙ ap (λ x. some (object x)) e)
write-IsSent m agent k s true not_opened a e = tt
write-IsSent m agent k s true (broken_off c) a e = tt

by_body-IsSent :
    (s : Mailboxes) (m : Message) (w : Rewrite) (b : Bool)
    → has_command m ≡ b
    → IsSent m (send_by_body s m w b)
unfolding send_by_body
by_body-IsSent s m w true e = write-IsSent m operator (intercepted m) s _ w (rw e refl) (rw e refl)
by_body-IsSent s m w false e = write-IsSent m (sender_of m) m s _ w (rw e refl) (rw e refl)

validated-IsSent :
    (s : Mailboxes) (m : Message) (w : Rewrite) (v : Validation) → IsSent m (send_validated s m w v)
unfolding send_validated
validated-IsSent s m w type_error = tt
validated-IsSent s m w (faults (x ∷ xs)) = tt
validated-IsSent s m w (faults []) = by_body-IsSent (ensure_outbox (sender_of m) s) m w _ refl

-- When `send` returns a path, the file there has the message: in the sender's outbox as it was given, or, if
-- its body has an execution command, in the outbox of the operator as a message for the operator.
pub send-IsSent :
    (is_iso : Text → Bool) (s : Mailboxes) (m : Message) (w : Rewrite)
    → IsSent m (send is_iso s m w)
unfolding send
send-IsSent is_iso s m w = validated-IsSent s m w (validate_message is_iso m)

no_outbox :
    (agent : Text) (s : Mailboxes)
    → text_eq agent operator ≡ false
    → contains s.outboxes operator ≡ false
    → contains (ensure_outbox agent s).outboxes operator ≡ false
unfolding ensure_outbox contains
no_outbox agent s other none' = elim (Bool-cases (contains s.outboxes agent)) [
  | inl e ↦ rw e none'
  | inr e ↦ rw (e, other) none'
]

-- A valid message with an execution command is not written at all while the operator, who is not its
-- sender, has no outbox directory.
pub send_needs_operator :
    (is_iso : Text → Bool) (s : Mailboxes) (m : Message) (w : Rewrite)
    → validate_message is_iso m ≡ faults []
    → has_command m ≡ true
    → text_eq (sender_of m) operator ≡ false
    → contains s.outboxes operator ≡ false
    → send is_iso s m w ≡ (ensure_outbox (sender_of m) s, write_failed)
unfolding send send_validated send_by_body write_message
send_needs_operator is_iso s m w valid cmd other none' =
    rw (valid, cmd, no_outbox (sender_of m) s other none') refl
