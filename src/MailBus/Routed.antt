-- ===== src/MailBus/Routed.antt =====
-- orchestrator/mailbus.py: the ways in which the routing of one file can end.
use agi_inspired.Prelude.{
  ◌<◌, Bool, true, false, List, [], ◌∷◌, ltb, leb, if◌then◌else◌, ◌≡◌, ◌≢◌, refl, sym, subst, ◌⊎◌,
  inl, inr, arith,
}
use agi_inspired.Prelude.Text.{Text}
use agi_inspired.MailBus.Message.{
  Message, get, max_hops, Validation, type_error, faults, validate_message,
}
use agi_inspired.MailBus.Commands.{contains_execution_command, operator, intercepted_at_router}
use agi_inspired.MailBus.Files.{
  Content, not_utf8, not_json, not_object, object, File, Mailboxes, inbox_count,
}
use agi_inspired.MailBus.Retry.{Retried, succeeded, exhausted, raised, retry_with_backoff}
use agi_inspired.MailBus.Router.{
  inbox_cap, Rewrite, written, not_opened, broken_off, Aside, moved, not_moved, no_directory,
  Outcomes, Event, quarantined, hop_limit_terminated, backpressure_held, delivery_deferred,
  delivered_unlink_deferred, delivered, aborted, unlinked, set_aside, quarantine_unparseable,
  rewritten, copied, finish_unlink, finish_replace, stage_and_deliver, deliver, id_of, recipient_of,
  body_of, redirect, route_by_body, route_by_room, hops_of, route_by_hops, route_validated,
  route_content, route_one, after_one,
}
use agi_inspired.MailBus.Valid.{valid-hops}

abbrev pub has_command : Message → Bool
has_command m = contains_execution_command (body_of m)

-- Where a message goes, in which form, and the state in which it is handed over.
unfoldable pub destination : Message → Text
destination m = if has_command m then operator else recipient_of m

unfoldable pub routed_form : Message → Message
routed_form m = if has_command m then intercepted_at_router m else m

unfoldable pub prepared : File → Message → Mailboxes → Mailboxes
prepared f m s = if has_command m then rewritten f (object (intercepted_at_router m)) s else s

abbrev pub handed : File → Message → Mailboxes → Mailboxes
handed f m s = copied (destination m) (id_of m) (object (routed_form m)) (prepared f m s)

-- A file with a message, for which the recipient that it names has room.
abbrev pub HasRoom : File → Message → Mailboxes → Type 0
HasRoom f m s = (f.content ≡ object m) × (inbox_count (recipient_of m) s < inbox_cap)

abbrev pub is_idle : Event → Bool
is_idle quarantined = true
is_idle backpressure_held = true
is_idle aborted = true
is_idle _ = false

-- How the routing of the file `f` in the state `s` ends.
pub data Routed (o : Outcomes) (f : File) (s : Mailboxes) : Mailboxes × Event → Type 0 where
  stays : (e : Event) → is_idle e ≡ true → Routed o f s (s, e)
  put_aside : Routed o f s (set_aside o f s, quarantined)
  spoilt : (c : Content) → o.rewrite ≡ broken_off c → Routed o f s (rewritten f c s, aborted)
  waits :
      (m : Message) (e : Event)
      → HasRoom f m s
      → e ≢ hop_limit_terminated
      → Routed o f s (prepared f m s, e)
  left_behind :
      (m : Message) (e : Event)
      → HasRoom f m s
      → e ≢ hop_limit_terminated
      → Routed o f s (handed f m s, e)
  arrives : (m : Message) → HasRoom f m s → Routed o f s (unlinked f (handed f m s), delivered)

module _ (o : Outcomes) (f : File) (s : Mailboxes) where
  quarantine-Routed : (a : Aside) → Routed o f s (quarantine_unparseable o s f a)
  unfolding quarantine_unparseable
  quarantine-Routed moved = put_aside
  quarantine-Routed not_moved = stays quarantined refl
  quarantine-Routed no_directory = stays aborted refl

  module _ (m : Message) (room : HasRoom f m s) where
    unlink-Routed : (r : Retried) → Routed o f s (finish_unlink f (handed f m s) r)
    unfolding finish_unlink
    unlink-Routed succeeded = arrives m room
    unlink-Routed exhausted = left_behind m delivered_unlink_deferred room (λ e. cc)
    unlink-Routed raised = left_behind m aborted room (λ e. cc)

    replace-Routed :
        (r : Retried)
        → Routed o f s (
            finish_replace o f
              (destination m)
              (id_of m)
              (object (routed_form m))
              (prepared f m s)
              r)
    unfolding finish_replace
    replace-Routed succeeded = unlink-Routed (retry_with_backoff o.unlink o.clock).0
    replace-Routed exhausted = waits m delivery_deferred room (λ e. cc)
    replace-Routed raised = waits m aborted room (λ e. cc)

    stage-Routed :
        (b : Bool)
        → Routed o f s (
            stage_and_deliver o f
              (destination m)
              (id_of m)
              (object (routed_form m))
              (prepared f m s)
              b)
    unfolding stage_and_deliver
    stage-Routed false = waits m delivery_deferred room (λ e. cc)
    stage-Routed true = replace-Routed (retry_with_backoff o.replace o.clock).0

    deliver-Routed :
        (b : Bool)
        → Routed o f s
            (deliver o f (destination m) (id_of m) (object (routed_form m)) (prepared f m s) b)
    unfolding deliver
    deliver-Routed false = waits m aborted room (λ e. cc)
    deliver-Routed true = stage-Routed o.staged

    redirect-Routed :
        (w : Rewrite) → o.rewrite ≡ w → has_command m ≡ true → Routed o f s (redirect o f m s w)
    unfolding redirect
    redirect-Routed written e cmd =
        let d = deliver-Routed o.inbox_made in
        unfold destination routed_form prepared in (rw cmd at d)
    redirect-Routed not_opened e cmd = stays aborted refl
    redirect-Routed (broken_off c) e cmd = spoilt c e

    body-Routed : (b : Bool) → has_command m ≡ b → Routed o f s (route_by_body o f m s b)
    unfolding route_by_body
    body-Routed true e = redirect-Routed o.rewrite refl e
    body-Routed false e =
        let d = deliver-Routed o.inbox_made in
        unfold destination routed_form prepared in (rw e at d)

  room-Routed :
      (m : Message)
      → f.content ≡ object m
      → (b : Bool) → leb inbox_cap (inbox_count (recipient_of m) s) ≡ b
      → Routed o f s (route_by_room o f m s b)
  unfolding route_by_room
  room-Routed m e true h = stays backpressure_held refl
  room-Routed m e false h = body-Routed m (e, ground arith) (has_command m) refl

  hops-Routed :
      (m : Message)
      → f.content ≡ object m
      → (b : Bool) → b ≡ false
      → Routed o f s (route_by_hops o f m s b)
  unfolding route_by_hops
  hops-Routed m e true h = absurd (cc h)
  hops-Routed m e false h = room-Routed m e (leb inbox_cap (inbox_count (recipient_of m) s)) refl

  validated-Routed :
      (m : Message)
      → f.content ≡ object m
      → (v : Validation) → (v ≡ faults [] → ltb max_hops (hops_of (get m.hops)) ≡ false)
      → Routed o f s (route_validated o f m s v)
  unfolding route_validated
  validated-Routed m e type_error h = stays aborted refl
  validated-Routed m e (faults (x ∷ xs)) h = quarantine-Routed o.aside
  validated-Routed m e (faults []) h = hops-Routed m e _ (h refl)

module _ (is_iso : Text → Bool) (o : Outcomes) (f : File) (s : Mailboxes) where
  content-Routed : (c : Content) → f.content ≡ c → Routed o f s (route_content is_iso o f s c)
  unfolding route_content
  content-Routed not_utf8 e = stays aborted refl
  content-Routed not_json e = quarantine-Routed o f s o.aside
  content-Routed not_object e = quarantine-Routed o f s o.aside
  content-Routed (object m) e =
      validated-Routed o f s m e (validate_message is_iso m) (valid-hops is_iso m)

  -- The routing of a file ends in one of the ways of `Routed`.
  pub route_one-Routed : (b : Bool) → Routed o f s (route_one is_iso o s f b)
  unfolding route_one
  route_one-Routed true = content-Routed f.content refl
  route_one-Routed false = quarantine-Routed o f s o.aside

-- The loop goes on in the state after a file, or ends in it.
pub after_one-state :
    (r : Mailboxes × Event) (k : Mailboxes → Mailboxes × List Event)
    → ((after_one r k).0 ≡ r.0) ⊎ ((after_one r k).0 ≡ (k r.0).0)
unfolding after_one
after_one-state (s, aborted) k = inl refl
after_one-state (s, quarantined) k = inr refl
after_one-state (s, hop_limit_terminated) k = inr refl
after_one-state (s, backpressure_held) k = inr refl
after_one-state (s, delivery_deferred) k = inr refl
after_one-state (s, delivered_unlink_deferred) k = inr refl
after_one-state (s, delivered) k = inr refl

-- What holds after a file and after the rest of the loop holds after the loop.
pub after_one-holds :
    (P : Mailboxes → Type 0) (r : Mailboxes × Event) (k : Mailboxes → Mailboxes × List Event)
    → P r.0
    → P (k r.0).0
    → P (after_one r k).0
after_one-holds P r k now later = elim (after_one-state r k) [
  | inl e ↦ subst P (sym e) now
  | inr e ↦ subst P (sym e) later
]
