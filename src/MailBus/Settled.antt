-- ===== src/MailBus/Settled.antt =====
-- orchestrator/mailbus.py: a routing cycle in which nothing fails gets through the outbox.
use agi_inspired.Prelude.{
  ℕ, ◌≤◌, Bool, true, false, none, some, List, [], ◌∷◌, ◌++◌, ◌⊎◌, All, leb, ◌≡◌, ◌≢◌, inl, inr,
  refl, sym, ap, subst, arith, ◌∙◌,
}
use agi_inspired.Prelude.Text.{Text, codes}
use agi_inspired.MailBus.Message.{Message, Fault, Validation, type_error, faults, validate_message}
use agi_inspired.MailBus.Files.{
  Content, not_utf8, not_json, not_object, object, File, Mailboxes, find, inbox_count,
}
use agi_inspired.MailBus.Retry.{Attempt, ok, succeeded, retry_with_backoff, climb, after_attempt}
use agi_inspired.MailBus.Router.{
  written, moved, inbox_cap, file_of, unlinked, copied, set_aside, quarantined_name, id_of,
  recipient_of, rewritten, Outcomes, Event, quarantined, hop_limit_terminated, backpressure_held,
  delivery_deferred, delivered_unlink_deferred, delivered, aborted, list_outbox_files,
  quarantine_unparseable, finish_unlink, finish_replace, stage_and_deliver, deliver, redirect,
  route_by_body, route_by_room, route_by_hops, route_validated, route_content, route_one, after_one,
  route_all, route_cycle,
}
use agi_inspired.MailBus.Valid.{valid-hops}
use agi_inspired.MailBus.Commands.{operator, intercepted_at_router}
use agi_inspired.MailBus.Guarded.{object-injective}
use agi_inspired.MailBus.Cycles.{IsPoison}
use agi_inspired.MailBus.Paths.{find-put, find-remove}
use agi_inspired.MailBus.Routed.{has_command, destination, routed_form}

-- Every call for a file succeeds at once; the rewriting of a message with a command then also encodes its
-- text, which it cannot where the text has a lone surrogate.
pub record IsSmooth (o : Outcomes) : Type 0 where
  pub readable : o.readable ≡ true
  pub aside : o.aside ≡ moved
  pub rewrite : o.rewrite ≡ written
  pub inbox_made : o.inbox_made ≡ true
  pub staged : o.staged ≡ true
  pub replace : o.replace 0 ≡ ok
  pub unlink : o.unlink 0 ≡ ok

abbrev IsFull : Text → Mailboxes → Type 0
IsFull recipient s = 50 ≤ inbox_count recipient s

-- What becomes of a file that is routed in one state, with the state after it.
abbrev pub Settles : (Text → Bool) → Outcomes → File → Mailboxes → Mailboxes × Event → Type 0
Settles is_iso o f s (t, e) =
    (e ≡ quarantined)
      × ((m : Message) → f.content ≡ object m → validate_message is_iso m ≢ faults [])
      × (find f.agent (f.name ++ codes "." ++ o.suffix) t.quarantine ≡ some f.content)
      × (find f.agent f.name t.outbox ≡ none)
    ⊎ (e ≡ backpressure_held)
      × ((m : Message) × (f.content ≡ object m) × IsFull (recipient_of m) s)
      × (t ≡ s)
    ⊎ (e ≡ delivered)
      × ((m : Message) × (f.content ≡ object m)
          × (validate_message is_iso m ≡ faults [])
          × (IsFull (recipient_of m) s → ⊥)
          × (find (destination m) (file_of (id_of m)) t.inbox ≡ some (object (routed_form m))))
      × (find f.agent f.name t.outbox ≡ none)

faults-filled : (x : Fault) (xs : List Fault) → faults (x ∷ xs) ≢ faults []
faults-filled x xs = λ e. cc

retry_at_once :
    (op : ℕ → Attempt) (clock : ℕ → ℕ) → op 0 ≡ ok → (retry_with_backoff op clock).0 ≡ succeeded
unfolding retry_with_backoff climb after_attempt
retry_at_once op clock e = rw e refl

unlinked-none : (f : File) (s : Mailboxes) → find f.agent f.name (unlinked f s).outbox ≡ none
unfolding unlinked
unlinked-none f s = find-remove f.agent f.name s.outbox

copied-find :
    (recipient id : Text) (c : Content) (f : File) (s : Mailboxes)
    → find recipient (file_of id) (unlinked f (copied recipient id c s)).inbox ≡ some c
unfolding unlinked copied
copied-find recipient id c f s = find-put recipient (file_of id) c s.inbox

set_aside-find :
    (o : Outcomes) (f : File) (s : Mailboxes)
    → (find f.agent (f.name ++ codes "." ++ o.suffix) (set_aside o f s).quarantine ≡ some f.content)
      × (find f.agent f.name (set_aside o f s).outbox ≡ none)
unfolding set_aside quarantined_name
set_aside-find o f s = (find-put f.agent _ f.content s.quarantine, unlinked-none f s)

module _ (is_iso : Text → Bool) (o : Outcomes) (f : File) (smooth : IsSmooth o) where
  delivered_at_once :
      (recipient id : Text) (c : Content) (s : Mailboxes)
      → deliver o f recipient id c s o.inbox_made
        ≡ (unlinked f (copied recipient id c s), delivered)
  unfolding deliver stage_and_deliver finish_replace finish_unlink
  delivered_at_once recipient id c s =
      rw
        (
          smooth.inbox_made,
          smooth.staged,
          retry_at_once o.replace o.clock smooth.replace,
          retry_at_once o.unlink o.clock smooth.unlink,
        )
        refl

  aside-Settles :
      (s : Mailboxes)
      → ((m : Message) → f.content ≡ object m → validate_message is_iso m ≢ faults [])
      → Settles is_iso o f s (quarantine_unparseable o s f o.aside)
  unfolding quarantine_unparseable
  aside-Settles s invalid =
      let (there, away) = set_aside-find o f s in rw smooth.aside (inl (refl, invalid, there, away))

  module _ (m : Message) (s : Mailboxes) (same : f.content ≡ object m)
      (valid : validate_message is_iso m ≡ faults []) where
    deliver-Settles :
        (t : Mailboxes)
        → (IsFull (recipient_of m) s → ⊥)
        → Settles is_iso o f s
            (deliver o f (destination m) (id_of m) (object (routed_form m)) t o.inbox_made)
    deliver-Settles t room =
        subst (Settles is_iso o f s)
          (sym (delivered_at_once (destination m) (id_of m) (object (routed_form m)) t))
          (inr (
            inr (
              refl,
              (m, same, valid, room, copied-find _ _ _ f t),
              unlinked-none f (copied (destination m) (id_of m) (object (routed_form m)) t),
            )))

    -- The message is handed over in a state `t`, which may differ from `s` in the outbox.
    handed-Settles :
        (recipient : Text) (form : Message) (t : Mailboxes)
        → destination m ≡ recipient
        → routed_form m ≡ form
        → (IsFull (recipient_of m) s → ⊥)
        → Settles is_iso o f s (deliver o f recipient (id_of m) (object form) t o.inbox_made)
    handed-Settles recipient form t to looks room =
        subst (λ r. Settles is_iso o f s (deliver o f r (id_of m) (object form) t o.inbox_made)) to
          (subst
            (λ x.
              Settles is_iso o f s
                (deliver o f (destination m) (id_of m) (object x) t o.inbox_made))
            looks (deliver-Settles t room))

    redirect-Settles :
        has_command m ≡ true
        → (IsFull (recipient_of m) s → ⊥)
        → Settles is_iso o f s (redirect o f m s o.rewrite)
    unfolding redirect
    redirect-Settles cmd room =
        subst (λ w. Settles is_iso o f s (redirect o f m s w)) (sym smooth.rewrite)
          (handed-Settles operator (intercepted_at_router m)
            (rewritten f (object (intercepted_at_router m)) s) (unfold destination in rw cmd refl)
            (unfold routed_form in rw cmd refl) room)

    body-Settles :
        (b : Bool)
        → has_command m ≡ b
        → (IsFull (recipient_of m) s → ⊥)
        → Settles is_iso o f s (route_by_body o f m s b)
    unfolding route_by_body
    body-Settles true e room = redirect-Settles e room
    body-Settles false e room =
        handed-Settles (recipient_of m) m s (unfold destination in rw e refl)
          (unfold routed_form in rw e refl) room

    room-Settles :
        (b : Bool)
        → leb inbox_cap (inbox_count (recipient_of m) s) ≡ b
        → Settles is_iso o f s (route_by_room o f m s b)
    unfolding route_by_room
    room-Settles true e = inr (inl (refl, (m, same, ground arith), refl))
    room-Settles false e = body-Settles (has_command m) refl (λ h. ground arith)

    hops-Settles : (b : Bool) → b ≡ false → Settles is_iso o f s (route_by_hops o f m s b)
    unfolding route_by_hops
    hops-Settles true h = absurd (cc h)
    hops-Settles false h = room-Settles _ refl

  checked-Settles :
      (m : Message) (s : Mailboxes) (v : Validation)
      → f.content ≡ object m
      → validate_message is_iso m ≡ v
      → v ≢ type_error
      → Settles is_iso o f s (route_validated o f m s v)
  unfolding route_validated
  checked-Settles m s type_error same e ne = absurd (ne refl)
  checked-Settles m s (faults (x ∷ xs)) same e ne = aside-Settles s (λ n same' valid.
      faults-filled x xs
        (sym e ∙ ap (validate_message is_iso) (object-injective m n (sym same ∙ same')) ∙ valid))
  checked-Settles m s (faults []) same e ne = hops-Settles m s same e _ (valid-hops is_iso m e)

  content-Settles :
      (s : Mailboxes) (c : Content)
      → f.content ≡ c
      → (IsPoison is_iso f → ⊥)
      → Settles is_iso o f s (route_content is_iso o f s c)
  unfolding route_content
  content-Settles s not_utf8 e sound = absurd (sound (inl e))
  content-Settles s not_json e sound = aside-Settles s (λ m same. absurd (cc (sym e ∙ same)))
  content-Settles s not_object e sound = aside-Settles s (λ m same. absurd (cc (sym e ∙ same)))
  content-Settles s (object m) e sound =
      checked-Settles m s (validate_message is_iso m) e refl (λ t. sound (inr (m, e, t)))

  route_one-Settles :
      (s : Mailboxes)
      → (IsPoison is_iso f → ⊥)
      → Settles is_iso o f s (route_one is_iso o s f o.readable)
  unfolding route_one
  route_one-Settles s sound =
      subst (λ b. Settles is_iso o f s (route_one is_iso o s f b)) (sym smooth.readable)
        (content-Settles s f.content refl sound)

-- A routing cycle that gets through a list of files, each settled in the state that the files before
-- it have left.
pub data Through (is_iso : Text → Bool) (os : File → Outcomes)
    : Mailboxes → List File → Mailboxes × List Event → Type 0 where
  finished : (s : Mailboxes) → Through is_iso os s [] (s, [])
  settles :
      (s t u : Mailboxes) (f : File) (fs : List File) (e : Event) (es : List Event)
      → Settles is_iso (os f) f s (t, e)
      → Through is_iso os t fs (u, es)
      → Through is_iso os s (f ∷ fs) (u, e ∷ es)

module _ (is_iso : Text → Bool) (os : File → Outcomes) where
  after_one-Through :
      (s : Mailboxes) (f : File) (fs : List File) (r : Mailboxes × Event)
      (k : Mailboxes → Mailboxes × List Event)
      → Settles is_iso (os f) f s r
      → Through is_iso os r.0 fs (k r.0)
      → Through is_iso os s (f ∷ fs) (after_one r k)
  unfolding after_one
  after_one-Through s f fs (t, aborted) k h rest = absurd (ground arith)
  after_one-Through s f fs (t, quarantined) k h rest = settles s t _ f fs _ _ h rest
  after_one-Through s f fs (t, hop_limit_terminated) k h rest = settles s t _ f fs _ _ h rest
  after_one-Through s f fs (t, backpressure_held) k h rest = settles s t _ f fs _ _ h rest
  after_one-Through s f fs (t, delivery_deferred) k h rest = settles s t _ f fs _ _ h rest
  after_one-Through s f fs (t, delivered_unlink_deferred) k h rest = settles s t _ f fs _ _ h rest
  after_one-Through s f fs (t, delivered) k h rest = settles s t _ f fs _ _ h rest

  route_all-Through :
      (fs : List File) (s : Mailboxes)
      → All (λ f. IsSmooth (os f) × (IsPoison is_iso f → ⊥)) fs
      → Through is_iso os s fs (route_all is_iso os fs s)
  unfolding route_all
  route_all-Through [] s h = finished s
  route_all-Through (f ∷ fs) s ((smooth, sound), rest) =
      let r = route_one is_iso (os f) s f (os f).readable in
      after_one-Through s f fs r (λ t. route_all is_iso os fs t)
        (route_one-Settles is_iso (os f) f smooth s sound) (route_all-Through fs r.0 rest)

  -- Where every call for a pending file succeeds, the rewriting of a message with a command included, and
  -- no pending file is one on which reading or validation raises, a routing cycle gets through all
  -- of them. One after the other, each leaves the outbox for the quarantine, if it has no valid
  -- message, stays and changes nothing, if the inbox of its recipient has 50 messages or more by then,
  -- or leaves the outbox for its destination's inbox, in the form in which it is handed over.
  pub route_cycle-Through :
      (s : Mailboxes)
      → All (λ f. IsSmooth (os f) × (IsPoison is_iso f → ⊥)) (list_outbox_files s)
      → Through is_iso os s (list_outbox_files s) (route_cycle is_iso os s)
  unfolding route_cycle
  route_cycle-Through s h = route_all-Through (list_outbox_files s) s h
