-- ===== src/MailBus/Guarded.antt =====
-- orchestrator/mailbus.py: no message with an execution command reaches the inbox of a worker.
use agi_inspired.Prelude.{
  Bool, true, false, Option, none, some, List, [], ◌∷◌, All, ◌≡◌, ◌⊎◌, inl, inr, refl, sym, subst,
  Bool-cases,
}
use agi_inspired.Prelude.Text.{Text}
use agi_inspired.MailBus.Message.{Message, Validation, type_error, faults, validate_message}
use agi_inspired.MailBus.Commands.{operator, intercepted}
use agi_inspired.MailBus.Files.{
  Content, not_utf8, not_json, not_object, object, File, Mailboxes, put,
}
use agi_inspired.MailBus.Paths.{All-put, All-remove}
use agi_inspired.MailBus.Retry.{Retried, succeeded, exhausted, raised, retry_with_backoff}
use agi_inspired.MailBus.Router.{
  Rewrite, written, not_opened, broken_off, Outcomes, Event, file_of, unlinked, set_aside,
  rewritten, copied, id_of, route_one, route_all, route_cycle, list_outbox_files,
}
use agi_inspired.MailBus.Routed.{
  has_command, destination, routed_form, prepared, handed, Routed, stays, put_aside, spoilt, waits,
  left_behind, arrives, after_one-holds, route_one-Routed,
}
use agi_inspired.MailBus.Agent.{
  sender_of, ensure_outbox, in_outbox, write_message, send_by_body, send_validated, send, Reading,
  archived, archive_message, marked, content_read, after_read, collect_marked, read_content,
  read_files, list_inbox_files, sorted_read, read_inbox,
}

-- A file of the operator, or one without an execution command.
abbrev pub IsGuarded : File → Type 0
IsGuarded f = (f.agent ≡ operator) ⊎ ((m : Message) → f.content ≡ object m → has_command m ≡ false)

abbrev pub AllGuarded : Mailboxes → Type 0
AllGuarded s = All IsGuarded s.inbox

pub object-injective : (m k : Message) → object m ≡ object k → m ≡ k
object-injective m k e = cc

handed-IsGuarded :
    (m : Message) (n : Text)
    → IsGuarded (record { agent = destination m; name = n; content = object (routed_form m) })
unfolding destination routed_form
handed-IsGuarded m n = elim (Bool-cases (has_command m)) [
  | inl e ↦ inl (rw e refl)
  | inr e ↦ inr (λ k e'.
      let e2 : object m ≡ object k = rw e at e' in
      subst (λ x. has_command x ≡ false) (object-injective m k e2) e)
]

module _ (o : Outcomes) (f : File) (s : Mailboxes) (guarded : AllGuarded s) where
  prepared-AllGuarded : (m : Message) → AllGuarded (prepared f m s)
  unfolding prepared rewritten
  prepared-AllGuarded m = elim (Bool-cases (has_command m)) [
    | inl e ↦ rw e guarded
    | inr e ↦ rw e guarded
  ]

  handed-AllGuarded : (m : Message) → AllGuarded (handed f m s)
  unfolding copied
  handed-AllGuarded m =
      All-put IsGuarded (destination m) (file_of (id_of m)) (object (routed_form m))
        (prepared f m s).inbox (handed-IsGuarded m (file_of (id_of m))) (prepared-AllGuarded m)

  Routed-AllGuarded : (r : Mailboxes × Event) → Routed o f s r → AllGuarded r.0
  Routed-AllGuarded _ (stays e _) = guarded
  Routed-AllGuarded _ put_aside = unfold set_aside unlinked in guarded
  Routed-AllGuarded _ (spoilt c e) = unfold rewritten in guarded
  Routed-AllGuarded _ (waits m e room _) = prepared-AllGuarded m
  Routed-AllGuarded _ (left_behind m e room _) = handed-AllGuarded m
  Routed-AllGuarded _ (arrives m room) = let h = handed-AllGuarded m in unfold unlinked in h

route_all-AllGuarded :
    (is_iso : Text → Bool) (os : File → Outcomes) (fs : List File) (s : Mailboxes)
    → AllGuarded s
    → AllGuarded (route_all is_iso os fs s).0
unfolding route_all
route_all-AllGuarded is_iso os [] s h = h
route_all-AllGuarded is_iso os (f ∷ fs) s h =
    let r = route_one is_iso (os f) s f (os f).readable in
    let h' =
      Routed-AllGuarded (os f) f s h r (route_one-Routed is_iso (os f) f s (os f).readable) in
    after_one-holds AllGuarded r _ h' (route_all-AllGuarded is_iso os fs r.0 h')

write-inbox :
    (agent : Text) (m : Message) (s : Mailboxes) (b : Bool) (w : Rewrite)
    → (write_message agent m s b w).0.inbox ≡ s.inbox
unfolding write_message in_outbox
write-inbox agent m s false w = refl
write-inbox agent m s true written = refl
write-inbox agent m s true not_opened = refl
write-inbox agent m s true (broken_off c) = refl

by_body-inbox :
    (s : Mailboxes) (m : Message) (w : Rewrite) (b : Bool)
    → (send_by_body s m w b).0.inbox ≡ s.inbox
unfolding send_by_body
by_body-inbox s m w true = write-inbox operator (intercepted m) s _ w
by_body-inbox s m w false = write-inbox (sender_of m) m s _ w

send-inbox :
    (s : Mailboxes) (m : Message) (w : Rewrite) (v : Validation)
    → (send_validated s m w v).0.inbox ≡ s.inbox
unfolding send_validated
send-inbox s m w type_error = refl
send-inbox s m w (faults (x ∷ xs)) = refl
send-inbox s m w (faults []) =
    unfold ensure_outbox in (by_body-inbox (ensure_outbox (sender_of m) s) m w _)

after_read-state : (m : Message) (r : Mailboxes × Option (List Message)) → (after_read m r).0 ≡ r.0
unfolding after_read
after_read-state m (s, none) = refl
after_read-state m (s, some ms) = refl

module _ (mark : Bool) (f : File) (s : Mailboxes) (guarded : AllGuarded s)
    (rest : Mailboxes → Mailboxes × Option (List Message))
    (rest_guarded : (t : Mailboxes) → AllGuarded t → AllGuarded (rest t).0) where
  goes_on :
      (m : Message) (t : Mailboxes) → AllGuarded t → AllGuarded (collect_marked m s (some t) rest).0
  unfolding collect_marked
  goes_on m t h = subst AllGuarded (sym (after_read-state m (rest t))) (rest_guarded t h)

  moved-AllGuarded :
      (m : Message) (r : Retried) → AllGuarded (collect_marked m s (archive_message f s r) rest).0
  unfolding archive_message
  moved-AllGuarded m succeeded =
      goes_on m (archived f s)
        (unfold archived in All-remove IsGuarded f.agent f.name s.inbox guarded)
  moved-AllGuarded m exhausted = goes_on m s guarded
  moved-AllGuarded m raised = unfold collect_marked in guarded

  content-AllGuarded :
      (o : Reading) (b : Bool) (c : Content) → AllGuarded (read_content b o f s c rest).0
  unfolding read_content marked
  content-AllGuarded o b not_utf8 = guarded
  content-AllGuarded o b not_json = rest_guarded s guarded
  content-AllGuarded o b not_object = rest_guarded s guarded
  content-AllGuarded o false (object m) = goes_on m s guarded
  content-AllGuarded o true (object m) = moved-AllGuarded m (retry_with_backoff o.replace o.clock).0

read_files-AllGuarded :
    (mark : Bool) (os : File → Reading) (fs : List File) (s : Mailboxes)
    → AllGuarded s
    → AllGuarded (read_files mark os fs s).0
unfolding read_files
read_files-AllGuarded mark os [] s h = h
read_files-AllGuarded mark os (f ∷ fs) s h =
    content-AllGuarded mark f s h (λ t. read_files mark os fs t) (read_files-AllGuarded mark os fs)
      (os f) mark (content_read (os f) f.content)

sorted_read-state :
    (sort_values : List Message → Option (List Message)) (r : Mailboxes × Option (List Message))
    → (sorted_read sort_values r).0 ≡ r.0
unfolding sorted_read
sorted_read-state sort_values (s, none) = refl
sorted_read-state sort_values (s, some ms) = refl

-- One thing that happens to the mailboxes: an agent sends, the router has a cycle, an agent reads, or
-- some program puts any file into an outbox.
pub data Step (is_iso : Text → Bool) : Mailboxes → Mailboxes → Type 0 where
  sends : {s : Mailboxes} (m : Message) (w : Rewrite) → Step is_iso s (send is_iso s m w).0
  routes : {s : Mailboxes} (os : File → Outcomes) → Step is_iso s (route_cycle is_iso os s).0
  reads :
      {s : Mailboxes} (sort_values : List Message → Option (List Message)) (mark : Bool)
      → (os : File → Reading) (agent : Text)
      → Step is_iso s (read_inbox sort_values mark os agent s).0
  drops :
      {s : Mailboxes} (agent name : Text) (c : Content)
      → Step is_iso s (record s { outbox = put agent name c s.outbox })

pub data Reach (is_iso : Text → Bool) : Mailboxes → Mailboxes → Type 0 where
  start : {s : Mailboxes} → Reach is_iso s s
  then_step : {s t u : Mailboxes} → Reach is_iso s t → Step is_iso t u → Reach is_iso s u

Step-AllGuarded :
    (is_iso : Text → Bool) {s t : Mailboxes} → Step is_iso s t → AllGuarded s → AllGuarded t
Step-AllGuarded is_iso (sends {s} m w) h =
    unfold send in subst (All IsGuarded) (sym (send-inbox s m w (validate_message is_iso m))) h
Step-AllGuarded is_iso (routes {s} os) h =
    unfold route_cycle in route_all-AllGuarded is_iso os (list_outbox_files s) s h
Step-AllGuarded is_iso (reads {s} sort_values mark os agent) h =
    unfold read_inbox in
    subst AllGuarded
      (sym (sorted_read-state sort_values (read_files mark os (list_inbox_files agent s) s)))
      (read_files-AllGuarded mark os (list_inbox_files agent s) s h)
Step-AllGuarded is_iso (drops agent name c) h = h

-- Whatever the agents send, whatever files stand in the outboxes, and in every order of sends, routing
-- cycles and reads: if at first every message with an execution command in an inbox is in the inbox of
-- the operator, that is always so.
pub Reach-AllGuarded :
    (is_iso : Text → Bool) {s t : Mailboxes} → Reach is_iso s t → AllGuarded s → AllGuarded t
Reach-AllGuarded is_iso start h = h
Reach-AllGuarded is_iso (then_step r step) h =
    Step-AllGuarded is_iso step (Reach-AllGuarded is_iso r h)
