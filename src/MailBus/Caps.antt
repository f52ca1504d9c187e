-- ===== src/MailBus/Caps.antt =====
-- orchestrator/mailbus.py: the cap on an inbox.
use agi_inspired.Prelude.{
  ◌≤◌, ◌<◌, Bool, true, false, List, [], ◌∷◌, All, count, ◌≡◌, ◌≢◌, subst, inl, inr, Bool-cases,
  arith,
}
use agi_inspired.Prelude.Text.{Text, text_eq, text_eq_sound}
use agi_inspired.MailBus.Message.{Message}
use agi_inspired.MailBus.Commands.{operator}
use agi_inspired.MailBus.Files.{Content, object, File, Mailboxes, put, is_message_of, inbox_count}
use agi_inspired.MailBus.Paths.{count-put_le, count-remove_le}
use agi_inspired.MailBus.Router.{
  inbox_cap, Outcomes, Event, file_of, unlinked, set_aside, rewritten, copied, id_of, recipient_of,
  route_one, route_all, route_cycle, list_outbox_files,
}
use agi_inspired.MailBus.Routed.{
  has_command, destination, routed_form, prepared, handed, HasRoom, Routed, stays, put_aside,
  spoilt, waits, left_behind, arrives, after_one-holds, route_one-Routed,
}

count-put_none :
    (p : File → Bool) (a n : Text) (c : Content) (fs : List File)
    → p (record { agent = a; name = n; content = c }) ≡ false
    → count p (put a n c fs) ≤ count p fs
unfolding count put
count-put_none p a n c fs h = ground (arith, count-remove_le p a n fs)

other_agent :
    (b a n : Text) (c : Content)
    → text_eq b a ≡ false
    → is_message_of a (record { agent = b; name = n; content = c }) ≡ false
unfolding is_message_of
other_agent b a n c h = ground arith

-- No message of the file is redirected to the agent.
abbrev pub NotRedirected : Text → File → Type 0
NotRedirected a f = (m : Message) → f.content ≡ object m → has_command m ≡ true → operator ≢ a

module _ (a : Text) (f : File) (s : Mailboxes) (direct : NotRedirected a f)
    (within : inbox_count a s ≤ inbox_cap) where
  prepared-inbox : (m : Message) → (prepared f m s).inbox ≡ s.inbox
  unfolding prepared rewritten
  prepared-inbox m = ground arith

  -- A message for the agent that has no command is one for which the agent has room.
  for_the_agent : (m : Message) → HasRoom f m s → destination m ≡ a → inbox_count a s < inbox_cap
  unfolding destination
  for_the_agent m room e = elim (Bool-cases (has_command m)) [
    | inl cmd ↦ let e' : operator ≡ a = rw cmd at e in absurd (direct m room.0 cmd e')
    | inr no' ↦
        let e' : recipient_of m ≡ a = rw no' at e in
        subst (λ t. inbox_count t s < inbox_cap) e' room.1
  ]

  handed-inbox_cap : (m : Message) → HasRoom f m s → inbox_count a (handed f m s) ≤ inbox_cap
  unfolding inbox_count copied is_message_of
  handed-inbox_cap m room = elim (Bool-cases (text_eq (destination m) a)) [
    | inl e ↦ ground (
      arith,
      for_the_agent m room (text_eq_sound _ _ e),
      count-put_le (is_message_of a) (destination m) (file_of (id_of m)) (object (routed_form m))
          (prepared f m s).inbox,
      prepared-inbox m,
    )
    | inr e ↦ ground (
      arith,
      count-put_none (is_message_of a) (destination m) (file_of (id_of m)) (object (routed_form m))
          (prepared f m s).inbox,
      prepared-inbox m,
      other_agent (destination m) a (file_of (id_of m)) (object (routed_form m)) e,
    )
  ]

  Routed-inbox_cap :
      (o : Outcomes) (r : Mailboxes × Event) → Routed o f s r → inbox_count a r.0 ≤ inbox_cap
  unfolding inbox_count
  Routed-inbox_cap o _ (stays e _) = within
  Routed-inbox_cap o _ put_aside = unfold set_aside unlinked in within
  Routed-inbox_cap o _ (spoilt c e) = unfold rewritten in within
  Routed-inbox_cap o _ (waits m e room _) = rw (prepared-inbox m) within
  Routed-inbox_cap o _ (left_behind m e room _) = handed-inbox_cap m room
  Routed-inbox_cap o _ (arrives m room) = let h = handed-inbox_cap m room in unfold unlinked in h

module _ (is_iso : Text → Bool) (os : File → Outcomes) (a : Text) where
  route_all-inbox_cap :
      (fs : List File) (s : Mailboxes)
      → All (NotRedirected a) fs
      → inbox_count a s ≤ inbox_cap
      → inbox_count a (route_all is_iso os fs s).0 ≤ inbox_cap
  unfolding route_all
  route_all-inbox_cap [] s direct within = within
  route_all-inbox_cap (f ∷ fs) s direct within =
      let r = route_one is_iso (os f) s f (os f).readable in
      let w =
        Routed-inbox_cap a f s direct.0 within (os f) r
          (route_one-Routed is_iso (os f) f s (os f).readable) in
      after_one-holds (λ t. inbox_count a t ≤ inbox_cap) r _ w
        (route_all-inbox_cap fs r.0 direct.1 w)

  -- An inbox that has at most `inbox_cap` messages has at most that many after any routing cycle, if no
  -- pending message is redirected to its agent: the redirection of messages with commands to the
  -- operator asks for no room.
  pub route_cycle-inbox_cap :
      (s : Mailboxes)
      → All (NotRedirected a) (list_outbox_files s)
      → inbox_count a s ≤ inbox_cap
      → inbox_count a (route_cycle is_iso os s).0 ≤ inbox_cap
  unfolding route_cycle
  route_cycle-inbox_cap s direct within = route_all-inbox_cap (list_outbox_files s) s direct within
