-- ===== src/MailBus/Delivery.antt =====
-- orchestrator/mailbus.py: no message is lost in a routing cycle.
use agi_inspired.Prelude.{
  Bool, false, some, List, [], ◌∷◌, All, keep, ◌≡◌, ◌≢◌, ◌⊎◌, inl, inr, refl, ◌∙◌, ap, Bool-cases,
  arith, All-keep_of,
}
use agi_inspired.Prelude.Text.{Text, text_eq}
use agi_inspired.Prelude.Sort.{All-sort_by}
use agi_inspired.MailBus.Message.{Message, is_message_file}
use agi_inspired.MailBus.Files.{Content, object, File, Mailboxes, find}
use agi_inspired.MailBus.Paths.{Apart, find-put, find-put_other, find-remove_other}
use agi_inspired.MailBus.Router.{
  broken_off, Outcomes, Event, file_order, list_outbox_files, file_of, quarantined_name, unlinked,
  set_aside, rewritten, copied, id_of, route_one, route_all, route_cycle,
}
use agi_inspired.MailBus.Routed.{
  has_command, after_one-holds, destination, routed_form, prepared, handed, Routed, stays,
  put_aside, spoilt, waits, left_behind, arrives, route_one-Routed,
}

-- The outbox has the file, as it was or rewritten for the operator.
abbrev pub IsPending : File → Mailboxes → Type 0
IsPending f s =
    (find f.agent f.name s.outbox ≡ some f.content)
    ⊎ ((m : Message) × (f.content ≡ object m)
        × (find f.agent f.name s.outbox ≡ some (object (routed_form m))))

abbrev pub IsAside : Outcomes → File → Mailboxes → Type 0
IsAside o f s = find f.agent (quarantined_name o f) s.quarantine ≡ some f.content

-- The inbox of its destination has the message in the form in which it is handed over.
abbrev pub IsDelivered : File → Mailboxes → Type 0
IsDelivered f s =
    (m : Message) × (f.content ≡ object m)
    × (find (destination m) (file_of (id_of m)) s.inbox ≡ some (object (routed_form m)))

abbrev pub Accounted : (File → Outcomes) → File → Mailboxes → Type 0
Accounted os f s = IsPending f s ⊎ (IsAside (os f) f s ⊎ IsDelivered f s)

-- Two files that differ in the path, in the path under `.quarantine` and in the name that they have in an inbox.
abbrev pub Separate : (File → Outcomes) → File → File → Type 0
Separate os f g =
    Apart f.agent f.name g.agent g.name
    × Apart f.agent (quarantined_name (os f) f) g.agent (quarantined_name (os g) g)
    × ((m n : Message)
        → f.content ≡ object m
        → g.content ≡ object n
        → text_eq (file_of (id_of m)) (file_of (id_of n)) ≡ false)

Apart-names : (a b n m : Text) → text_eq n m ≡ false → Apart a n b m
Apart-names a b n m h = ground arith

module _ (os : File → Outcomes) (f : File) (s : Mailboxes)
    (unbroken : (c : Content) → (os f).rewrite ≢ broken_off c) where
  prepared-IsPending :
      (m : Message) → f.content ≡ object m → IsPending f s → IsPending f (prepared f m s)
  unfolding prepared rewritten routed_form
  prepared-IsPending m e h = elim (Bool-cases (has_command m)) [
    | inl yes' ↦ inr (m, e, rw yes' (find-put f.agent f.name _ s.outbox))
    | inr no' ↦ rw no' h
  ]

  handed-IsDelivered : (m : Message) → f.content ≡ object m → IsDelivered f (handed f m s)
  unfolding copied
  handed-IsDelivered m e = (m, e, find-put (destination m) (file_of (id_of m)) _ _)

  -- The file that is routed is accounted for.
  Routed-Accounted :
      (r : Mailboxes × Event) → Routed (os f) f s r → IsPending f s → Accounted os f r.0
  unfolding unlinked set_aside
  Routed-Accounted _ (stays e _) h = inl h
  Routed-Accounted _ put_aside h =
      inr (inl (find-put f.agent (quarantined_name (os f) f) f.content s.quarantine))
  Routed-Accounted _ (spoilt c e) h = absurd (unbroken c e)
  Routed-Accounted _ (waits m e room _) h = inl (prepared-IsPending m room.0 h)
  Routed-Accounted _ (left_behind m e room _) h = inr (inr (handed-IsDelivered m room.0))
  Routed-Accounted _ (arrives m room) h = inr (inr (handed-IsDelivered m room.0))

module _ (os : File → Outcomes) (f g : File) (s : Mailboxes) (apart : Separate os g f) where
  rewritten-outbox :
      (c : Content) → find g.agent g.name (rewritten f c s).outbox ≡ find g.agent g.name s.outbox
  unfolding rewritten
  rewritten-outbox c = find-put_other g.agent g.name f.agent f.name c s.outbox apart.0

  prepared-outbox :
      (m : Message) → find g.agent g.name (prepared f m s).outbox ≡ find g.agent g.name s.outbox
  unfolding prepared
  prepared-outbox m = elim (Bool-cases (has_command m)) [
    | inl e ↦ rw e (rewritten-outbox _)
    | inr e ↦ rw e refl
  ]

  prepared-rest :
      (m : Message)
      → ((prepared f m s).inbox ≡ s.inbox) × ((prepared f m s).quarantine ≡ s.quarantine)
  unfolding prepared rewritten
  prepared-rest m = ground arith

  -- What the state has of the other file.
  abbrev Unmoved : Mailboxes → Type 0
  Unmoved t =
      (find g.agent g.name t.outbox ≡ find g.agent g.name s.outbox)
      × (find g.agent (quarantined_name (os g) g) t.quarantine
          ≡ find g.agent (quarantined_name (os g) g) s.quarantine)
      × ((n : Message)
          → g.content ≡ object n
          → find (destination n) (file_of (id_of n)) t.inbox
            ≡ find (destination n) (file_of (id_of n)) s.inbox)

  prepared-Unmoved : (m : Message) → Unmoved (prepared f m s)
  prepared-Unmoved m =
      let (i, q) = prepared-rest m in (prepared-outbox m, rw q refl, λ n e. rw i refl)

  handed-Unmoved : (m : Message) → f.content ≡ object m → Unmoved (handed f m s)
  unfolding copied
  handed-Unmoved m e =
      let (i, q) = prepared-rest m in
      (
        prepared-outbox m,
        rw q refl,
        λ n e'.
            find-put_other (destination n) (file_of (id_of n)) (destination m) (file_of (id_of m)) _
              _
              (Apart-names (destination n) (destination m) (file_of (id_of n)) (file_of (id_of m))
                (apart.2 n m e' e))
            ∙ ap (find (destination n) (file_of (id_of n))) i,
      )

  Routed-Unmoved : (r : Mailboxes × Event) → Routed (os f) f s r → Unmoved r.0
  Routed-Unmoved _ (stays e _) = (refl, refl, λ n e'. refl)
  Routed-Unmoved _ put_aside =
      unfold set_aside unlinked in
      (
        find-remove_other g.agent g.name f.agent f.name s.outbox apart.0,
        find-put_other g.agent (quarantined_name (os g) g) f.agent (quarantined_name (os f) f)
            f.content s.quarantine apart.1,
        λ n e. refl,
      )
  Routed-Unmoved _ (spoilt c e) = unfold rewritten in (rewritten-outbox c, refl, λ n e. refl)
  Routed-Unmoved _ (waits m e room _) = prepared-Unmoved m
  Routed-Unmoved _ (left_behind m e room _) = handed-Unmoved m room.0
  Routed-Unmoved _ (arrives m room) =
      let (o, q, i) = handed-Unmoved m room.0 in
      unfold unlinked in
      (find-remove_other g.agent g.name f.agent f.name (handed f m s).outbox apart.0 ∙ o, q, i)

  -- The routing of one file leaves every separate file as it is, and accounted for.
  Routed-IsPending : (r : Mailboxes × Event) → Routed (os f) f s r → IsPending g s → IsPending g r.0
  Routed-IsPending r h (inl e) = inl ((Routed-Unmoved r h).0 ∙ e)
  Routed-IsPending r h (inr (m, c, e)) = inr (m, c, (Routed-Unmoved r h).0 ∙ e)

  Routed-other :
      (r : Mailboxes × Event) → Routed (os f) f s r → Accounted os g s → Accounted os g r.0
  Routed-other r h (inl p) = inl (Routed-IsPending r h p)
  Routed-other r h (inr (inl q)) = inr (inl ((Routed-Unmoved r h).1 ∙ q))
  Routed-other r h (inr (inr (m, c, e))) = inr (inr (m, c, (Routed-Unmoved r h).2 m c ∙ e))

-- Every file of a list is separate from those after it.
abbrev pub AllSeparate : (File → Outcomes) → List File → Type 0
AllSeparate os [] = Unit
AllSeparate os (f ∷ fs) = All (λ g. Separate os g f × Separate os f g) fs × AllSeparate os fs

module _ (is_iso : Text → Bool) (os : File → Outcomes)
    (unbroken : (f : File) (c : Content) → (os f).rewrite ≢ broken_off c) where
  -- The rest of the loop leaves what is separate from it accounted for.
  route_all-other :
      (g : File) (fs : List File) (s : Mailboxes)
      → All (λ f. Separate os g f) fs
      → Accounted os g s
      → Accounted os g (route_all is_iso os fs s).0
  unfolding route_all
  route_all-other g [] s apart a = a
  route_all-other g (f ∷ fs) s apart a =
      let r = route_one is_iso (os f) s f (os f).readable in
      let a' =
        Routed-other os f g s apart.0 r (route_one-Routed is_iso (os f) f s (os f).readable) a in
      after_one-holds (Accounted os g) r _ a' (route_all-other g fs r.0 apart.1 a')

  IsPending-after :
      (f : File) (gs : List File) (s : Mailboxes) (r : Mailboxes × Event)
      → Routed (os f) f s r
      → All (λ g. Separate os g f × Separate os f g) gs
      → All (λ g. IsPending g s) gs
      → All (λ g. IsPending g r.0) gs
  IsPending-after f [] s r h apart p = tt
  IsPending-after f (g ∷ gs) s r h apart p =
      (Routed-IsPending os f g s apart.0.0 r h p.0, IsPending-after f gs s r h apart.1 p.1)

  Separate-left :
      (f : File) (gs : List File)
      → All (λ g. Separate os g f × Separate os f g) gs
      → All (λ g. Separate os f g) gs
  Separate-left f [] h = tt
  Separate-left f (g ∷ gs) h = (h.0.1, Separate-left f gs h.1)

  All-IsPending :
      (gs : List File) (s : Mailboxes)
      → All (λ g. IsPending g s) gs
      → All (λ g. Accounted os g s) gs
  All-IsPending [] s h = tt
  All-IsPending (g ∷ gs) s h = (inl h.0, All-IsPending gs s h.1)

  route_all-Accounted :
      (fs : List File) (s : Mailboxes)
      → AllSeparate os fs
      → All (λ f. IsPending f s) fs
      → All (λ f. Accounted os f (route_all is_iso os fs s).0) fs
  unfolding route_all
  route_all-Accounted [] s apart p = tt
  route_all-Accounted (f ∷ fs) s apart p =
      let r = route_one is_iso (os f) s f (os f).readable in
      let h = route_one-Routed is_iso (os f) f s (os f).readable in
      let a = Routed-Accounted os f s (unbroken f) r h p.0 in
      let p' = IsPending-after f fs s r h apart.0 p.1 in
      (
        after_one-holds (Accounted os f) r _ a
            (route_all-other f fs r.0 (Separate-left f fs apart.0) a),
        after_one-holds (λ t. All (λ g. Accounted os g t) fs) r _ (All-IsPending fs r.0 p')
            (route_all-Accounted fs r.0 apart.1 p'),
      )

  -- Where each path of the outbox has one file, no rewriting of a file breaks off midway, and the pending
  -- files differ in their paths, their quarantine paths and the ids of their messages, every pending
  -- file is accounted for after a routing cycle, also after one that an exception ended: it is still in
  -- the outbox (as it was, or as the message rewritten for the operator), or in the quarantine as
  -- it was, or its message is in the inbox of its destination.
  pub route_cycle-Accounted :
      (s : Mailboxes)
      → All (λ f. find f.agent f.name s.outbox ≡ some f.content) s.outbox
      → AllSeparate os (list_outbox_files s)
      → All (λ f. Accounted os f (route_cycle is_iso os s).0) (list_outbox_files s)
  unfolding route_cycle
  route_cycle-Accounted s own apart =
      route_all-Accounted (list_outbox_files s) s apart (pending (list_outbox_files s) listed)
    where
      listed : All (λ f. find f.agent f.name s.outbox ≡ some f.content) (list_outbox_files s)
      listed =
          unfold list_outbox_files in
          All-sort_by file_order (λ f. find f.agent f.name s.outbox ≡ some f.content)
            (keep (λ f. is_message_file f.name) s.outbox) (All-keep_of _ _ s.outbox own)

      pending :
          (fs : List File)
          → All (λ f. find f.agent f.name s.outbox ≡ some f.content) fs
          → All (λ f. IsPending f s) fs
      pending [] h = tt
      pending (f ∷ fs) h = (inl h.0, pending fs h.1)
