-- ===== src/MailBus/Valid.antt =====
-- orchestrator/mailbus.py: what a message that passes the schema has.
use agi_inspired.Prelude.{
  ◌≤◌, Bool, true, false, Option, none, some, List, [], ◌∷◌, ◌++◌, ltb, ◌≡◌, refl, ◌∙◌, ap, arith,
}
use agi_inspired.Prelude.Text.{Text, contains, strip}
use agi_inspired.MailBus.Message.{
  Value, null, boolean, negative, integer, text, float, collection, Message, get, max_hops,
  allowed_verbs, Key, id_key, act_key, from_key, to_key, body_key, Fault, is_message_id, is_empty,
  invalid_unless, id_faults, act_faults, hops_faults, filled_faults, text_faults, missing_fields,
  faults, value_faults, validate_present, validate_message,
}
use agi_inspired.MailBus.Router.{hops_of}

append-nil : {A : Type 0} (xs ys : List A) → (xs ++ ys) ≡ [] → (xs ≡ []) × (ys ≡ [])
append-nil [] ys h = (refl, h)
append-nil (x ∷ xs) ys h = cc

some-injective : {A : Type 0} {x y : A} → some x ≡ some y → x ≡ y
some-injective h = cc

invalid_unless-nil : (k : Key) (b : Bool) → invalid_unless k b ≡ [] → b ≡ true
unfolding invalid_unless
invalid_unless-nil k true h = refl
invalid_unless-nil k false h = cc

-- The values that the schema asks for.
pub record IsValid (m : Message) : Type 0 where
  pub id : (t : Text) × (get m.id ≡ text t) × (is_message_id t ≡ true)
  pub act : (t : Text) × (get m.act ≡ text t) × (contains allowed_verbs t ≡ true)
  pub hops : hops_of (get m.hops) ≤ max_hops
  pub sender : (t : Text) × (get m.sender ≡ text t) × (is_empty (strip t) ≡ false)
  pub to : (t : Text) × (get m.to ≡ text t) × (is_empty (strip t) ≡ false)
  pub body : (t : Text) × (get m.body ≡ text t)

valid_id : (v : Value) → id_faults v ≡ [] → (t : Text) × (v ≡ text t) × (is_message_id t ≡ true)
unfolding id_faults
valid_id (text t) h = (t, refl, invalid_unless-nil id_key (is_message_id t) h)
valid_id null h = cc
valid_id (boolean b) h = cc
valid_id (negative n) h = cc
valid_id (integer n) h = cc
valid_id (float n) h = cc
valid_id (collection n) h = cc

valid_act :
    (v : Value)
    → act_faults v ≡ some []
    → (t : Text) × (v ≡ text t) × (contains allowed_verbs t ≡ true)
unfolding act_faults
valid_act (text t) h =
    (t, refl, invalid_unless-nil act_key (contains allowed_verbs t) (some-injective h))
valid_act null h = cc
valid_act (boolean b) h = cc
valid_act (negative n) h = cc
valid_act (integer n) h = cc
valid_act (float n) h = cc
valid_act (collection n) h = cc

valid_hops : (v : Value) → hops_faults v ≡ [] → hops_of v ≤ max_hops
unfolding hops_faults hops_of
valid_hops (text t) h = cc
valid_hops null h = cc
valid_hops (boolean true) h = omega arith
valid_hops (boolean false) h = omega arith
valid_hops (negative n) h = cc
valid_hops (integer n) h = ground arith
valid_hops (float n) h = cc
valid_hops (collection n) h = cc

valid_filled :
    (k : Key) (v : Value)
    → filled_faults k v ≡ []
    → (t : Text) × (v ≡ text t) × (is_empty (strip t) ≡ false)
unfolding filled_faults
valid_filled k (text t) h = (t, refl, ground arith)
valid_filled k null h = cc
valid_filled k (boolean b) h = cc
valid_filled k (negative n) h = cc
valid_filled k (integer n) h = cc
valid_filled k (float n) h = cc
valid_filled k (collection n) h = cc

valid_text : (k : Key) (v : Value) → text_faults k v ≡ [] → (t : Text) × (v ≡ text t)
unfolding text_faults
valid_text k (text t) h = (t, refl)
valid_text k null h = cc
valid_text k (boolean b) h = cc
valid_text k (negative n) h = cc
valid_text k (integer n) h = cc
valid_text k (float n) h = cc
valid_text k (collection n) h = cc

pub faults-injective : (xs ys : List Fault) → faults xs ≡ faults ys → xs ≡ ys
faults-injective xs ys h = cc

module _ (is_iso : Text → Bool) (m : Message) where
  values-IsValid :
      (a : Option (List Fault))
      → act_faults (get m.act) ≡ a
      → value_faults is_iso m a ≡ faults []
      → IsValid m
  unfolding value_faults
  values-IsValid none e h = absurd (cc h)
  values-IsValid (some as') e h =
      let (r0, _) = append-nil _ _ (faults-injective _ _ h) in
      let (r1, _) = append-nil _ _ r0 in
      let (r2, _) = append-nil _ _ r1 in
      let (r3, b) = append-nil _ _ r2 in
      let (r4, _) = append-nil _ _ r3 in
      let (r5, t) = append-nil _ _ r4 in
      let (r6, s) = append-nil _ _ r5 in
      let (r7, n) = append-nil _ _ r6 in
      let (i, a) = append-nil _ _ r7 in
      record {
        id = valid_id (get m.id) i;
        act = valid_act (get m.act) (e ∙ ap some a);
        hops = valid_hops (get m.hops) n;
        sender = valid_filled from_key (get m.sender) s;
        to = valid_filled to_key (get m.to) t;
        body = valid_text body_key (get m.body) b;
      }

  present-IsValid : (fs : List Fault) → validate_present is_iso m fs ≡ faults [] → IsValid m
  unfolding validate_present
  present-IsValid (f ∷ fs) h = absurd (cc h)
  present-IsValid [] h = values-IsValid (act_faults (get m.act)) refl h

  -- A message without errors has an id of the pattern, an allowed verb, at most `max_hops` hops, a sender
  -- and a recipient that are not blank, and a body that is a text.
  pub validate_message-IsValid : validate_message is_iso m ≡ faults [] → IsValid m
  unfolding validate_message
  validate_message-IsValid h = present-IsValid (missing_fields m) h

  pub valid-hops :
      validate_message is_iso m ≡ faults [] → ltb max_hops (hops_of (get m.hops)) ≡ false
  valid-hops h = let b = (validate_message-IsValid h).hops in ground arith
