-- ===== src/MailBus/Message.antt =====
-- orchestrator/mailbus.py: the message, as the JSON object that a file has, and its schema.
use agi_inspired.Prelude.{
  ℕ, zero, suc, Bool, true, false, ◌&&◌, ◌||◌, Option, none, some, List, [], ◌∷◌, ◌++◌, ltb, leb,
  ◌==◌, if◌then◌else◌,
}
use agi_inspired.Prelude.Text.{Text, codes, contains, strip}

-- A JSON value: Python's None, bool, int (negative or not), str, float, and a list or dict, of
-- which only the last cannot be hashed. What a float or a collection holds is known by a number.
pub data Value : Type 0 where
  null : Value
  boolean : Bool → Value
  negative integer : ℕ → Value
  text : Text → Value
  float collection : ℕ → Value

-- The keys of the schema; one that is not there is `none`.
pub record Message : Type 0 where
  pub id : Option Value
  pub sender : Option Value
  pub to : Option Value
  pub act : Option Value
  pub subject : Option Value
  pub body : Option Value
  pub conversation : Option Value
  pub hops : Option Value
  pub created_at : Option Value
  pub in_reply_to : Option Value

-- `msg.get`
unfoldable pub get : Option Value → Value
get none = null
get (some v) = v

abbrev pub max_hops : ℕ
max_hops = 10

abbrev pub allowed_verbs : List Text
allowed_verbs =
    codes "request"
    ∷ codes "inform"
    ∷ codes "propose"
    ∷ codes "query"
    ∷ codes "agree"
    ∷ codes "refuse"
    ∷ codes "done"
    ∷ []

pub data Key : Type 0 where
  id_key from_key to_key act_key subject_key body_key conversation_key hops_key created_at_key
        in_reply_to_key :
      Key

pub data Fault : Type 0 where
  missing_field invalid : Key → Fault
  hop_limit_exceeded : Fault

-- `c` in `[a-f0-9]`
unfoldable pub is_hex : ℕ → Bool
is_hex c = (leb 48 c && leb c 57) || (leb 97 c && leb c 102)

-- `$`: the end, or a line feed before it.
unfoldable pub at_end : Text → Bool
at_end [] = true
at_end (c ∷ []) = c == 10
at_end (c ∷ d ∷ t) = false

-- A fixed text, and then what `rest` accepts.
unfoldable pub literal_then : Text → (Text → Bool) → Text → Bool
literal_then [] rest t = rest t
literal_then (p ∷ ps) rest [] = false
literal_then (p ∷ ps) rest (c ∷ t) = p == c && literal_then ps rest t

-- `[a-f0-9]{n}`, and then what `rest` accepts.
unfoldable pub hex_then : ℕ → (Text → Bool) → Text → Bool
unfolding is_hex
hex_then zero rest t = rest t
hex_then (suc n) rest [] = false
hex_then (suc n) rest (c ∷ t) = is_hex c && hex_then n rest t

unfoldable pub is_message_id : Text → Bool
unfolding literal_then hex_then at_end
is_message_id = literal_then (codes "mbx-") (hex_then 8 at_end)

-- MSG_ID_RE
unfoldable pub is_message_file : Text → Bool
unfolding literal_then hex_then at_end
is_message_file = literal_then (codes "mbx-") (hex_then 8 (literal_then (codes ".json") at_end))

unfoldable pub is_empty : Text → Bool
is_empty [] = true
is_empty (c ∷ t) = false

-- `s.replace("Z", "+00:00")`
unfoldable pub replace_z : Text → Text
replace_z [] = []
replace_z (c ∷ t) = let rest = replace_z t in if c == 90 then codes "+00:00" ++ rest else c ∷ rest

unfoldable pub missing_unless : Key → Option Value → List Fault
missing_unless k none = missing_field k ∷ []
missing_unless k (some v) = []

unfoldable pub invalid_unless : Key → Bool → List Fault
invalid_unless k true = []
invalid_unless k false = invalid k ∷ []

unfoldable pub id_faults : Value → List Fault
unfolding is_message_id invalid_unless
id_faults (text t) = invalid_unless id_key (is_message_id t)
id_faults _ = invalid id_key ∷ []

-- `none` where `in` raises TypeError on a value that cannot be hashed.
unfoldable pub act_faults : Value → Option (List Fault)
unfolding contains invalid_unless
act_faults (text t) = some (invalid_unless act_key (contains allowed_verbs t))
act_faults (collection n) = none
act_faults _ = some (invalid act_key ∷ [])

-- A bool is an int in Python, with 0 or 1 as its value.
unfoldable pub hops_faults : Value → List Fault
hops_faults (integer n) = if ltb max_hops n then hop_limit_exceeded ∷ [] else []
hops_faults (boolean b) = []
hops_faults _ = invalid hops_key ∷ []

-- A text that is not blank.
unfoldable pub filled_faults : Key → Value → List Fault
unfolding strip is_empty
filled_faults k (text t) = if is_empty (strip t) then invalid k ∷ [] else []
filled_faults k _ = invalid k ∷ []

unfoldable pub text_faults : Key → Value → List Fault
text_faults k (text t) = []
text_faults k _ = invalid k ∷ []

-- Only a text is looked at.
unfoldable pub created_at_faults : (Text → Bool) → Value → List Fault
unfolding replace_z invalid_unless
created_at_faults is_iso (text t) = invalid_unless created_at_key (is_iso (replace_z t))
created_at_faults is_iso _ = []

unfoldable pub in_reply_to_faults : Value → List Fault
unfolding is_message_id invalid_unless
in_reply_to_faults null = []
in_reply_to_faults (text t) = invalid_unless in_reply_to_key (is_message_id t)
in_reply_to_faults _ = invalid in_reply_to_key ∷ []

unfoldable pub missing_fields : Message → List Fault
unfolding missing_unless
missing_fields m =
    missing_unless id_key m.id
    ++ missing_unless from_key m.sender
    ++ missing_unless to_key m.to
    ++ missing_unless act_key m.act
    ++ missing_unless subject_key m.subject
    ++ missing_unless body_key m.body
    ++ missing_unless conversation_key m.conversation
    ++ missing_unless hops_key m.hops
    ++ missing_unless created_at_key m.created_at

-- What `validate_message` does: a TypeError, or the list of errors.
pub data Validation : Type 0 where
  type_error : Validation
  faults : List Fault → Validation

-- `is_iso` says whether `datetime.fromisoformat` takes a text.
module _ (is_iso : Text → Bool) where
  unfoldable pub value_faults : Message → Option (List Fault) → Validation
  unfolding get id_faults hops_faults filled_faults text_faults created_at_faults in_reply_to_faults
  value_faults m none = type_error
  value_faults m (some act) = faults (
      id_faults (get m.id)
      ++ act
      ++ hops_faults (get m.hops)
      ++ filled_faults from_key (get m.sender)
      ++ filled_faults to_key (get m.to)
      ++ text_faults subject_key (get m.subject)
      ++ text_faults body_key (get m.body)
      ++ filled_faults conversation_key (get m.conversation)
      ++ created_at_faults is_iso (get m.created_at)
      ++ in_reply_to_faults (get m.in_reply_to))

  unfoldable pub validate_present : Message → List Fault → Validation
  unfolding get act_faults value_faults
  validate_present m (f ∷ fs) = faults (f ∷ fs)
  validate_present m [] = value_faults m (act_faults (get m.act))

  unfoldable pub validate_message : Message → Validation
  unfolding missing_fields validate_present
  validate_message m = validate_present m (missing_fields m)

-- The arguments of `compose`, with the two texts that it makes itself: the new id and the
-- conversation of the clock. `hops` is a natural number here.
pub record Draft : Type 0 where
  pub sender : Text
  pub recipient : Text
  pub act : Text
  pub subject : Text
  pub body : Text
  pub conversation : Option Text
  pub in_reply_to : Option Text
  pub hops : ℕ

-- `a or b`
unfoldable pub or_text : Option Text → Text → Text
or_text none d = d
or_text (some []) d = d
or_text (some (c ∷ t)) d = c ∷ t

unfoldable pub or_null : Option Text → Value
or_null none = null
or_null (some t) = text t

-- `compose`: `none` where it raises ValueError. `hex` are the digits of a UUID, `conv` the
-- conversation and `now` the time, as texts of the clock.
unfoldable pub compose : Text → Text → Text → Draft → Option Message
unfolding contains or_text or_null
compose hex conv now d =
    if contains allowed_verbs d.act && leb d.hops max_hops
    then some (record {
      id = some (text (codes "mbx-" ++ hex));
      sender = some (text d.sender);
      to = some (text d.recipient);
      act = some (text d.act);
      subject = some (text d.subject);
      body = some (text d.body);
      conversation = some (text (or_text d.conversation conv));
      hops = some (integer d.hops);
      created_at = some (text now);
      in_reply_to = some (or_null d.in_reply_to);
    })
    else none
