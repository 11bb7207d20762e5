-- ===== src/Esp32/Wire.antt =====
-- The frames on the wire (packages/esp32-link/src/doorboard_esp32_link/esp32.py), over the values that
-- `json.loads` makes of a line. A whole number of JSON is not negative here: the controller counts
-- `seq` from 1 in 32 bits. `decimal` is a number with a fraction or an exponent, with its value when
-- that is whole.
use doorboard.Prelude.{
  ℕ, String, Bool, true, false, Option, none, some, List, [], ◌∷◌, length, ltb, ◌==◌, str_eq,
  if◌then◌else◌,
}

mutual
  pub data Json : Type 0 where
    null : Json
    boolean : Bool → Json
    number : ℕ → Json
    decimal : Option ℕ → Json
    text : String → Json
    array : Items → Json
    object : Fields → Json

  pub data Items : Type 0 where
    no_items : Items
    item : Json → Items → Items

  pub data Fields : Type 0 where
    no_fields : Fields
    field : String → Json → Fields → Fields

-- A line is at most 512 bytes, and the version is 1.
abbrev pub max_frame_bytes : ℕ
max_frame_bytes = 512

abbrev pub proto_v : ℕ
proto_v = 1

pub data MessageType : Type 0 where
  hello profile_update profile_clear effect_play : MessageType
  button_event knock_event contact_event heartbeat ack : MessageType
  other : String → MessageType

abbrev pub chosen : List (String × MessageType) → String → MessageType
chosen [] s = other s
chosen ((name, t) ∷ rest) s = if str_eq s name then t else chosen rest s

abbrev pub message_types : List (String × MessageType)
message_types =
    ("hello", hello)
    ∷ ("profile_update", profile_update)
    ∷ ("profile_clear", profile_clear)
    ∷ ("effect_play", effect_play)
    ∷ ("button_event", button_event)
    ∷ ("knock_event", knock_event)
    ∷ ("contact_event", contact_event)
    ∷ ("heartbeat", heartbeat)
    ∷ ("ack", ack)
    ∷ []

abbrev pub message_type_of : String → MessageType
message_type_of s = chosen message_types s

unfoldable pub ack_required : MessageType → Bool
ack_required heartbeat = false
ack_required ack = false
ack_required (other s) = false
ack_required _ = true

pub record WireMessage : Type 0 where
  pub v : ℕ
  pub seq : ℕ
  pub message_type : MessageType
  pub acked : Option ℕ
  pub payload : Fields

pub data ProtocolError : Type 0 where
  frame_too_long malformed_json not_an_object payload_not_object : ProtocolError
  version_not_int seq_not_int type_not_string ack_not_int : ProtocolError
  unsupported_version : ℕ → ProtocolError
  ack_missing oversize_frame read_failed : ProtocolError
  bad_boot_id bad_fw_version bad_proto_v : ProtocolError
  unsupported_inbound : MessageType → ProtocolError
  unsupported_outbound : ProtocolError
  missing_key invalid_event : ProtocolError
  invalid_payload : MessageType → ProtocolError → ProtocolError

pub data Result {ℓ} (A : Type ℓ) : Type ℓ where
  ok : A → Result A
  err : ProtocolError → Result A

abbrev pub get_in : String → String → Json → Option Json → Option Json
get_in key k j (some later) = some later
get_in key k j none = if str_eq k key then some j else none

-- `decoded.get(key)`: the last entry of a key wins, as in the dict that `json.loads` fills.
abbrev pub get : String → Fields → Option Json
get key no_fields = none
get key (field k j rest) = get_in key k j (get key rest)

-- `isinstance(value, int)`, which holds of a bool, whose value is 0 or 1.
abbrev pub as_int : Option Json → Option ℕ
as_int (some (number n)) = some n
as_int (some (boolean true)) = some 1
as_int (some (boolean false)) = some 0
as_int _ = none

-- `value == PROTO_V`
abbrev pub equals_int : ℕ → Option Json → Bool
equals_int n (some (number m)) = m == n
equals_int n (some (boolean true)) = 1 == n
equals_int n (some (boolean false)) = 0 == n
equals_int n (some (decimal (some m))) = m == n
equals_int n _ = false

abbrev pub as_text : Option Json → Option String
as_text (some (text s)) = some s
as_text _ = none

abbrev pub full : Option String → Option String
full none = none
full (some s) = if str_eq s "" then none else some s

-- `isinstance(raw, str) and raw`
abbrev pub as_full_text : Option Json → Option String
as_full_text j = full (as_text j)

abbrev pub lifted : Option ℕ → Option (Option ℕ)
lifted none = none
lifted (some n) = some (some n)

-- `ack is not None and not isinstance(ack, int)` refuses; otherwise this is the ack.
abbrev pub as_ack : Option Json → Option (Option ℕ)
as_ack none = some none
as_ack (some null) = some none
as_ack j = lifted (as_int j)

abbrev pub built :
    Fields → Option ℕ → Option ℕ → Option String → Option (Option ℕ) → Result WireMessage
built p none seq t a = err version_not_int
built p (some v) none t a = err seq_not_int
built p (some v) (some seq) none a = err type_not_string
built p (some v) (some seq) (some t) none = err ack_not_int
built p (some v) (some seq) (some t) (some a) =
    ok (record { v = v; seq = seq; message_type = message_type_of t; acked = a; payload = p })

abbrev pub from_payload : Fields → Option Json → Result WireMessage
from_payload d (some (object p)) =
    built p (as_int (get "v" d)) (as_int (get "seq" d)) (as_text (get "t" d)) (as_ack (get "ack" d))
from_payload d _ = err payload_not_object

abbrev pub from_json : Option Json → Result WireMessage
from_json none = err malformed_json
from_json (some (object d)) = from_payload d (get "p" d)
from_json (some _) = err not_an_object

-- `loads` decodes UTF-8 and parses JSON; it is `none` where one of them raises.
unfoldable pub decode_wire_message : (List ℕ → Option Json) → List ℕ → Result WireMessage
decode_wire_message loads line =
    if ltb max_frame_bytes (length line) then err frame_too_long else from_json (loads line)
