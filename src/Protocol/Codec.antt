-- ===== src/Protocol/Codec.antt =====
-- src/common/protocol.hpp: to_json and from_json of the messages. `none` is a thrown exception.
pub mod RoundTrip
use cppsim.Prelude.{
  ℕ, ◌-◌, ◌^◌, Bool, true, false, ◌||◌, List, [], ◌∷◌, ◌++◌, Option, none, some, Text, codes, ℤ,
  pos, negsuc, ltb, ◌>>=◌, ◌>>◌, require, if◌then◌else◌, not,
}
use cppsim.Json.{Floats, JsonLib}
use cppsim.Protocol.Messages.{
  HandshakeMessage, HandshakeResponse, ActionMessage, ErrorMessage, ReloadRequestMessage,
  ReloadResponseMessage, DisconnectMessage, MessageEnvelope,
}

abbrev int64_max : ℤ
int64_max = pos (2 ^ 63 - 1)

abbrev int64_min : ℤ
int64_min = negsuc (2 ^ 63 - 1)

-- static_cast<int64_t>(uint64_t)
unfoldable pub from_u64 : ℕ → ℤ
from_u64 n = if ltb n (2 ^ 63) then pos n else negsuc (2 ^ 64 - 1 - n)

module _ {F : Floats} (L : JsonLib F) where
  open F use {is_finite, times, round, less, of_int, to_int64}
  open L use {Json}

  -- j.at(k).get_to of a text and of an int64_t.
  unfoldable pub text_at : Text → Json → Option Text
  text_at k j = do v ← L.find k j; L.get_text v

  unfoldable pub int64_at : Text → Json → Option ℤ
  int64_at k j = do v ← L.find k j; L.get_int64 v

  -- The reading of an optional member: absent and null give no value.
  unfoldable pub read_optional : {A : Type 0} → (Json → Option A) → Option Json → Option (Option A)
  read_optional get none = some none
  read_optional get (some v) = if L.is_null v then some none else (get v >>= λ a. some (some a))

  unfoldable pub optional_at : {A : Type 0} → (Json → Option A) → Text → Json → Option (Option A)
  unfolding read_optional
  optional_at get k j = read_optional get (L.find k j)

  -- A member that is written only if there is a value.
  unfoldable pub optional_field : {A : Type 0} → (A → Json) → Text → Option A → List (Text × Json)
  optional_field put k none = []
  optional_field put k (some a) = (k, put a) ∷ []

  -- An amount: an integer is cents, any other number is dollars.
  unfoldable pub amount_from_json : Json → Option ℤ
  amount_from_json v =
      if L.is_number_integer v
      then L.get_int64 v
      else if L.is_number_unsigned v
      then (do n ← L.get_uint64 v; some (from_u64 n))
      else do
        dollars ← L.get_double v
        require (is_finite dollars)
        let cents = round (times dollars (of_int (pos 100)))
        require (not (less (of_int int64_max) cents || less cents (of_int int64_min)))
        some (to_int64 cents)

  unfoldable pub handshake_to_json : HandshakeMessage → Json
  unfolding optional_field
  handshake_to_json m = L.object (
      (codes "protocol_version", L.string m.protocol_version)
      ∷ optional_field L.string (codes "client_name") m.client_name)

  unfoldable pub handshake_from_json : Json → Option HandshakeMessage
  unfolding text_at optional_at
  handshake_from_json j = do
    version ← text_at (codes "protocol_version") j
    name ← optional_at L.get_text (codes "client_name") j
    some (record { protocol_version = version; client_name = name })

  unfoldable pub handshake_response_to_json : HandshakeResponse → Json
  handshake_response_to_json m = L.object (
      (codes "session_id", L.string m.session_id)
      ∷ (codes "seat_number", L.integer m.seat_number)
      ∷ (codes "starting_stack", L.integer m.starting_stack)
      ∷ [])

  unfoldable pub handshake_response_from_json : Json → Option HandshakeResponse
  unfolding text_at int64_at
  handshake_response_from_json j = do
    sid ← text_at (codes "session_id") j
    v ← L.find (codes "seat_number") j
    seat ← L.get_int v
    stack ← int64_at (codes "starting_stack") j
    some (record { session_id = sid; seat_number = seat; starting_stack = stack })

  unfoldable pub action_to_json : ActionMessage → Json
  unfolding optional_field
  action_to_json m = L.object (
      (codes "session_id", L.string m.session_id)
      ∷ (codes "action_type", L.string m.action_type)
      ∷ (codes "sequence_number", L.integer m.sequence_number)
      ∷ optional_field L.integer (codes "amount") m.amount)

  unfoldable pub action_from_json : Json → Option ActionMessage
  unfolding text_at int64_at optional_at
  action_from_json j = do
    sid ← text_at (codes "session_id") j
    type ← text_at (codes "action_type") j
    seq ← int64_at (codes "sequence_number") j
    amount ← optional_at amount_from_json (codes "amount") j
    some (record { session_id = sid; action_type = type; amount = amount; sequence_number = seq })

  unfoldable pub error_to_json : ErrorMessage → Json
  unfolding optional_field
  error_to_json m = L.object (
      (codes "error_code", L.string m.error_code)
      ∷ (codes "message", L.string m.message)
      ∷ optional_field L.string (codes "session_id") m.session_id)

  unfoldable pub error_from_json : Json → Option ErrorMessage
  unfolding text_at optional_at
  error_from_json j = do
    code ← text_at (codes "error_code") j
    message ← text_at (codes "message") j
    sid ← optional_at L.get_text (codes "session_id") j
    some (record { error_code = code; message = message; session_id = sid })

  unfoldable pub reload_request_to_json : ReloadRequestMessage → Json
  reload_request_to_json m = L.object (
      (codes "session_id", L.string m.session_id)
      ∷ (codes "requested_amount", L.integer m.requested_amount)
      ∷ [])

  unfoldable pub reload_request_from_json : Json → Option ReloadRequestMessage
  unfolding text_at
  reload_request_from_json j = do
    sid ← text_at (codes "session_id") j
    v ← L.find (codes "requested_amount") j
    amount ← amount_from_json v
    some (record { session_id = sid; requested_amount = amount })

  unfoldable pub reload_response_to_json : ReloadResponseMessage → Json
  reload_response_to_json m =
      L.object
        ((codes "granted", L.boolean m.granted) ∷ (codes "new_stack", L.integer m.new_stack) ∷ [])

  unfoldable pub reload_response_from_json : Json → Option ReloadResponseMessage
  unfolding int64_at
  reload_response_from_json j = do
    v ← L.find (codes "granted") j
    granted ← L.get_bool v
    stack ← int64_at (codes "new_stack") j
    some (record { granted = granted; new_stack = stack })

  unfoldable pub disconnect_to_json : DisconnectMessage → Json
  unfolding optional_field
  disconnect_to_json m = L.object (
      (codes "session_id", L.string m.session_id)
      ∷ optional_field L.string (codes "reason") m.reason)

  unfoldable pub disconnect_from_json : Json → Option DisconnectMessage
  unfolding text_at optional_at
  disconnect_from_json j = do
    sid ← text_at (codes "session_id") j
    reason ← optional_at L.get_text (codes "reason") j
    some (record { session_id = sid; reason = reason })

  unfoldable pub envelope_to_json : MessageEnvelope Json → Json
  envelope_to_json m = L.object (
      (codes "message_type", L.string m.message_type)
      ∷ (codes "protocol_version", L.string m.protocol_version)
      ∷ (codes "payload", m.payload)
      ∷ [])

  unfoldable pub envelope_from_json : Json → Option (MessageEnvelope Json)
  unfolding text_at
  envelope_from_json j = do
    type ← text_at (codes "message_type") j
    version ← text_at (codes "protocol_version") j
    payload ← L.find (codes "payload") j
    some (record { message_type = type; protocol_version = version; payload = payload })
