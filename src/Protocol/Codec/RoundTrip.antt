-- ===== src/Protocol/Codec/RoundTrip.antt =====
-- Reading back what was written.
use cppsim.Prelude.{
  ◌≡◌, Option, none, some, ℤ, text_eq, IsInt64, IsInt32, Option-cases, inl, inr, subst,
}
use cppsim.Json.{Floats, JsonLib, JsonLaws, member}
use cppsim.Protocol.Messages.{
  HandshakeResponse, HandshakeMessage, ActionMessage, ErrorMessage, ReloadRequestMessage,
  ReloadResponseMessage, DisconnectMessage, MessageEnvelope,
}
use cppsim.Protocol.Codec.{
  handshake_response_from_json, handshake_response_to_json, amount_from_json, handshake_to_json,
  handshake_from_json, action_to_json, action_from_json, error_to_json, error_from_json,
  reload_request_to_json, reload_request_from_json, reload_response_to_json,
  reload_response_from_json, disconnect_to_json, disconnect_from_json, envelope_to_json,
  envelope_from_json,
}

abbrev pub OptionalInt64 : Option ℤ → Type 0
OptionalInt64 none = Unit {0}
OptionalInt64 (some n) = IsInt64 n

module _ {F : Floats} (L : JsonLib F) (laws : JsonLaws L) where
  open laws use {
    find-object, get_text-string, is_null-string, get_bool-boolean, get_int64-integer,
    is_number_integer-integer, is_null-integer,
  }

  -- What a handshake writes is read back as it was.
  pub handshake_round_trip :
      (m : HandshakeMessage) → handshake_from_json L (handshake_to_json L m) ≡ some m
  unfolding handshake_from_json handshake_to_json member text_eq
  handshake_round_trip m = elim (Option-cases m.client_name) [
    | inl e ↦ rw e (simp (find-object, get_text-string))
    | inr (t, e) ↦ rw e (simp (find-object, get_text-string, is_null-string))
  ]

  amount_from_json-integer : (n : ℤ) → IsInt64 n → amount_from_json L (L.integer n) ≡ some n
  unfolding amount_from_json
  amount_from_json-integer n h = rw (is_number_integer-integer n) (get_int64-integer n h)

  -- An action whose numbers fit int64_t is read back as it was.
  pub action_round_trip :
      (m : ActionMessage)
      → IsInt64 m.sequence_number
      → OptionalInt64 m.amount
      → action_from_json L (action_to_json L m) ≡ some m
  unfolding action_from_json action_to_json member text_eq
  action_round_trip m hs ha = elim (Option-cases m.amount) [
    | inl e ↦ rw e (simp (find-object, get_text-string, get_int64-integer m.sequence_number hs))
    | inr (n, e) ↦ rw e (
        simp (
          find-object,
          get_text-string,
          is_null-integer,
          get_int64-integer m.sequence_number hs,
          amount_from_json-integer n (subst OptionalInt64 e ha),
        ))
  ]

  -- What an error writes is read back as it was.
  pub error_round_trip : (m : ErrorMessage) → error_from_json L (error_to_json L m) ≡ some m
  unfolding error_from_json error_to_json member text_eq
  error_round_trip m = elim (Option-cases m.session_id) [
    | inl e ↦ rw e (simp (find-object, get_text-string))
    | inr (t, e) ↦ rw e (simp (find-object, get_text-string, is_null-string))
  ]

  -- A reload request whose amount fits int64_t is read back as it was.
  pub reload_request_round_trip :
      (m : ReloadRequestMessage)
      → IsInt64 m.requested_amount
      → reload_request_from_json L (reload_request_to_json L m) ≡ some m
  unfolding reload_request_from_json reload_request_to_json member text_eq
  reload_request_round_trip m h =
      simp (find-object, get_text-string, amount_from_json-integer m.requested_amount h)

  -- A reload response whose stack fits int64_t is read back as it was.
  pub reload_response_round_trip :
      (m : ReloadResponseMessage)
      → IsInt64 m.new_stack
      → reload_response_from_json L (reload_response_to_json L m) ≡ some m
  unfolding reload_response_from_json reload_response_to_json member text_eq
  reload_response_round_trip m h =
      simp (find-object, get_bool-boolean, get_int64-integer m.new_stack h)

  -- What a disconnect writes is read back as it was.
  pub disconnect_round_trip :
      (m : DisconnectMessage) → disconnect_from_json L (disconnect_to_json L m) ≡ some m
  unfolding disconnect_from_json disconnect_to_json member text_eq
  disconnect_round_trip m = elim (Option-cases m.reason) [
    | inl e ↦ rw e (simp (find-object, get_text-string))
    | inr (t, e) ↦ rw e (simp (find-object, get_text-string, is_null-string))
  ]

  -- What an envelope writes is read back as it was, whatever its payload.
  pub envelope_round_trip :
      (m : MessageEnvelope L.Json) → envelope_from_json L (envelope_to_json L m) ≡ some m
  unfolding envelope_from_json envelope_to_json member text_eq
  envelope_round_trip m = simp (find-object, get_text-string)

  -- A handshake response whose seat fits int and whose stack fits int64_t is read back as it was.
  pub handshake_response_round_trip :
      (m : HandshakeResponse)
      → IsInt32 m.seat_number
      → IsInt64 m.starting_stack
      → handshake_response_from_json L (handshake_response_to_json L m) ≡ some m
  unfolding handshake_response_from_json handshake_response_to_json member text_eq
  handshake_response_round_trip m hs ht = simp (
    find-object,
    get_text-string,
    laws.get_int-integer m.seat_number hs,
    get_int64-integer m.starting_stack ht,
  )
