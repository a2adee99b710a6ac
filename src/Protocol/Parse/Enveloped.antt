-- ===== src/Protocol/Parse/Enveloped.antt =====
-- A message written out in its envelope, and what the parser makes of the text.
use cppsim.Prelude.{
  ◌≡◌, refl, Option, some, Text, IsInt64, false, text_eq, text_eq_refl, ltb, length, Option-cases,
  inl, inr, subst, codes,
}
use cppsim.Json.{Floats, JsonLib, JsonLaws, TextLaws, member}
use cppsim.Protocol.Messages.{
  protocol_version_text, HandshakeMessage, ActionMessage, ReloadRequestMessage, DisconnectMessage,
}
use cppsim.Protocol.Codec.{
  handshake_to_json, action_to_json, reload_request_to_json, disconnect_to_json, envelope_to_json,
}
use cppsim.Protocol.Codec.RoundTrip.{OptionalInt64, envelope_round_trip}
use cppsim.Protocol.Parse.{
  extract_message_type_and_json, max_message_type_length, parse_from_envelope,
}

module _ {F : Floats} (L : JsonLib F) (laws : JsonLaws L) (texts : TextLaws L) where
  -- A message of this server's version in its envelope.
  abbrev pub enveloped : Text → L.Json → L.Json
  enveloped type payload =
      envelope_to_json L (record {
        message_type = type;
        protocol_version = protocol_version_text;
        payload = payload;
      })

  pub header_of :
      (type : Text) (payload : L.Json) (t : Text)
      → texts.Plain payload
      → L.dump (enveloped type payload) ≡ some t
      → L.parse t ≡ some (enveloped type payload)
  unfolding envelope_to_json
  header_of type payload t plain h =
      texts.parse-dump (enveloped type payload) t
        (texts.Plain-object _
          (texts.Plain-string type, (texts.Plain-string protocol_version_text, (plain, tt))))
        h

  pub parse_from_envelope-enveloped :
      {T : Type 0} (from_json : L.Json → Option T) (type : Text) (payload : L.Json)
      → parse_from_envelope L from_json type (enveloped type payload) ≡ from_json payload
  unfolding parse_from_envelope
  parse_from_envelope-enveloped from_json type payload =
      rw
        (
          envelope_round_trip L laws (record {
            message_type = type;
            protocol_version = protocol_version_text;
            payload = payload;
          }),
          text_eq_refl type,
          text_eq_refl protocol_version_text,
        )
        refl

  pub extract_message_type_and_json-enveloped :
      (type : Text) (payload : L.Json) (t : Text)
      → ltb max_message_type_length (length type) ≡ false
      → texts.Plain payload
      → L.dump (enveloped type payload) ≡ some t
      → extract_message_type_and_json L t
        ≡ some (record { message_type = type; envelope_json = enveloped type payload })
  unfolding extract_message_type_and_json
  extract_message_type_and_json-enveloped type payload t short plain h =
      let v : L.find (codes "message_type") (enveloped type payload) ≡ some (L.string type) =
        unfold envelope_to_json member text_eq in laws.find-object (codes "message_type") _ in
      rw (header_of type payload t plain h)
        (rw (v, laws.is_string-string type, laws.get_text-string type, short) refl)

  pub action_Plain :
      (m : ActionMessage)
      → IsInt64 m.sequence_number
      → OptionalInt64 m.amount
      → texts.Plain (action_to_json L m)
  unfolding action_to_json
  action_Plain m hs ha = elim (Option-cases m.amount) [
    | inl e ↦ rw e (
        texts.Plain-object _ (
          texts.Plain-string m.session_id,
          (texts.Plain-string m.action_type, (texts.Plain-integer m.sequence_number hs, tt)),
        ))
    | inr (n, e) ↦ rw e (
        texts.Plain-object _ (
          texts.Plain-string m.session_id,
          (
            texts.Plain-string m.action_type,
            (
              texts.Plain-integer m.sequence_number hs,
              (texts.Plain-integer n (subst OptionalInt64 e ha), tt),
            ),
          ),
        ))
  ]

  pub reload_request_Plain :
      (m : ReloadRequestMessage)
      → IsInt64 m.requested_amount
      → texts.Plain (reload_request_to_json L m)
  unfolding reload_request_to_json
  reload_request_Plain m h =
      texts.Plain-object _
        (texts.Plain-string m.session_id, (texts.Plain-integer m.requested_amount h, tt))

  pub disconnect_Plain : (m : DisconnectMessage) → texts.Plain (disconnect_to_json L m)
  unfolding disconnect_to_json
  disconnect_Plain m = elim (Option-cases m.reason) [
    | inl e ↦ rw e (texts.Plain-object _ (texts.Plain-string m.session_id, tt))
    | inr (t, e) ↦
        rw e (texts.Plain-object _ (texts.Plain-string m.session_id, (texts.Plain-string t, tt)))
  ]

  pub handshake_Plain : (m : HandshakeMessage) → texts.Plain (handshake_to_json L m)
  unfolding handshake_to_json
  handshake_Plain m = elim (Option-cases m.client_name) [
    | inl e ↦ rw e (texts.Plain-object _ (texts.Plain-string m.protocol_version, tt))
    | inr (t, e) ↦
        rw e
          (texts.Plain-object _ (texts.Plain-string m.protocol_version, (texts.Plain-string t, tt)))
  ]
