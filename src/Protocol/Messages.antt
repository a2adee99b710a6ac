-- ===== src/Protocol/Messages.antt =====
-- src/common/protocol.hpp: the structs of the messages. Amounts are in cents.
use cppsim.Prelude.{List, Option, Bool, Text, codes, ℤ, pos}

abbrev pub protocol_version_text : Text
protocol_version_text = codes "v1.0"

abbrev pub max_amount : ℤ
max_amount = pos 1000000000000000

pub record HandshakeMessage : Type 0 where
  pub protocol_version : Text
  pub client_name : Option Text

pub record HandshakeResponse : Type 0 where
  pub session_id : Text
  pub seat_number : ℤ
  pub starting_stack : ℤ

pub record ActionMessage : Type 0 where
  pub session_id : Text
  pub action_type : Text
  pub amount : Option ℤ
  pub sequence_number : ℤ

-- What a player has at the table.
pub record PlayerStack : Type 0 where
  pub seat : ℤ
  pub stack : ℤ

pub record StateUpdateMessage : Type 0 where
  pub game_phase : Text
  pub pot_size : ℤ
  pub current_bet : ℤ
  pub player_stacks : List PlayerStack
  pub community_cards : Option (List Text)
  pub hole_cards : Option (List Text)
  pub valid_actions : List Text
  pub acting_seat : Option ℤ

pub record ErrorMessage : Type 0 where
  pub error_code : Text
  pub message : Text
  pub session_id : Option Text

pub record ReloadRequestMessage : Type 0 where
  pub session_id : Text
  pub requested_amount : ℤ

pub record ReloadResponseMessage : Type 0 where
  pub granted : Bool
  pub new_stack : ℤ

pub record DisconnectMessage : Type 0 where
  pub session_id : Text
  pub reason : Option Text

-- The payload is a value of the JSON library.
pub record MessageEnvelope (J : Type 0) : Type 0 where
  pub message_type : Text
  pub protocol_version : Text
  pub payload : J

pub record ParsedMessageHeader (J : Type 0) : Type 0 where
  pub message_type : Text
  pub envelope_json : J
