-- ===== src/Protocol/MessageTypes.antt =====
-- src/common/protocol.hpp, namespace message_types.
use cppsim.Prelude.{Text, codes}

abbrev pub handshake : Text
handshake = codes "HANDSHAKE"

abbrev pub handshake_response : Text
handshake_response = codes "HANDSHAKE_RESPONSE"

abbrev pub action : Text
action = codes "ACTION"

abbrev pub error : Text
error = codes "ERROR"

abbrev pub state_update : Text
state_update = codes "STATE_UPDATE"

abbrev pub reload_request : Text
reload_request = codes "RELOAD_REQUEST"

abbrev pub reload_response : Text
reload_response = codes "RELOAD_RESPONSE"

abbrev pub disconnect : Text
disconnect = codes "DISCONNECT"
