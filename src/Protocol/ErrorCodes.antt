-- ===== src/Protocol/ErrorCodes.antt =====
-- src/common/protocol.hpp, namespace error_codes.
use cppsim.Prelude.{Text, codes}

abbrev pub incompatible_version : Text
incompatible_version = codes "INCOMPATIBLE_VERSION"

abbrev pub protocol_error : Text
protocol_error = codes "PROTOCOL_ERROR"

abbrev pub malformed_handshake : Text
malformed_handshake = codes "MALFORMED_HANDSHAKE"

abbrev pub malformed_message : Text
malformed_message = codes "MALFORMED_MESSAGE"

abbrev pub session_closed : Text
session_closed = codes "SESSION_CLOSED"
