-- ===== src/Protocol.antt =====
-- src/common: the messages of the wire protocol and their checks.
pub mod SessionId
pub mod ErrorCodes
pub mod ErrorLog
pub mod MessageTypes
pub mod ActionTypes
pub mod Messages
pub mod Codec
pub mod Parse
pub mod StateUpdate
pub mod Validation
