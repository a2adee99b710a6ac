-- ===== src/Server/Session.antt =====
-- src/server/websocket_session.hpp and websocket_session.cpp: one client's session. The handlers run
-- one at a time on the session's strand, so each is a function from a world to the next; what they
-- ask of Asio and Beast is recorded as effects. Allocation failures and logging are left out.
pub mod State
pub mod Output
pub mod Traffic
pub mod Handlers
pub mod Events
pub mod Steps
pub mod Access
pub mod Refusal
pub mod Requests
pub mod Authentication
pub mod Admission
pub mod Arrival
pub mod Delivery
pub mod Timeout
pub mod Invariant
pub mod Footprint
