-- ===== src/Server.antt =====
-- src/server: the session registry and the sessions of the poker server.
pub mod Config
pub mod RuntimeConfig
pub mod SessionMap
pub mod SessionIds
pub mod Manager
pub mod SessionMetrics
pub mod Session
pub mod Clients
pub mod WebsocketServer
pub mod MetricsCollector
pub mod Main
pub mod Logger
