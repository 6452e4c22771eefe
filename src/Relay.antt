-- ===== src/Relay.antt =====
-- internal/relay: the in-memory relay.
pub mod Opcode
pub mod Frame
pub mod Errors
pub mod Admission
pub mod Outbound
pub mod World
pub mod Connection
pub mod Sending
pub mod Patterns
pub mod Views
pub mod Projection
pub mod Notices
pub mod Declarations
pub mod State
pub mod Events
pub mod Calls
pub mod Lifecycle
pub mod Dispatch
pub mod Server
pub mod Registry
pub mod Handshake
