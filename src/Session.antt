-- ===== src/Session.antt =====
-- The voice session that an activation opens, in src/realtime_action_spike/runtime: its phases, the
-- launch tokens and the controller.
pub mod State
pub mod Tokens
pub mod Data
pub mod Controller
pub mod Invariant
pub mod Moves
pub mod Lifecycle
pub mod Coordinator
pub mod Observer
pub mod Startup
pub mod Handler
