-- ===== src/Fsm.antt =====
-- The node state machine (internal/fsm).
pub mod Events
pub mod Coordination
pub mod Jobs
pub mod KubeNodes
pub mod Machine
pub mod Operations
