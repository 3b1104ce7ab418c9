-- ===== src/Controller.antt =====
-- The three controllers of internal/controller: for Node resources (infra/node_controller.go), for
-- Kubernetes nodes (core/node_controller.go) and for groups (infra/group_controller.go).
pub mod Cleanup
pub mod Transitions
pub mod Nodes
pub mod Status
