-- ===== src/Grpc.antt =====
-- The gRPC cloud provider and its server (internal/grpcserver).
pub mod Constants
pub mod Manager
pub mod Sizes
pub mod Groups
pub mod Template
pub mod Statuses
