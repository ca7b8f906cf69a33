-- ===== src/Race.antt =====
-- pkg/proxy/race_request.go, race_coordinator.go and race_reason.go: the race of the upstream attempts
-- of one request.
pub mod Request
pub mod FinalError
pub mod Coordinator
pub mod Rows
pub mod Failover
pub mod Manage
pub mod Events
pub mod Cancelled
pub mod Winner
pub mod Deadline
pub mod Status
pub mod Rules
pub mod Shape
pub mod Refines
pub mod Budget
pub mod Steps
pub mod Decisions
pub mod Window
pub mod Names
pub mod Bounds
pub mod Progress
pub mod Liveness
pub mod Channels
pub mod Waiting
pub mod Plans
pub mod Settled
pub mod Examples
pub mod Rotation
