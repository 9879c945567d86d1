-- ===== src/FlockFsm.antt =====
-- include/flock_fsm.h: the state machine of the Flock protocol. `Types` and `Statuses` hold its
-- enumerations, `Ladder` the form of its if-chains; the generated functions have a module each.
pub mod Types
pub mod Statuses
pub mod Codes
pub mod Events
pub mod Ladder
pub mod CheckEvent
pub mod GetAction
pub mod GetHeartbeatStatus
pub mod GetNewState
pub mod Agreement
pub mod Coherence
pub mod Step
pub mod Paths
pub mod Roles
pub mod Runs
mod Tests
