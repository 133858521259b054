-- ===== src/Raft.antt =====
-- The consensus core of the demo (apps/raft_demo/raft).
pub mod Model
pub mod Storage
pub mod Unstable
pub mod Log
pub mod Progress
pub mod ReadOnly
pub mod Core
pub mod Follower
pub mod Leader
pub mod Candidate
pub mod Step
pub mod Node
pub mod Ballot
pub mod Vote
pub mod Commit
pub mod Election
mod Tests
