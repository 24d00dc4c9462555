-- ===== src/S11.antt =====
-- The S11 interface (mme/S11): sessions, their state machine, and the peers.
pub mod Peer
pub mod PeerLaws
pub mod Session
pub mod SessionLaws
mod Runs
