-- ===== src/Emm.antt =====
-- mme/S1/NAS: EPS mobility management of one user, above the NAS security and the NAS decoder.
pub mod Ctx
pub mod Send
pub mod Procedures
pub mod Requests
pub mod Uplink
pub mod Deregistered
pub mod Registered
pub mod SpecificProcedure
pub mod CommonProcedure
pub mod Machine
pub mod Phase
pub mod Transition
pub mod Refinement
pub mod StateMoves
pub mod Moves
pub mod Events
pub mod Protection
pub mod Laws
pub mod Identity
mod Runs
pub mod ProcedureMoves
