-- ===== src/Nas.antt =====
-- The NAS library (NAS/src): information elements, message decoding, sequence numbers and security.
pub mod Ie
pub mod Options
pub mod OptionsRoundTrip
pub mod Messages
pub mod MessagesRoundTrip
pub mod Count
pub mod CountLaws
pub mod Security
pub mod SecurityLaws
pub mod SecurityRoundTrip
pub mod Decode
pub mod DecodeRoundTrip
pub mod Eia2
pub mod Subkeys
pub mod Blocks
pub mod Prefix
pub mod Eia2Cmac
mod SecurityRuns
mod Runs
