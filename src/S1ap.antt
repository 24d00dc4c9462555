-- ===== src/S1ap.antt =====
-- S1AP: the aligned packed encoding rules (S1AP/src/rt_per_bin.c), and the messages.
pub mod Encode
pub mod Decode
pub mod Octets
pub mod Length
pub mod RoundTrip
pub mod Number
pub mod Message
pub mod Container
pub mod Pdu
pub mod Frame
pub mod Reading
pub mod Element
pub mod ElementRoundTrip
pub mod ElementCodes
pub mod UeIds
pub mod MessageRoundTrip
mod Runs
