-- ===== src/Gtp.antt =====
-- libgtp: the GTPv2 information elements (libgtp/gtpie.c) and headers (libgtp/gtp.c).
pub mod Ie
pub mod Layout
pub mod EncapsLoop
pub mod Lookup
pub mod RoundTrip
pub mod Group
pub mod Accept
pub mod Header
pub mod Tbcd
mod Runs
