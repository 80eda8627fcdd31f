-- ===== src/Sdp.antt =====
-- src/components/sdp: session descriptions. A file for each class, and what they do together.
pub mod AddrType
pub mod MediaType
pub mod ProtocolType
pub mod AttributeType
pub mod Attribute
pub mod Connection
pub mod Origin
pub mod Timing
pub mod Session
pub mod Format
pub mod Media
pub mod Description
pub mod Readable
pub mod Returns
pub mod Lines
pub mod Printed
pub mod Unbroken
pub mod ReadBack
pub mod RoundTrip
pub mod Streams
mod Tests
