-- ===== src/SipParser.antt =====
-- src/components/sip/SipParser.h and SipParser.cpp.
pub mod HeaderBlock
pub mod ReadLine
pub mod Normalise
pub mod Load
pub mod Loop
pub mod Waiting
pub mod Rests
pub mod NullLog
mod Tests
mod LoadTests
use sip_processing.Prelude.{ℕ, List, [], ◌∷◌}

-- "\r\n\r\n", the delimiter of the sections of a message.
abbrev pub message_delimiter : List ℕ
message_delimiter = b'\r' ∷ b'\n' ∷ b'\r' ∷ b'\n' ∷ []
