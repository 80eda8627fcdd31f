-- ===== src/Lib.antt =====
-- A verification library of SIP-Processing, a call recorder that speaks SIP. It models the receive
-- path of its core, from the bytes of a socket to the events of a call, and the session descriptions of
-- its media server.
--
-- The parts and how they interact. A socket's data is pushed into a MessageBuffer
-- (src/components/utilities/MessageBuffer.h, .cpp), from which SipInterface pulls sections up to the
-- delimiter that SipParser gives. The parser's lines and fields are views that the functions of
-- src/components/utilities/buffers.h and .cpp cut and compare. A parsed SipMessage
-- (src/components/sip/messages) goes to SipInterface::processMessage, which lets SipDialogueManager
-- find or open the dialogue of its Call-ID and calls the handler of its type; the handler changes
-- the dialogue's state, sends a response and calls the application's event handler.
--
-- The files:
--   Prelude: names of the libraries, Boolean tests on numbers, lists that are indexed by numbers,
--     texts as lists of character codes (`codes` of a literal, `decimal` of a number).
--   MessageBuffer: the class; `content` is the array `data`, `create` the constructor, `pull` and
--     `pull_delimited` the two overloads of pull, `scan` the loop of the delimiter search. Its
--     children hold the invariant (Valid), one file for each operation, and the search.
--   Buffers: src/components/utilities/buffers.cpp; a view is a text and a length. Its children Words,
--     Decimal and Kept say what the functions give for a text of known parts.
--   Base64: src/components/utilities/base64.cpp, both loops with the bytes that they put aside.
--   Util: src/components/utilities/util.cpp, the comparison of C strings and the splits.
--   SipParser: the delimiter, and the header section that a pull gives; SipParser/ReadLine:
--     `readHeaderLine`, where the list that is left stands for the pointer into the message;
--     Normalise: `normaliseHeaderData`, and the record of the parser's members; Load:
--     `loadMessageData` and the two functions that read a header section and a body. Loop, Waiting, Rests
--     and NullLog are about their loop, the states between calls, and the log that is not set.
--   SipReceive: `onUdpRecv`, `onTcpRecv` and SipConnection.hpp over any parser; Segments says what a parser
--     has loaded, Udp and Tcp follow the two loops.
--   SipHeaders: what the classes of src/components/sip/headers read from their values;
--     Tokens and RoundTrip read the Via value of a response again.
--   SipMessage: the header map, the accessors and the bodies of SipMessage.cpp, with
--     getResponseValue of headers/SipViaHeader.h; SipMessage/Accessors what the accessors keep,
--     Whole and Nulls what they do with headers that are there or missing; SipMessage/Builder is
--     `SipMessage::builder`, with `log` for the pointer to the log of the class. The field `logger` of a message
--     tells the same, which the builder sets from `log`.
--   SipRequest: the responses of SipRequest.cpp, SipInviteRequest.cpp and SipSubscribeRequest.h.
--   SipDialogue: SipDialogue.cpp and SipTransaction.h. DialogueManager: SipDialogueManager.cpp, where
--     a dialogue pointer is an index; its children hold the invariant of the two maps and the
--     abstract view `lookup`, from a Call-ID to its dialogue.
--   SipInterface: processMessage and its handlers, with sends and events as a list of effects;
--     Abstract is the table of transitions and reactions, Handlers and Step the refinement, Returns,
--     Mute and MissingHeader the use of null pointers, Reach the states after any
--     sequence of messages, and Offer the session description that the application gets.
--   Sdp: src/components/sdp, a file for each class and Description for the class Sdp, whose
--     constructor's loop is `parse_body`; Readable and Returns tell which bodies it gets through, Lines, Printed,
--     Unbroken, ReadBack and RoundTrip follow a description through its text, and Streams is about the ids.
--   MediaPorts: the pool of RTP ports of
--     src/components/media/session/MediaSessionManager.cpp; its child Sessions holds the lookup of sessions
--     and `allocate`, Answer what it gives after any calls of it, Cycle and Release the ports.
--
-- Conventions. `size_t` and `uint32_t` keep their wrap-around, written out; the theorems on dialogues
-- assume that a channel id is left, `last_channel_id + 1 < 2 ^ 32`, since a repeated id would hit
-- the map's old entry. What is undefined in C++, an access outside an array and the use of a null
-- pointer, returns `none`, or `faulted` in the receive loops. Four loops have fuel. The delimiter search has
-- one unit for each byte of the caller's buffer and one more: each round counts a byte and stops at that
-- size. normaliseHeaderData has one for each byte of the message and one more: each round moves
-- on. The receive loops have one for each byte stored and one more: each round that goes on pulls
-- a byte. `fresh` and `buf` are memory that is not written yet.
-- The request that a transaction shares with its message is a snapshot: what a later accessor puts
-- into the shared map, a null pointer for a missing name, has stopped `processInvite` before.
--
-- Not modelled: libuv (sockets, timers), jsoncpp, libxml2 and the log; the start-up code in
-- src/applications; the media and control
-- connections, whose messages go through jsoncpp.
mod Prelude
pub mod MessageBuffer
pub mod Buffers
pub mod SipMessage
pub mod SipRequest
pub mod SipDialogue
pub mod DialogueManager
pub mod SipInterface
pub mod SipParser
pub mod Base64
pub mod MediaPorts
pub mod Sdp
pub mod Util
pub mod SipHeaders
pub mod SipReceive
