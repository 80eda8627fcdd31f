-- ===== src/Sdp/Readable.antt =====
-- src/components/sdp/Sdp.cpp: which lines and bodies the constructor's loop can read, and what it comes to.
use sip_processing.Prelude.{
  ℕ, ◌%◌, ◌^◌, ◌≡◌, ◌∷◌, [], List, Option, none, some, Bool, true, false, ◌&&◌, Text, leb, ◌==◌,
  ◌||◌, if◌then◌else◌, length,
}
use sip_processing.Buffers.{is_separator}
use sip_processing.Buffers.Split.{fields}
use sip_processing.Sdp.Description.{Sdp, to_lower}

-- What stands behind the first `d`.
unfoldable pub after_first : ℕ → Text → Text
after_first d [] = []
after_first d (c ∷ cs) = if c == d then cs else after_first d cs

unfoldable pub has_fields : ℕ → ℕ → Text → Bool
unfolding fields
has_fields n d s = leb n (length (fields (is_separator d) s))

abbrev pub second : List Text → Text
second [] = []
second (s ∷ []) = []
second (s ∷ t ∷ l) = t

-- Whether the constructor gets through an entry, with its pointer to the log set or not: a connection has
-- three fields; a media stream has four, of which the second holds a port, and uses the log, as an
-- unknown letter does.
unfoldable pub readable_entry : Bool → ℕ → Text → Bool
unfolding has_fields
readable_entry log c entry =
    if c == b'c'
    then has_fields 3 b' ' entry
    else if c == b'm'
    then has_fields 4 b' ' entry
      && has_fields 1 b'/' (second (fields (is_separator b' ') entry))
      && log
    else if c == b'o' || c == b'v' || c == b's' || c == b't' || c == b'a'
    then true
    else log

unfoldable pub readable_line : Bool → Text → Bool
unfolding readable_entry after_first
readable_line log [] = true
readable_line log (c ∷ cs) = readable_entry log (to_lower c) (after_first b'=' (c ∷ cs))

unfoldable pub readable : Bool → List Text → Bool
unfolding readable_line
readable log [] = true
readable log (line ∷ lines) = readable_line log line && readable log lines

-- The log is as it was, and the streams are counted as far as a byte counts.
abbrev pub IsReady : Bool → Sdp → Type 0
IsReady log sdp = (sdp.logger ≡ log) × (sdp.stream_count ≡ length sdp.media % 2 ^ 8)

-- The code returns a description that is ready, or uses what is not there.
pub data Outcome (log : Bool) (r : Option Sdp) : Bool → Type 0 where
  returns : (sdp : Sdp) → r ≡ some sdp → IsReady log sdp → Outcome log r true
  faults : r ≡ none → Outcome log r false
