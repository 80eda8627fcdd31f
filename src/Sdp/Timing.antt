-- ===== src/Sdp/Timing.antt =====
-- src/components/sdp/SdpTiming.hpp
use sip_processing.Prelude.{ℕ, ◌∷◌, [], List, Text, codes, stream, decimal}
use sip_processing.Buffers.{MappedBuffer, buffer_split}
use sip_processing.Buffers.Numbers.{to_long_integer, uint32}

pub record SdpTiming : Type 0 where
  pub start : ℕ
  pub stop : ℕ

abbrev pub default_timing : SdpTiming
default_timing = record { start = 0; stop = 0 }

abbrev pub of_content : List MappedBuffer → SdpTiming
of_content (start ∷ stop ∷ rest) = record {
  start = uint32 (to_long_integer start);
  stop = uint32 (to_long_integer stop);
}
of_content content = default_timing

unfoldable pub timing_line : MappedBuffer → SdpTiming
unfolding buffer_split to_long_integer
timing_line raw_t_line_data = of_content (buffer_split raw_t_line_data b' ')

unfoldable pub to_string : SdpTiming → Text
unfolding decimal
to_string t = stream (codes "t=" ∷ decimal t.start ∷ codes " " ∷ decimal t.stop ∷ [])

unfoldable pub to_json : SdpTiming → Text
unfolding decimal
to_json t = stream (
    codes "{\"start\": \""
    ∷ decimal t.start
    ∷ codes "\", \"end\": \""
    ∷ decimal t.stop
    ∷ codes "\"}"
    ∷ [])
