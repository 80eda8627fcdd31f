-- ===== src/Sdp/Tests.antt =====
-- src/components/sdp: a description that is printed and read, and the theorems at it.
use sip_processing.Prelude.{
  ◌≡◌, refl, inl, inr, true, false, [], ◌∷◌, ◌++◌, Text, codes, some, none, arith, length, leb→le,
  ◌≤◌, min, take,
}
use sip_processing.Buffers.{is_space, is_line_end, is_trimmed}
use sip_processing.Buffers.Words.{unlines}
use sip_processing.Buffers.Split.{fields}
use sip_processing.Sdp.AddrType
use sip_processing.Sdp.MediaType
use sip_processing.Sdp.ProtocolType
use sip_processing.Sdp.Attribute
use sip_processing.Sdp.Attribute.{of_key_value, of_strings}
use sip_processing.Sdp.Connection.{of_address}
use sip_processing.Sdp.Format.{payload}
use sip_processing.Sdp.Media.{SdpMedia}
use sip_processing.Sdp.Description.{
  Sdp, to_string, members, parse_body, of_body, add_stream_strings, add_stream_format,
}
use sip_processing.Sdp.Readable.{Outcome, readable}
use sip_processing.Sdp.Returns.{parse_body-Outcome}
use sip_processing.Sdp.Printed.{IsPrinted, lines_of, to_string-lines}
use sip_processing.Sdp.ReadBack.{parsed}
use sip_processing.Sdp.RoundTrip.{parse_body-to_string}
use sip_processing.Sdp.Streams.{ChangedStream, add_stream_strings-ChangedStream}

abbrev audio_stream : SdpMedia
audio_stream = record {
  media_type = MediaType.audio;
  port = some 4000;
  protocol = ProtocolType.rtp;
  formats = payload 0 ∷ payload 101 ∷ [];
  attributes =
      of_key_value (codes "rtpmap") (codes "0") (codes "PCMU/8000")
      ∷ Attribute.of_key (codes "sendrecv")
      ∷ [];
  logger = false;
}

abbrev offer : Sdp
offer = record (members 0 true) {
  stream_count = 1;
  origin = record {
    username = codes "-";
    session_id = 1001;
    session_version = some 1000;
    address = codes "10.0.0.1";
    addr_type = AddrType.ipv4;
    net_type = codes "IN";
  };
  connection = of_address (codes "10.0.0.1");
  attributes = of_strings (codes "ptime") (codes "20") [] ∷ [];
  media = audio_stream ∷ [];
}

abbrev offer_text : Text
offer_text =
    codes
      "v=0\r\no=- 1001 1000 IN IP4 10.0.0.1\r\ns=-\r\nc=IN IP4 10.0.0.1\r\nt=0 0\r\na=ptime:20\r\nm=audio 4000 RTP/AVP 0 101\r\na=rtpmap:0 PCMU/8000\r\na=sendrecv\r\n"

print_offer : to_string offer ≡ some offer_text
unfolding to_string
print_offer = refl

-- A connection line of two fields is read past the end of its vector.
short_connection : parse_body (codes "v=0\r\nc=IN IP4\r\n") 15 (members 0 true) ≡ none
unfolding parse_body
short_connection = refl

-- The constructor uses the log that it has not got.
constructor_faults : of_body offer_text 146 0 ≡ none
unfolding of_body
constructor_faults = refl

-- A second format of the same number is logged by a stream without log.
second_format : add_stream_format 1 (payload 0) offer ≡ none
unfolding add_stream_format
second_format = refl

offer-IsPrinted : IsPrinted offer
unfolding is_space is_trimmed
offer-IsPrinted = record {
  counted = refl;
  few = ground arith;
  version = ground arith;
  origin = (
    refl,
    ground arith,
    ground arith,
    refl,
    ((λ e. cc), ground arith),
    ((λ e. cc), ground arith),
  );
  session = ground arith;
  net_type = ((λ e. cc), ground arith);
  address = ((λ e. cc), ground arith);
  start = ground arith;
  stop = ground arith;
  attributes = ((((λ e. cc), ground arith), ground arith, ((λ e. cc), ground arith), inl refl), tt);
  media = (
    (
      refl,
      ground arith,
      (λ e. cc),
      (
        (
          ((λ e. cc), ground arith),
          ground arith,
          ((λ e. cc), ground arith),
          inr (codes "PCMU/800", b'0', refl, refl, ground arith),
        ),
        ((((λ e. cc), ground arith), ground arith, refl, inl refl), tt),
      ),
    ),
    tt,
  );
}

offer-fits : length (unlines (lines_of offer)) ≤ 4096
offer-fits =
    let lines = to_string-lines offer offer-IsPrinted in
    let printed = print_offer in
    let same : unlines (lines_of offer) ≡ offer_text = cc in
    rw same (leb→le (length offer_text) 4096 refl)

parse_body-to_string_example :
    (text : Text) × (to_string offer ≡ some text)
    × (parse_body text (length text) (members 7 true) ≡ some (parsed true offer))
parse_body-to_string_example = parse_body-to_string offer 7 true offer-IsPrinted offer-fits

-- The constructor's members, without the log.
parse_body-Outcome_example :
    Outcome false
      (parse_body offer_text 146 (members 0 false))
      (readable false (fields is_line_end (take (min 146 4096) offer_text)))
parse_body-Outcome_example = parse_body-Outcome offer_text 146 (members 0 false) false (refl, refl)

add_stream_strings-ChangedStream_example :
    ChangedStream
      (λ m. some (record m {
        attributes = m.attributes ++ (of_strings (codes "ptime") (codes "20") [] ∷ []);
      }))
      1
      offer
      (add_stream_strings 1 (codes "ptime") (codes "20") [] offer)
add_stream_strings-ChangedStream_example =
    add_stream_strings-ChangedStream 1 (codes "ptime") (codes "20") [] offer (ground arith)
      (refl, refl)
