-- ===== src/SipParser/LoadTests.antt =====
-- Calls of the parser of src/components/sip/SipParser.cpp for a request whose content follows.
use sip_processing.Prelude.{
  ◌≡◌, ◌⊎◌, refl, true, false, [], ◌∷◌, some, none, Text, codes, length, take, pos,
}
use sip_processing.SipMessage.{SipMessage, BodyType, bye}
use sip_processing.SipHeaders.{plain_header}
use sip_processing.SipParser.Normalise.{Parser, new_parser, normalise_header_data}
use sip_processing.SipParser.Load.{Loaded, load_message_data}
use sip_processing.SipParser.Loop.{Loop, normalise_header_data-Loop}
use sip_processing.SipParser.Waiting.{IsCounted}
use sip_processing.SipParser.Rests.{Rests, load_message_data-Rests}
use sip_processing.SipParser.NullLog.{IsEmpty, load_message_data-NullLog}

abbrev section : Text
section = codes "BYE sip:a\r\nContent-Length: 4\r\n\r\n"

abbrev start : Parser
start = new_parser BodyType.no_body

abbrev bye_request : SipMessage
bye_request = record {
  is_request = true;
  message_type = bye;
  headers = (codes "CONTENT-LENGTH", some (plain_header (codes "Content-Length") (codes "4"))) ∷ [];
  bodies = [];
  channel_id = 7;
  reinvite_flag = false;
  logger = true;
}

-- The request waits for four bytes.
abbrev after_section : Loaded
after_section = record {
  pending = 4;
  parser = record start {
    processing_message = true;
    message = codes "BYE:sip:a\r\nContent-Length:4\r\n";
    required_content_length = pos 4;
    sip_message = some bye_request;
  };
  events = [];
}

-- It was handed on with its content.
abbrev after_content : Loaded
after_content = record {
  pending = 0;
  parser = record (after_section.parser) { processing_message = false };
  events = bye_request ∷ [];
}

section_run : load_message_data true 7 false section (length section) start ≡ some after_section
unfolding load_message_data
section_run = refl

content_run :
    load_message_data true 7 false (codes "abcd") 4 (after_section.parser) ≡ some after_content
unfolding load_message_data
content_run = refl

normalise_header_data-Loop_example :
    (q : Parser) × (out : Text) × (Loop (take (length section) section) 0 start [] q out
      × (normalise_header_data section (length section) start ≡ record q { message = out }))
normalise_header_data-Loop_example = normalise_header_data-Loop section (length section) start

load_message_data-Rests_example : Rests true after_section × IsCounted (after_section.parser)
load_message_data-Rests_example =
    load_message_data-Rests true 7 false section (length section) start after_section (λ f. refl)
      section_run

load_message_data-NullLog_example :
    (load_message_data false 7 false section (length section) start ≡ none)
    ⊎ ((r : Loaded) × (load_message_data false 7 false section (length section) start ≡ some r)
        × (r.pending ≡ 0)
        × (r.events ≡ [])
        × IsEmpty r.parser)
load_message_data-NullLog_example =
    load_message_data-NullLog 7 false section (length section) start
      (record { between = refl; holds_none = refl })
