-- ===== src/Sdp/Format.antt =====
-- src/components/sdp/SdpFormatType.hpp and SdpFormat.hpp. `setFmt` leaves the member as it is, which is
-- not set yet, for a number that it does not know: here it is `none` then.
use sip_processing.Prelude.{
  ℕ, ◌%◌, ◌^◌, ◌∷◌, [], Option, none, some, Text, codes, stream, ◌==◌, if◌then◌else◌,
}

pub data Fmt : Type 0 where
  pcmu : Fmt
  g723 : Fmt
  pcma : Fmt
  g722 : Fmt
  g729 : Fmt
  dtmf : Fmt
  custom : Fmt

-- The values of the enumeration.
unfoldable pub get_fmt_number : Fmt → ℕ
get_fmt_number pcmu = 0
get_fmt_number g723 = 4
get_fmt_number pcma = 8
get_fmt_number g722 = 9
get_fmt_number g729 = 18
get_fmt_number dtmf = 101
get_fmt_number custom = 120

unfoldable pub type_to_string : Fmt → Text
type_to_string pcmu = codes "PCMU"
type_to_string g723 = codes "G723"
type_to_string pcma = codes "PCMA"
type_to_string g722 = codes "G722"
type_to_string g729 = codes "G729"
type_to_string dtmf = codes "DTMF"
type_to_string custom = codes "CUSTOM"

unfoldable pub set_fmt : ℕ → Option Fmt
unfolding get_fmt_number
set_fmt fmt_id =
    if fmt_id == get_fmt_number pcmu
    then some pcmu
    else if fmt_id == get_fmt_number pcma
    then some pcma
    else if fmt_id == get_fmt_number g729
    then some g729
    else if fmt_id == get_fmt_number g722
    then some g722
    else if fmt_id == get_fmt_number dtmf
    then some dtmf
    else if fmt_id == get_fmt_number custom
    then some custom
    else none

pub data FormatDescriptorType : Type 0 where
  payload_format : FormatDescriptorType
  format_parameter : FormatDescriptorType

pub record SdpFormat : Type 0 where
  pub id : ℕ
  pub descriptor_type : FormatDescriptorType

-- `SdpFormat(uint8_t)`.
abbrev pub payload : ℕ → SdpFormat
payload id = record { id = id % 2 ^ 8; descriptor_type = payload_format }

unfoldable pub get_format_name : ℕ → Text
get_format_name format_id =
    if format_id == 0
    then codes "PCMU"
    else if format_id == 8
    then codes "PCMA"
    else if format_id == 9
    then codes "G722"
    else codes "UNKNOWN"

abbrev pub descriptor_text : FormatDescriptorType → Text
descriptor_text payload_format = codes "rtpmap:"
descriptor_text format_parameter = codes "fmtp"

unfoldable pub to_string : SdpFormat → Text
unfolding get_format_name
to_string f = stream (
    codes "a="
    ∷ descriptor_text f.descriptor_type
    ∷ codes " "
    ∷ get_format_name f.id
    ∷ codes "/8000"
    ∷ [])
