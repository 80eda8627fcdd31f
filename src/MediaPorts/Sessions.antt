-- ===== src/MediaPorts/Sessions.antt =====
-- The sessions of src/components/media/session/MediaSessionManager.cpp and the answer that `allocate`
-- makes. `t` is the time. Of a session the id is here, which may be unset. The use of a null pointer and of a number that is not set return
-- `none`.
use sip_processing.Prelude.{
  ℕ, zero, suc, List, [], ◌∷◌, Option, none, some, Text, codes, text_eq, ◌==◌, ◌>>=◌, if◌then◌else◌,
}
use sip_processing.Sdp.Origin
use sip_processing.Sdp.Connection
use sip_processing.Sdp.MediaType
use sip_processing.Sdp.ProtocolType
use sip_processing.Sdp.Format.{payload, get_fmt_number, pcmu, dtmf}
use sip_processing.Sdp.Media.{SdpMedia, of_port, add_format, add_key_value}
use sip_processing.Sdp.Description
use sip_processing.Sdp.Description.{
  Sdp, set_origin, set_connection, add_media_stream, set_session_id,
}
use sip_processing.MediaPorts.{PortPool, create, allocate_port, allocate_session_id}

-- A session, of which no constructor sets the id.
pub record MediaSession : Type 0 where
  pub session_id : Option ℕ

pub record MediaSessionManager : Type 0 where
  pub ports : PortPool
  pub call_id_to_session_id_lookup : List (Text × ℕ)
  pub sessions : List (ℕ × MediaSession)

-- The constructor.
abbrev pub new_manager : MediaSessionManager
new_manager = record { ports = create; call_id_to_session_id_lookup = []; sessions = [] }

abbrev pub config_local_ip_address : Text
config_local_ip_address = codes "192.168.0.4"

-- `getSession` for an id, and for a Call-ID.
unfoldable pub session_of_id : ℕ → List (ℕ × MediaSession) → Option MediaSession
session_of_id id [] = none
session_of_id id ((key, session) ∷ sessions) =
    let rest = session_of_id id sessions in if key == id then some session else rest

unfoldable pub id_of_call : Text → List (Text × ℕ) → Option ℕ
unfolding text_eq
id_of_call call_id [] = none
id_of_call call_id ((key, id) ∷ calls) =
    let rest = id_of_call call_id calls in if text_eq key call_id then some id else rest

unfoldable pub get_session : Text → MediaSessionManager → Option MediaSession
unfolding session_of_id id_of_call
get_session call_id m = do
  id ← id_of_call call_id m.call_id_to_session_id_lookup
  session_of_id id m.sessions

-- The stream of the answer for a port.
unfoldable pub answer_stream : ℕ → Option SdpMedia
unfolding add_format add_key_value get_fmt_number
answer_stream port = do
  m ← add_format (payload (get_fmt_number pcmu)) (of_port MediaType.audio port ProtocolType.rtp)
  m ← add_key_value (codes "rtpmap") (codes "0") (codes "PCMU/8000") m
  m ← add_format (payload (get_fmt_number dtmf)) m
  m ← add_key_value (codes "rtpmap") (codes "101") (codes "telephone-event/8000") m
  m ← add_key_value (codes "fmtp") (codes "101") (codes "0-15") m
  add_key_value (codes "ptime") (codes "20") [] m

-- The loop over the streams of the offer.
unfoldable pub answer_streams : ℕ → PortPool → Sdp → Option (PortPool × Sdp)
unfolding allocate_port answer_stream add_media_stream
answer_streams zero ports answer = some (ports, answer)
answer_streams (suc streams) ports answer = do
  p ← allocate_port ports
  m ← answer_stream p.0
  answer_streams streams p.1 (add_media_stream m answer)

abbrev pub local_answer : Sdp → Sdp
local_answer answer = set_connection (Connection.of_address config_local_ip_address) (
    set_origin (Origin.of_strings (codes "-") (codes "mysessionId") 1000 config_local_ip_address)
      answer)

-- The answer to a new call.
abbrev pub allocate_new : Sdp → Sdp → MediaSessionManager → Option (ℕ × Sdp × MediaSessionManager)
allocate_new offer answer m = do
  a ← answer_streams offer.stream_count m.ports (local_answer answer)
  text ← Description.to_string a.1
  let id = allocate_session_id a.0
  some (id.0, set_session_id id.0 a.1, record m { ports = id.1 })

unfoldable pub allocate :
    Text → Sdp → Sdp → MediaSessionManager → Option (ℕ × Sdp × MediaSessionManager)
unfolding get_session answer_streams Description.to_string set_session_id set_origin set_connection
    Origin.of_strings
allocate call_id offer answer m = do
  text ← Description.to_string offer
  elim (get_session call_id m) [
    | some session ↦ session.session_id >>= λ id. some (id, answer, m)
    | none ↦ allocate_new offer answer m
  ]

-- `release`, which only looks for the session.
abbrev pub release : ℕ → MediaSessionManager → MediaSessionManager
release session_id m = m
