-- ===== src/Protocol/Decoder/Parse.antt =====
-- The byte stream of lib/fast_protocol.js as a language: which messages a sequence of bytes
-- holds, with no buffers, chunks or decoder state.
use node_fast.Base.{
  ℕ, ◌+◌, ◌≡◌, not, ◌&&◌, Option, none, some, List, [], ◌∷◌, ◌==◌, ltb, if◌then◌else◌, length, take,
  drop,
}
use node_fast.Protocol.Wire.{
  msgid_max, header_sz, off_data, type_json, version_1, version_current, is_status,
}
use node_fast.Protocol.External.{Codec}
use node_fast.Protocol.Encode.{Message}
use node_fast.Protocol.Decode.{
  ProtocolError, unsupported_version, unsupported_type, unsupported_status, invalid_msgid, Header,
  Decoded, decoded, refused, decode_text,
}
use node_fast.Protocol.Decoder.{header_of}

-- The first of the header's faults.
unfoldable pub header_fault : Header → Option ProtocolError
header_fault h =
    if not (h.version == version_current) && not (h.version == version_1)
    then some (unsupported_version h.version)
    else if not (h.type == type_json)
    then some (unsupported_type h.type)
    else if not (is_status h.status)
    then some (unsupported_status h.status)
    else if ltb msgid_max h.msgid
    then some (invalid_msgid h.msgid)
    else none

-- What stands at the front of a sequence of bytes.
pub data Front : Type 0 where
  incomplete : Front
  fault : ProtocolError → Front
  message : Message → List ℕ → Front

abbrev pub front_data : Decoded → List ℕ → Front
front_data (refused e) rest = fault e
front_data (decoded m) rest = message m rest

abbrev pub front_body : Codec → Header → List ℕ → Front
front_body c h bytes =
    if ltb (length bytes) (header_sz + h.datalen)
    then incomplete
    else front_data
        (decode_text c h (c.utf8_read (drop off_data (take (header_sz + h.datalen) bytes))))
        (drop (header_sz + h.datalen) bytes)

abbrev pub front_checked : Codec → Header → Option ProtocolError → List ℕ → Front
front_checked c h (some e) bytes = fault e
front_checked c h none bytes = front_body c h bytes

unfoldable pub front : Codec → List ℕ → Front
front c bytes =
    if ltb (length bytes) header_sz
    then incomplete
    else front_checked c (header_of bytes) (header_fault (header_of bytes)) bytes

-- The messages at the front of the bytes, up to the first fault, and the bytes that are left.
pub data Parses (c : Codec) : List ℕ → List Message → Option ProtocolError → List ℕ → Type 0 where
  ends : {bytes : List ℕ} → front c bytes ≡ incomplete → Parses c bytes [] none bytes
  fails :
      {bytes : List ℕ} (e : ProtocolError)
      → front c bytes ≡ fault e
      → Parses c bytes [] (some e) bytes
  more :
      {bytes rest left : List ℕ} {ms : List Message} {err : Option ProtocolError} (m : Message)
      → front c bytes ≡ message m rest
      → Parses c rest ms err left
      → Parses c bytes (m ∷ ms) err left
