-- ===== src/Protocol/Decode.antt =====
-- The stream decoder of lib/fast_protocol.js: `validateCrc`, `fastMessageDecode` and
-- `FastMessageDecoder`.
use node_fast.Base.{
  ℕ, ◌+◌, not, ◌&&◌, ◌||◌, Option, none, some, List, ◌==◌, if◌then◌else◌, length, drop, String,
  Outcome, ok, assert, ◌>>◌,
}
use node_fast.Json.{Json, get, get?, is_object, is_object?, is_array?, is_string?}
use node_fast.Protocol.Wire.{off_data, status_data, status_end, status_error}
use node_fast.Protocol.External.{Codec}
use node_fast.Protocol.Encode.{Message, checksum}

-- The protocol errors, by their `fastReason`, with the values that they report.
pub data ProtocolError : Type 0 where
  bad_crc : ℕ → ℕ → ℕ → ProtocolError
  invalid_json bad_data bad_data_d bad_error : ProtocolError
  unsupported_version unsupported_type unsupported_status invalid_msgid : ℕ → ProtocolError
  incomplete_message : ProtocolError

-- The argument `header` of `fastMessageDecode`.
pub record Header : Type 0 where
  pub version : ℕ
  pub type : ℕ
  pub status : ℕ
  pub msgid : ℕ
  pub crc : ℕ
  pub datalen : ℕ

pub data Decoded : Type 0 where
  decoded : Message → Decoded
  refused : ProtocolError → Decoded

-- `validateCrc`, with `none` for a checksum that agrees.
unfoldable pub validate_crc : Codec → ℕ → ℕ → String → Option ProtocolError
validate_crc c version header_crc text =
    let calculated = checksum c version text in
    if calculated == header_crc then none else some (bad_crc header_crc calculated version)

-- The checks of the JSON value, in order.
unfoldable pub check_data : ℕ → Json → Option ProtocolError
check_data status json =
    if not (is_object json)
    then some bad_data
    else if (status == status_data || status == status_end) && not (is_array? (get "d" json))
    then some bad_data_d
    else if status == status_error
        && (not (is_object? (get "d" json))
            || (not (is_string? (get? "name" (get "d" json)))
                || not (is_string? (get? "message" (get "d" json)))))
    then some bad_error
    else none

abbrev decode_json : Header → Option Json → Decoded
decode_json h none = refused invalid_json
decode_json h (some json) = elim (check_data h.status json) [
  | some e ↦ refused e
  | none ↦
      decoded (record { msgid = h.msgid; status = h.status; payload = json; version = h.version })
]

-- What `fastMessageDecode` does with the text of the data.
unfoldable pub decode_text : Codec → Header → String → Decoded
unfolding validate_crc
decode_text c h text = elim (validate_crc c h.version h.crc text) [
  | some e ↦ refused e
  | none ↦ decode_json h (c.parse text)
]

-- `fastMessageDecode`
unfoldable pub message_decode : Codec → Header → List ℕ → Outcome Decoded
message_decode c h buffer = do
  assert (length buffer == off_data + h.datalen)
  ok (decode_text c h (c.utf8_read (drop off_data buffer)))
