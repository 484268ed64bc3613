-- ===== src/Protocol/Encode.antt =====
-- `fastMessageEncode` of lib/fast_protocol.js, and the transform stream around it.
use node_fast.Base.{
  ℕ, Bool, ◌||◌, List, [], ◌∷◌, ◌++◌, ◌==◌, leb, if◌then◌else◌, length, String, Outcome, ok, throw,
  assert, unsupported_message_status, ◌>>=◌, ◌>>◌,
}
use node_fast.Json.{Json, is_object}
use node_fast.Protocol.Wire.{
  msgid_max, status_end, status_error, is_status, type_json, version_1, write_uint8,
  write_uint32_be,
}
use node_fast.Protocol.External.{Codec}

-- A logical message: `payload` is the source's `data`.
pub record Message : Type 0 where
  pub msgid : ℕ
  pub status : ℕ
  pub payload : Json
  pub version : ℕ

-- A message that is the last of its request.
abbrev pub is_final : Message → Bool
is_final m = m.status == status_end || m.status == status_error

-- The checksum of a text under a version of the protocol.
unfoldable pub checksum : Codec → ℕ → String → ℕ
checksum c version text = if version == version_1 then c.old_crc16 text else c.crc16 text

abbrev check_status : ℕ → Outcome (Unit {0})
check_status status = if is_status status then ok tt else throw unsupported_message_status

unfoldable pub encode : Codec → Message → Outcome (List ℕ)
encode c msg = do
  assert (leb msg.msgid msgid_max)
  assert (is_object msg.payload)
  check_status msg.status
  let data_encoded = c.stringify msg.payload
  let bytes = c.utf8_write data_encoded
  version ← write_uint8 msg.version
  type ← write_uint8 type_json
  status ← write_uint8 msg.status
  msgid ← write_uint32_be msg.msgid
  crc ← write_uint32_be (checksum c msg.version data_encoded)
  datalen ← write_uint32_be (length bytes)
  ok (version ++ (type ++ (status ++ (msgid ++ (crc ++ (datalen ++ bytes))))))

-- `FastMessageEncoder`: each message that is written is encoded and pushed, in order. The list is
-- what the stream has pushed.
unfoldable pub encode_all : Codec → List Message → Outcome (List (List ℕ))
encode_all c [] = ok []
encode_all c (msg ∷ msgs) = do chunk ← encode c msg; chunks ← encode_all c msgs; ok (chunk ∷ chunks)
