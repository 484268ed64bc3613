-- ===== src/Protocol/Decoder.antt =====
-- `FastMessageDecoder` of lib/fast_protocol.js. A stream's consumer is not modelled: `push` appends
-- to the list of what was pushed, and during it no other call of the decoder runs.
pub mod Prefixes
pub mod Parse
pub mod Rounds
pub mod Refinement
pub mod Chunks
pub mod RoundTrip
pub mod Shape
pub mod WellFormed
pub mod EndOfStream
use node_fast.Base.{
  ℕ, zero, suc, ◌+◌, ◌-◌, Bool, true, false, not, ◌&&◌, ◌||◌, Option, none, some, List, [], ◌∷◌,
  ◌++◌, ◌==◌, ltb, leb, if◌then◌else◌, is_none, is_some, length, take, drop, Outcome, ok, throw,
  assert, out_of_fuel, assertion, ◌>>=◌, ◌>>◌,
}
use node_fast.Protocol.Wire.{
  msgid_max, off_version, off_type, off_status, off_msgid, off_crc, off_datalen, header_sz,
  type_json, version_1, version_current, is_status, read_uint8, read_uint32_be,
}
use node_fast.Protocol.External.{Codec}
use node_fast.Protocol.Encode.{Message}
use node_fast.Protocol.Decode.{
  ProtocolError, unsupported_version, unsupported_type, unsupported_status, invalid_msgid,
  incomplete_message, Header, Decoded, decoded, refused, message_decode,
}

-- The `md_` fields. `pushed` holds the messages that the stream has emitted, oldest first.
pub record Decoder : Type 0 where
  pub buffer : Option (List ℕ)
  pub have_bytes : ℕ
  pub done : Bool
  pub error : Option ProtocolError
  pub pushing : Bool
  pub version : Option ℕ
  pub type : Option ℕ
  pub status : Option ℕ
  pub msgid : Option ℕ
  pub crc : Option ℕ
  pub datalen : Option ℕ
  pub nmessages : ℕ
  pub nbytes : ℕ
  pub pushed : List Message

-- `new FastMessageDecoder()`
abbrev pub create : Decoder
create = record {
  buffer = none;
  have_bytes = 0;
  done = false;
  error = none;
  pushing = false;
  version = none;
  type = none;
  status = none;
  msgid = none;
  crc = none;
  datalen = none;
  nmessages = 0;
  nbytes = 0;
  pushed = [];
}

abbrev pub clear_header : Decoder → Decoder
clear_header s = record s {
  version = none;
  type = none;
  status = none;
  msgid = none;
  crc = none;
  datalen = none;
}

-- The six fields that the loop reads from the front of the buffer.
unfoldable pub header_of : List ℕ → Header
header_of buf = record {
  version = read_uint8 buf off_version;
  type = read_uint8 buf off_type;
  status = read_uint8 buf off_status;
  msgid = read_uint32_be buf off_msgid;
  crc = read_uint32_be buf off_crc;
  datalen = read_uint32_be buf off_datalen;
}

-- How a round of the loop ends: by `break`, or by falling through to the next test.
pub data Flow : Type 0 where
  stop : Decoder → Flow
  again : Decoder → Flow

-- A complete message is consumed and decoded, and pushed if it is in order.
abbrev push_decoded : Decoder → Decoded → Flow
push_decoded s (refused e) = stop (record s { error = some e })
push_decoded s (decoded m) =
    again (record (clear_header s) { pushed = s.pushed ++ m ∷ []; nmessages = s.nmessages + 1 })

consume : Codec → Header → List ℕ → Decoder → Outcome Flow
consume c h buf s = do
  d ← message_decode c h (take (header_sz + h.datalen) buf)
  ok (
      push_decoded
        (record s {
          buffer = some (drop (header_sz + h.datalen) buf);
          have_bytes = s.have_bytes - (header_sz + h.datalen);
        })
        d)

-- The tests of the loop's body after the version has been read, one field after the other.
read_data : Codec → Header → List ℕ → Decoder → Outcome Flow
unfolding consume
read_data c h buf s =
    let s' = record s { crc = some h.crc; datalen = some h.datalen } in
    if ltb s.have_bytes (header_sz + h.datalen)
    then ok (stop (clear_header s'))
    else consume c h buf s'

read_msgid : Codec → Header → List ℕ → Decoder → Outcome Flow
unfolding read_data
read_msgid c h buf s =
    let s' = record s { msgid = some h.msgid } in
    if ltb msgid_max h.msgid
    then ok (stop (record s' { error = some (invalid_msgid h.msgid) }))
    else read_data c h buf s'

read_status : Codec → Header → List ℕ → Decoder → Outcome Flow
unfolding read_msgid
read_status c h buf s =
    let s' = record s { status = some h.status } in
    if is_status h.status
    then read_msgid c h buf s'
    else ok (stop (record s' { error = some (unsupported_status h.status) }))

read_type : Codec → Header → List ℕ → Decoder → Outcome Flow
unfolding read_status
read_type c h buf s =
    let s' = record s { type = some h.type } in
    if not (h.type == type_json)
    then ok (stop (record s' { error = some (unsupported_type h.type) }))
    else read_status c h buf s'

unfoldable pub read_version : Codec → Header → List ℕ → Decoder → Outcome Flow
unfolding read_type
read_version c h buf s =
    let s' = record s { version = some h.version } in
    if not (h.version == version_current) && not (h.version == version_1)
    then ok (stop (record s' { error = some (unsupported_version h.version) }))
    else read_type c h buf s'

abbrev or_throw {ℓ} : {A : Type ℓ} → Option A → Outcome A
or_throw none = throw assertion
or_throw (some a) = ok a

-- One round of the `while` loop.
unfoldable pub decode_once : Codec → Decoder → Outcome Flow
decode_once c s = do
  buf ← or_throw s.buffer
  assert (length buf == s.have_bytes)
  assert (is_none s.error)
  assert (is_none s.version)
  read_version c (header_of buf) buf s

-- The `while` loop; every round but the last takes a header's bytes at least.
unfoldable pub decode_loop : Codec → ℕ → Decoder → Outcome Decoder
decode_loop c zero s = throw out_of_fuel
decode_loop c (suc fuel) s = elim (leb header_sz s.have_bytes) [
  | false ↦ ok s
  | true ↦ decode_once c s >>= λ flow. elim flow [ stop t ↦ ok t | again t ↦ decode_loop c fuel t ]
]

-- Bytes are left over at the end of the stream.
abbrev pub check_end : Decoder → Decoder
check_end s =
    if is_none s.error && (ltb 0 s.have_bytes && s.done)
    then record s { error = some incomplete_message }
    else s

-- Whether `decode` calls its callback, and with which error.
pub data Reply : Type 0 where
  no_call : Reply
  call : Option ProtocolError → Reply

unfoldable pub decode : Codec → Decoder → Outcome (Decoder × Reply)
decode c s = elim s.pushing [
  | true ↦ ok (s, no_call)
  | false ↦ do
    assert (is_none s.error)
    t ← decode_loop c (suc s.have_bytes) s
    ok (check_end t, call (check_end t).error)
]

-- `Buffer.concat` of what is left and the chunk.
abbrev pub add_chunk : Option (List ℕ) → List ℕ → ℕ → Outcome (List ℕ)
add_chunk none chunk have = do assert (have == length chunk); ok chunk
add_chunk (some buf) chunk have = ok (buf ++ chunk)

-- `_transform`
unfoldable pub transform : Codec → List ℕ → Decoder → Outcome (Decoder × Reply)
transform c chunk s = do
  let have = s.have_bytes + length chunk
  buf ← add_chunk s.buffer chunk have
  decode c (record s { buffer = some buf; have_bytes = have; nbytes = s.nbytes + length chunk })

-- `_flush`
unfoldable pub flush : Codec → Decoder → Outcome (Decoder × Reply)
flush c s = decode c (record s { done = true })

-- What Node's stream does with the chunks that are written: the next one is passed on when the
-- callback came without an error.
abbrev pub feed_next : (Decoder → Outcome Decoder) → Decoder × Reply → Outcome Decoder
feed_next rest (s, call none) = rest s
feed_next rest (s, call (some e)) = ok s
feed_next rest (s, no_call) = ok s

unfoldable pub feed : Codec → List (List ℕ) → Decoder → Outcome Decoder
feed c [] s = ok s
feed c (chunk ∷ chunks) s = transform c chunk s >>= feed_next (feed c chunks)

-- The whole life of a decoder: the chunks are written, and the end of the stream flushes it unless
-- it has failed.
abbrev pub flush_next : Codec → Option ProtocolError → Decoder → Outcome Decoder
flush_next c (some e) s = ok s
flush_next c none s = flush c s >>= λ r. ok r.0

unfoldable pub read_all : Codec → List (List ℕ) → Outcome Decoder
read_all c chunks = do s ← feed c chunks create; flush_next c s.error s
