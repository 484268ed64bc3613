-- ===== src/Protocol/Decoder/RoundTrip.antt =====
-- `fastMessageEncode` against the decoder, both of lib/fast_protocol.js.
use node_fast.Base.{
  ℕ, ◌+◌, ◌^◌, ◌≤◌, ◌<◌, ◌≡◌, refl, ap, sym, ◌∙◌, subst, true, false, ◌⊎◌, inl, inr, none, List, [],
  ◌∷◌, ◌++◌, ltb, length, arith, length-append, drop, take-length_append, drop-length_append, ok,
  ok_injective,
}
use mathlib.Core.List.{flatten}
use node_fast.Json.{Json, is_object}
use node_fast.Protocol.Wire.{
  msgid_max, header_sz, off_data, is_status, type_json, version_1, version_2, write_uint8,
  write_uint32_be, uint32_bytes, uint32_round_trip, read_uint8, read_uint32_be,
}
use node_fast.Protocol.External.{Codec, Transmits}
use node_fast.Protocol.Encode.{Message, checksum, encode, encode_all}
use node_fast.Protocol.Decode.{Header, decoded, check_data, decode_text}
use node_fast.Protocol.Decoder.{Decoder, create, feed, header_of}
use node_fast.Protocol.Decoder.Rounds.{bytes_of}
use node_fast.Protocol.Decoder.Chunks.{feed-Parses}
use node_fast.Protocol.Decoder.Parse.{
  message, front, front_checked, header_fault, Parses, ends, more,
}
use node_fast.Protocol.Decoder.Prefixes.{front_short, Parses-unique}

-- A message that the protocol can carry.
pub record IsSendable (c : Codec) (m : Message) : Type 0 where
  pub msgid_ok : m.msgid ≤ msgid_max
  pub status_ok : is_status m.status ≡ true
  pub version_ok : (m.version ≡ version_1) ⊎ (m.version ≡ version_2)
  pub data_ok : check_data m.status m.payload ≡ none
  pub transmits : Transmits c m.payload

-- The bytes of a message.
abbrev frame_of : ℕ → ℕ → ℕ → ℕ → List ℕ → List ℕ
frame_of version status msgid crc text =
    version
    ∷ (type_json
        ∷ (status
            ∷ (uint32_bytes msgid ++ (uint32_bytes crc ++ (uint32_bytes (length text) ++ text)))))

frame : Codec → Message → List ℕ
frame c m =
    frame_of m.version m.status m.msgid (checksum c m.version (c.stringify m.payload))
      (c.utf8_write (c.stringify m.payload))

checksum-lt :
    (c : Codec) (m : Message)
    → IsSendable c m
    → checksum c m.version (c.stringify m.payload) < 2 ^ 16
unfolding checksum
checksum-lt c m v = ground arith

pub check_data-object : (status : ℕ) (v : Json) → check_data status v ≡ none → is_object v ≡ true
unfolding check_data
check_data-object status v e = ground arith

encode-frame : (c : Codec) (m : Message) → IsSendable c m → encode c m ≡ ok (frame c m)
unfolding encode frame write_uint8 write_uint32_be
encode-frame c m v =
    ground (arith, checksum-lt c m v, check_data-object m.status m.payload v.data_ok)

header_of-frame :
    (version status msgid crc : ℕ) (text rest : List ℕ)
    → header_of (frame_of version status msgid crc text ++ rest) ≡ record {
      version = version;
      type = type_json;
      status = status;
      msgid = msgid;
      crc = crc;
      datalen = length text;
    }
unfolding header_of read_uint8 read_uint32_be
header_of-frame version status msgid crc text rest =
    cc (uint32_round_trip msgid, uint32_round_trip crc, uint32_round_trip (length text))

abbrev frame_header : Codec → Message → Header
frame_header c m = record {
  version = m.version;
  type = type_json;
  status = m.status;
  msgid = m.msgid;
  crc = checksum c m.version (c.stringify m.payload);
  datalen = length (c.utf8_write (c.stringify m.payload));
}

header_fault-frame :
    (c : Codec) (m : Message) → IsSendable c m → header_fault (frame_header c m) ≡ none
unfolding header_fault
header_fault-frame c m v = ground arith

decode_text-frame :
    (c : Codec) (m : Message)
    → IsSendable c m
    → decode_text c (frame_header c m) (c.stringify m.payload) ≡ decoded m
unfolding decode_text
decode_text-frame c m v = ground (arith, v.transmits.json, v.data_ok)

length-frame :
    (c : Codec) (m : Message)
    → length (frame c m) ≡ header_sz + length (c.utf8_write (c.stringify m.payload))
unfolding frame
length-frame c m = omega arith

drop-frame :
    (c : Codec) (m : Message) → drop off_data (frame c m) ≡ c.utf8_write (c.stringify m.payload)
unfolding frame
drop-frame c m = refl

front_body-frame :
    (c : Codec) (m : Message) (rest : List ℕ)
    → IsSendable c m
    → front_checked c (frame_header c m) none (frame c m ++ rest) ≡ message m rest
front_body-frame c m rest v =
    let size : header_sz + (frame_header c m).datalen ≡ length (frame c m) =
      sym (length-frame c m) in
    let enough : ltb (length (frame c m ++ rest)) (length (frame c m)) ≡ false =
      ground (arith, length-append (frame c m) rest) in
    rw (
      size,
      enough,
      take-length_append,
      drop-length_append,
      drop-frame c m,
      v.transmits.utf8,
      decode_text-frame c m v,
    )

-- The front of a message's bytes is the message.
front-frame :
    (c : Codec) (m : Message) (rest : List ℕ)
    → IsSendable c m
    → front c (frame c m ++ rest) ≡ message m rest
unfolding front
front-frame c m rest v =
    let enough : ltb (length (frame c m ++ rest)) header_sz ≡ false =
      ground (arith, length-append (frame c m) rest, length-frame c m) in
    rw (enough, header_of-frame-eq c m rest, header_fault-frame c m v) (front_body-frame c m rest v)
  where
    header_of-frame-eq :
        (c : Codec) (m : Message) (rest : List ℕ) → header_of (frame c m ++ rest) ≡ frame_header c m
    header_of-frame-eq c m rest =
        unfold frame in header_of-frame m.version m.status m.msgid _ _ rest

abbrev pub AllSendable : Codec → List Message → Type 0
AllSendable c [] = Unit {0}
AllSendable c (m ∷ ms) = IsSendable c m × AllSendable c ms

-- Messages that the protocol can carry are encoded without an exception, and their bytes, one
-- message after the other, hold exactly these messages and nothing else.
pub encode_all-Parses :
    (c : Codec) (ms : List Message)
    → AllSendable c ms
    → (chunks : List (List ℕ)) × (encode_all c ms ≡ ok chunks)
      × Parses c (flatten chunks) ms none []
unfolding encode_all flatten
encode_all-Parses c [] v = ([], refl, ends (front_short c [] (omega arith)))
encode_all-Parses c (m ∷ ms) (v, vs) =
    let (chunks, e, p) = encode_all-Parses c ms vs in
    (frame c m ∷ chunks, rw (encode-frame c m v, e), more m (front-frame c m (flatten chunks) v) p)

-- The bytes of encoded messages that the protocol can carry, cut into chunks in any way, make a
-- new decoder push these messages in this order and nothing else; it reports no error and holds
-- no bytes back.
pub feed-encode_all :
    (c : Codec) (ms : List Message) (sent chunks : List (List ℕ))
    → AllSendable c ms
    → encode_all c ms ≡ ok sent
    → flatten chunks ≡ flatten sent
    → (t : Decoder) × (feed c chunks create ≡ ok t)
      × (t.pushed ≡ ms)
      × (t.error ≡ none)
      × (bytes_of t.buffer ≡ [])
feed-encode_all c ms sent chunks v e same =
    let (out, e', p) = encode_all-Parses c ms v in
    let out_eq : flatten out ≡ flatten chunks = ap flatten (ok_injective (sym e' ∙ e)) ∙ sym same in
    let (t, f, reads) = feed-Parses c chunks in
    let (left, q, over) = reads in
    let (pushed, clean, nothing) = Parses-unique q (subst (λ b. Parses c b ms none []) out_eq p) in
    (
      t,
      f,
      pushed,
      clean,
      elim over [ inl bad ↦ absurd (cc (bad, clean)) | inr held ↦ held ∙ nothing ],
    )
