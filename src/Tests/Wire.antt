-- ===== src/Tests/Wire.antt =====
-- The encoder and the decoder of lib/fast_protocol.js on two messages.
use text.Mathlib.Text.{◌==◌ as str_eq}
use mathlib.Core.List.{flatten}
use node_fast.Base.{
  ℕ, ◌≡◌, refl, ◌⊎◌, inr, String, true, Option, none, some, List, [], ◌∷◌, ◌++◌, if◌then◌else◌,
  is_some, length, arith, ◌==◌, ok,
}
use node_fast.Json.{Json, obj, arr, str, nil, cons, field, end, get, elements?}
use node_fast.Protocol.{
  Codec, Message, encode, encode_all, checksum, status_data, status_end, version_2, check_data,
  ProtocolError, write_uint8, write_uint32_be,
}
use node_fast.Protocol.Decoder.{Decoder, create, feed, read_all}
use node_fast.Protocol.Decoder.Parse.{Parses}
use node_fast.Protocol.Decoder.Rounds.{bytes_of}
use node_fast.Protocol.Decoder.RoundTrip.{
  IsSendable, AllSendable, encode_all-Parses, feed-encode_all,
}
use node_fast.Protocol.Decoder.Chunks.{feed-Parses}
use node_fast.Protocol.Decoder.EndOfStream.{end_fault, read_all-Parses}
use node_fast.Protocol.Decoder.Shape.{AllShaped, feed-AllShaped}

-- The payloads `{"d":["x"]}` and `{"d":[]}`.
abbrev pub one_value : Json
one_value = obj (field "d" (arr (cons (str "x") nil)) end)

abbrev pub no_value : Json
no_value = obj (field "d" (arr nil) end)

abbrev one_bytes : List ℕ
one_bytes = 123 ∷ 34 ∷ 100 ∷ 34 ∷ 58 ∷ 91 ∷ 34 ∷ 120 ∷ 34 ∷ 93 ∷ 125 ∷ []

abbrev no_bytes : List ℕ
no_bytes = 123 ∷ 34 ∷ 100 ∷ 34 ∷ 58 ∷ 91 ∷ 93 ∷ 125 ∷ []

abbrev one_text : String
one_text = "{\"d\":[\"x\"]}"

abbrev no_text : String
no_text = "{\"d\":[]}"

-- The two texts, their bytes and made-up checksums.
abbrev table_codec : Codec
table_codec = record {
  stringify = λ v. elim (elements? (get "d" v)) [ [] ↦ no_text | _ ∷ _ ↦ one_text ];
  parse = λ t.
      if str_eq t one_text
      then some one_value
      else if str_eq t no_text
      then some no_value
      else none;
  utf8_write = λ t. if str_eq t one_text then one_bytes else no_bytes;
  utf8_read = λ bs. if length bs == 11 then one_text else no_text;
  old_crc16 = λ t. if str_eq t one_text then 4660 else 22136;
  crc16 = λ t. if str_eq t one_text then 43981 else 61185;
}

abbrev pub data_message : Message
data_message = record { msgid = 1; status = status_data; payload = one_value; version = version_2 }

abbrev pub end_message : Message
end_message = record { msgid = 1; status = status_end; payload = no_value; version = version_2 }

abbrev reply : List Message
reply = data_message ∷ end_message ∷ []

abbrev data_frame : List ℕ
data_frame = 2 ∷ 1 ∷ 1 ∷ 0 ∷ 0 ∷ 0 ∷ 1 ∷ 0 ∷ 0 ∷ 171 ∷ 205 ∷ 0 ∷ 0 ∷ 0 ∷ 11 ∷ one_bytes

abbrev end_frame : List ℕ
end_frame = 2 ∷ 1 ∷ 2 ∷ 0 ∷ 0 ∷ 0 ∷ 1 ∷ 0 ∷ 0 ∷ 239 ∷ 1 ∷ 0 ∷ 0 ∷ 0 ∷ 8 ∷ no_bytes

data_message-IsSendable : IsSendable table_codec data_message
unfolding check_data
data_message-IsSendable = record {
  msgid_ok = omega arith;
  status_ok = refl;
  version_ok = inr refl;
  data_ok = refl;
  transmits = record {
    utf8 = refl;
    json = refl;
    old_crc = omega arith;
    crc = omega arith;
    size = omega arith;
  };
}

end_message-IsSendable : IsSendable table_codec end_message
unfolding check_data
end_message-IsSendable = record {
  msgid_ok = omega arith;
  status_ok = refl;
  version_ok = inr refl;
  data_ok = refl;
  transmits = record {
    utf8 = refl;
    json = refl;
    old_crc = omega arith;
    crc = omega arith;
    size = omega arith;
  };
}

reply-AllSendable : AllSendable table_codec reply
reply-AllSendable = (data_message-IsSendable, (end_message-IsSendable, tt))

reply_sent : encode_all table_codec reply ≡ ok (data_frame ∷ end_frame ∷ [])
unfolding encode_all encode checksum write_uint8 write_uint32_be
reply_sent = refl

-- The bytes, cut within the header of the first message and behind its end.
abbrev cut : List (List ℕ)
cut =
    (2 ∷ 1 ∷ [])
    ∷ (1 ∷ 0 ∷ 0 ∷ 0 ∷ 1 ∷ 0 ∷ 0 ∷ 171 ∷ 205 ∷ 0 ∷ 0 ∷ 0 ∷ 11 ∷ one_bytes ++ 2 ∷ [])
    ∷ (1 ∷ 2 ∷ 0 ∷ 0 ∷ 0 ∷ 1 ∷ 0 ∷ 0 ∷ 239 ∷ 1 ∷ 0 ∷ 0 ∷ 0 ∷ 8 ∷ no_bytes)
    ∷ []

cut-flatten : flatten cut ≡ flatten (data_frame ∷ end_frame ∷ [])
unfolding flatten
cut-flatten = refl

feed-encode_all_example :
    (t : Decoder) × (feed table_codec cut create ≡ ok t)
    × (t.pushed ≡ reply)
    × (t.error ≡ none)
    × (bytes_of t.buffer ≡ [])
feed-encode_all_example =
    feed-encode_all table_codec reply (data_frame ∷ end_frame ∷ []) cut reply-AllSendable reply_sent
      cut-flatten

encode_all-Parses_example :
    (chunks : List (List ℕ)) × (encode_all table_codec reply ≡ ok chunks)
    × Parses table_codec (flatten chunks) reply none []
encode_all-Parses_example = encode_all-Parses table_codec reply reply-AllSendable

feed-Parses_example :
    (t : Decoder) × (feed table_codec cut create ≡ ok t)
    × ((left : List ℕ) × Parses table_codec (flatten cut) t.pushed t.error left
        × ((is_some t.error ≡ true) ⊎ (bytes_of t.buffer ≡ left)))
feed-Parses_example = feed-Parses table_codec cut

read_all-Parses_example :
    (t : Decoder) × (read_all table_codec cut ≡ ok t)
    × ((err : Option ProtocolError) × (left : List ℕ) × Parses table_codec
          (flatten cut)
          t.pushed
          err
          left
        × (t.error ≡ end_fault err left))
read_all-Parses_example = read_all-Parses table_codec cut

feed-AllShaped_example : (t : Decoder) × (feed table_codec cut create ≡ ok t) × AllShaped t.pushed
feed-AllShaped_example = feed-AllShaped table_codec cut
