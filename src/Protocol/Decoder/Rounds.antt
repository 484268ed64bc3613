-- ===== src/Protocol/Decoder/Rounds.antt =====
-- One round of the loop in `decode` of lib/fast_protocol.js.
use node_fast.Base.{
  ℕ, ◌+◌, ◌≤◌, ◌≡◌, refl, ap, ◌∙◌, true, false, not, ◌&&◌, Bool-cases, inl, inr, Option, none, some,
  List, [], ◌∷◌, ◌++◌, ◌==◌, ltb, length, take, drop, arith, length-take, length-drop, Outcome, ok,
}
use node_fast.Protocol.Wire.{header_sz, version_current, version_1, type_json, is_status, msgid_max}
use node_fast.Protocol.External.{Codec}
use node_fast.Protocol.Decode.{Header, Decoded, decoded, refused, decode_text, message_decode}
use node_fast.Protocol.Decoder.{
  Decoder, Flow, stop, again, clear_header, push_decoded, read_data, read_version, header_of,
  decode_once,
}
use node_fast.Protocol.Decoder.Parse.{
  Front, incomplete, fault, message, front, front_body, front_data, front_checked, header_fault,
}

-- The bytes that wait in the buffer.
abbrev pub bytes_of : Option (List ℕ) → List ℕ
bytes_of none = []
bytes_of (some buf) = buf

-- Between two calls, while there has been no error.
pub record IsReady (s : Decoder) : Type 0 where
  pub no_error : s.error ≡ none
  pub not_pushing : s.pushing ≡ false
  pub counted : s.have_bytes ≡ length (bytes_of s.buffer)
  pub no_version : s.version ≡ none
  pub no_type : s.type ≡ none
  pub no_status : s.status ≡ none
  pub no_msgid : s.msgid ≡ none
  pub no_crc : s.crc ≡ none
  pub no_datalen : s.datalen ≡ none

-- One round of the loop does what the front of the buffer asks for.
abbrev pub Round : Decoder → Front → Outcome Flow → Type 0
Round s incomplete r = r ≡ ok (stop s)
Round s (fault e) r =
    (t : Decoder) × (r ≡ ok (stop t))
    × (t.error ≡ some e)
    × (t.pushed ≡ s.pushed)
    × (t.done ≡ s.done)
Round s (message m rest) r =
    (t : Decoder) × (r ≡ ok (again t))
    × IsReady t
    × (t.buffer ≡ some rest)
    × (t.pushed ≡ s.pushed ++ m ∷ [])
    × (t.done ≡ s.done)

message_decode-take :
    (c : Codec) (h : Header) (buf : List ℕ)
    → header_sz + h.datalen ≤ length buf
    → message_decode c h (take (header_sz + h.datalen) buf)
      ≡ ok (decode_text c h (c.utf8_read (drop header_sz (take (header_sz + h.datalen) buf))))
unfolding message_decode
message_decode-take c h buf le = ground (arith, length-take (header_sz + h.datalen) buf le)

push_decoded-Round :
    (s : Decoder) (rest : List ℕ) (n : ℕ) (d : Decoded)
    → IsReady s
    → n ≡ length rest
    → (w x y z a b : Option ℕ)
    → Round s (front_data d rest) (
        ok (
          push_decoded
            (record s {
              buffer = some rest;
              have_bytes = n;
              version = w;
              type = x;
              status = y;
              msgid = z;
              crc = a;
              datalen = b;
            })
            d))
push_decoded-Round s rest n (refused e) v eb w x y z a b = (_, refl, refl, refl, refl)
push_decoded-Round s rest n (decoded m) v eb w x y z a b = (
  _,
  refl,
  record {
    no_error = v.no_error;
    not_pushing = v.not_pushing;
    counted = eb;
    no_version = refl;
    no_type = refl;
    no_status = refl;
    no_msgid = refl;
    no_crc = refl;
    no_datalen = refl;
  },
  refl,
  refl,
  refl,
)

clear_header-eq : (s : Decoder) → IsReady s → clear_header s ≡ s
clear_header-eq s v = ground arith

pub have_bytes-eq :
    (s : Decoder) (buf : List ℕ) → IsReady s → s.buffer ≡ some buf → s.have_bytes ≡ length buf
have_bytes-eq s buf v eb = v.counted ∙ ap (λ b. length (bytes_of b)) eb

-- The last test of the body: is the whole message there?
read_data-Round :
    (c : Codec) (h : Header) (s : Decoder) (buf : List ℕ)
    → IsReady s
    → s.have_bytes ≡ length buf
    → (w x y z : Option ℕ)
    → Round s
        (front_body c h buf)
        (read_data c h buf (record s { version = w; type = x; status = y; msgid = z }))
unfolding read_data
read_data-Round c h s buf v n w x y z =
    elim (Bool-cases (ltb (length buf) (header_sz + h.datalen))) [
      | inl short ↦
          let short' : ltb s.have_bytes (header_sz + h.datalen) ≡ true = ground arith in
          rw (short, short') (ap (λ t. ok (stop t)) (clear_header-eq s v))
      | inr enough ↦
          let enough' : ltb s.have_bytes (header_sz + h.datalen) ≡ false = ground arith in
          let le : header_sz + h.datalen ≤ length buf = ground arith in
          rw (enough, enough', message_decode-take c h buf le)
            (push_decoded-Round s (drop (header_sz + h.datalen) buf) _ _ v
              (omega (arith, length-drop (header_sz + h.datalen) buf)) w x y z _ _)
    ]

read_version-Round :
    (c : Codec) (h : Header) (s : Decoder) (buf : List ℕ)
    → IsReady s
    → s.have_bytes ≡ length buf
    → Round s (front_checked c h (header_fault h) buf) (read_version c h buf s)
unfolding read_version header_fault
read_version-Round c h s buf v n =
    elim (Bool-cases (not (h.version == version_current) && not (h.version == version_1))) [
      | inl bad ↦ rw bad (_, refl, refl, refl, refl)
      | inr version_ok ↦ rw version_ok (elim (Bool-cases (not (h.type == type_json))) [
        | inl bad ↦ rw bad (_, refl, refl, refl, refl)
        | inr type_ok ↦ rw type_ok (elim (Bool-cases (is_status h.status)) [
          | inr bad ↦ rw bad (_, refl, refl, refl, refl)
          | inl status_ok ↦ rw status_ok (elim (Bool-cases (ltb msgid_max h.msgid)) [
            | inl bad ↦ rw bad (_, refl, refl, refl, refl)
            | inr msgid_ok ↦ rw msgid_ok (read_data-Round c h s buf v n _ _ _ _)
          ])
        ])
      ])
    ]

decode_once-eq :
    (c : Codec) (s : Decoder) (buf : List ℕ)
    → IsReady s
    → s.buffer ≡ some buf
    → decode_once c s ≡ read_version c (header_of buf) buf s
unfolding decode_once
decode_once-eq c s buf v eb = let n = have_bytes-eq s buf v eb in ground arith

pub decode_once-Round :
    (c : Codec) (s : Decoder) (buf : List ℕ)
    → IsReady s
    → s.buffer ≡ some buf
    → header_sz ≤ length buf
    → Round s (front c buf) (decode_once c s)
unfolding front
decode_once-Round c s buf v eb le =
    let n = have_bytes-eq s buf v eb in
    let enough : ltb (length buf) header_sz ≡ false = ground arith in
    rw (decode_once-eq c s buf v eb, enough) (read_version-Round c (header_of buf) s buf v n)
