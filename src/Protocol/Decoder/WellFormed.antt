-- ===== src/Protocol/Decoder/WellFormed.antt =====
-- What `FastMessageDecoder` of lib/fast_protocol.js promises of the messages that it emits: the
-- client and the server read their fields without testing them again.
use node_fast.Base.{
  ℕ, ◌+◌, ◌≤◌, String, ◌≡◌, refl, ◌⊎◌, true, Bool-cases, inl, inr, Option, none, some, List, [],
  ◌∷◌, ◌++◌, drop, zero, suc, arith, ltb, length,
}
use node_fast.Protocol.Wire.{msgid_max, header_sz, is_status, version_1, version_2}
use node_fast.Protocol.External.{Codec}
use node_fast.Protocol.Encode.{Message}
use node_fast.Protocol.Decode.{
  ProtocolError, Header, Decoded, decoded, refused, check_data, decode_text,
}
use node_fast.Protocol.Decoder.{header_of}
use node_fast.Protocol.Decoder.Parse.{
  message, front, front_data, front_checked, header_fault, Parses, ends, fails, more,
}

abbrev pub IsKnown : ℕ → Type 0
IsKnown version = (version ≡ version_1) ⊎ (version ≡ version_2)

pub record IsWellFormed (m : Message) : Type 0 where
  pub msgid_ok : m.msgid ≤ msgid_max
  pub status_ok : is_status m.status ≡ true
  pub version_ok : IsKnown m.version
  pub data_ok : check_data m.status m.payload ≡ none

decode_text-fields :
    (c : Codec) (h : Header) (text : String) (m : Message)
    → decode_text c h text ≡ decoded m
    → (m.msgid ≡ h.msgid)
      × (m.status ≡ h.status)
      × (m.version ≡ h.version)
      × (check_data m.status m.payload ≡ none)
unfolding decode_text
decode_text-fields c h text m e = ground arith

header_fault-none :
    (h : Header)
    → header_fault h ≡ none
    → (h.msgid ≤ msgid_max)
      × (is_status h.status ≡ true)
      × ((h.version ≡ version_1) ⊎ (h.version ≡ version_2))
unfolding header_fault
header_fault-none h e = ground arith

front-IsWellFormed :
    (c : Codec) (bytes rest : List ℕ) (m : Message)
    → front c bytes ≡ message m rest
    → IsWellFormed m
unfolding front
front-IsWellFormed c bytes rest m e = elim (Bool-cases (ltb (length bytes) header_sz)) [
  | inl short ↦ cc (rw short at e)
  | inr enough ↦ checked (header_fault h) refl (rw enough at e)
]
  where
    h : Header
    h = header_of bytes

    body : (d : Decoded) (left : List ℕ) → front_data d left ≡ message m rest → d ≡ decoded m
    body (refused x) left f = cc
    body (decoded n) left f = cc

    fields :
        (text : String) → decode_text c h text ≡ decoded m → header_fault h ≡ none → IsWellFormed m
    fields text f g =
        let (msgid, status, version, checked_data) = decode_text-fields c h text m f in
        let (msgid_ok, status_ok, version_ok) = header_fault-none h g in
        record {
          msgid_ok = rw msgid msgid_ok;
          status_ok = rw status status_ok;
          version_ok = rw version version_ok;
          data_ok = checked_data;
        }

    checked :
        (o : Option ProtocolError)
        → header_fault h ≡ o
        → front_checked c h o bytes ≡ message m rest
        → IsWellFormed m
    checked (some x) g f = cc
    checked none g f = elim (Bool-cases (ltb (length bytes) (header_sz + h.datalen))) [
      | inl short ↦ cc (rw short at f)
      | inr enough ↦ fields _ (body _ _ (rw enough at f)) g
    ]

abbrev pub AllWellFormed : List Message → Type 0
AllWellFormed [] = Unit {0}
AllWellFormed (m ∷ ms) = IsWellFormed m × AllWellFormed ms

pub AllWellFormed-append :
    (xs ys : List Message) → AllWellFormed xs → AllWellFormed ys → AllWellFormed (xs ++ ys)
AllWellFormed-append [] ys h k = k
AllWellFormed-append (x ∷ xs) ys (first, rest) k = (first, AllWellFormed-append xs ys rest k)

pub AllWellFormed-drop : (n : ℕ) (xs : List Message) → AllWellFormed xs → AllWellFormed (drop n xs)
AllWellFormed-drop zero xs h = h
AllWellFormed-drop (suc n) [] h = tt
AllWellFormed-drop (suc n) (x ∷ xs) (first, rest) = AllWellFormed-drop n xs rest

pub Parses-AllWellFormed :
    {c : Codec} {bytes left : List ℕ} {ms : List Message} {err : Option ProtocolError}
    → Parses c bytes ms err left
    → AllWellFormed ms
Parses-AllWellFormed (ends e) = tt
Parses-AllWellFormed (fails x f) = tt
Parses-AllWellFormed {c} {bytes} (more {rest = rest} m e p) =
    (front-IsWellFormed c bytes rest m e, Parses-AllWellFormed p)
