-- ===== src/Protocol/Decoder/Prefixes.antt =====
-- What the parse of a byte stream of lib/fast_protocol.js says of its beginning: it is the only
-- one, and more bytes extend it.
use node_fast.Base.{
  ℕ, ◌+◌, ◌≤◌, ◌<◌, ◌≡◌, refl, ap, sym, ◌∙◌, subst, true, false, Bool-cases, inl, inr, Option, none,
  some, List, ◌++◌, ltb, length, drop, arith, length-append, length-drop, get_or-append,
  take-append, drop-append, ◌≢◌,
}
use node_fast.Protocol.Wire.{header_sz, read_uint8, read_uint32_be}
use node_fast.Protocol.External.{Codec}
use node_fast.Protocol.Encode.{Message}
use node_fast.Protocol.Decode.{ProtocolError, Header, Decoded, decoded, refused}
use node_fast.Protocol.Decoder.{header_of}
use node_fast.Protocol.Decoder.Parse.{
  header_fault, Front, front_data, front_body, front_checked, front, Parses, incomplete, fault,
  message, ends, fails, more,
}

read_uint8-append :
    (bytes extra : List ℕ) (off : ℕ)
    → off < length bytes
    → read_uint8 (bytes ++ extra) off ≡ read_uint8 bytes off
unfolding read_uint8
read_uint8-append bytes extra off h = get_or-append bytes extra off 0 h

read_uint32_be-append :
    (bytes extra : List ℕ) (off : ℕ)
    → off + 3 < length bytes
    → read_uint32_be (bytes ++ extra) off ≡ read_uint32_be bytes off
unfolding read_uint32_be
read_uint32_be-append bytes extra off h = cc (
  get_or-append bytes extra off 0 (omega arith),
  get_or-append bytes extra (off + 1) 0 (omega arith),
  get_or-append bytes extra (off + 2) 0 (omega arith),
  get_or-append bytes extra (off + 3) 0 (omega arith),
)

header_of-append :
    (bytes extra : List ℕ) → header_sz ≤ length bytes → header_of (bytes ++ extra) ≡ header_of bytes
unfolding header_of
header_of-append bytes extra h = cc (
  read_uint8-append bytes extra 0 (omega arith),
  read_uint8-append bytes extra 1 (omega arith),
  read_uint8-append bytes extra 2 (omega arith),
  read_uint32_be-append bytes extra 3 (omega arith),
  read_uint32_be-append bytes extra 7 (omega arith),
  read_uint32_be-append bytes extra 11 (omega arith),
)

pub front_short :
    (c : Codec) (bytes : List ℕ) → length bytes < header_sz → front c bytes ≡ incomplete
unfolding front
front_short c bytes h = let short : ltb (length bytes) header_sz ≡ true = ground arith in rw short

body_shorter :
    (c : Codec) (h : Header) (d : Decoded) (size : ℕ) (bytes rest : List ℕ) (m : Message)
    → 0 < size
    → size ≤ length bytes
    → front_data d (drop size bytes) ≡ message m rest
    → length rest < length bytes
body_shorter c h (refused x) size bytes rest m pos le e = cc
body_shorter c h (decoded n) size bytes rest m pos le e =
    let same : drop size bytes ≡ rest = cc in omega (arith, length-drop size bytes, ap length same)

-- A message takes its bytes off the front.
pub front_shorter :
    (c : Codec) (bytes rest : List ℕ) (m : Message)
    → front c bytes ≡ message m rest
    → length rest < length bytes
unfolding front
front_shorter c bytes rest m e = elim (Bool-cases (ltb (length bytes) header_sz)) [
  | inl short ↦ cc (rw short at e)
  | inr enough ↦ checked_shorter (header_fault (header_of bytes)) (rw enough at e)
]
  where
    h : Header
    h = header_of bytes

    checked_shorter :
        (o : Option ProtocolError)
        → front_checked c h o bytes ≡ message m rest
        → length rest < length bytes
    checked_shorter (some x) f = cc
    checked_shorter none f = elim (Bool-cases (ltb (length bytes) (header_sz + h.datalen))) [
      | inl short ↦ cc (rw short at f)
      | inr enough ↦
          body_shorter c h _ (header_sz + h.datalen) bytes rest m (omega arith) (ground arith)
            (rw enough at f)
    ]

-- What more bytes do to a front that is decided.
abbrev extend_front : Front → List ℕ → Front
extend_front incomplete extra = incomplete
extend_front (fault e) extra = fault e
extend_front (message m rest) extra = message m (rest ++ extra)

front_data-extend :
    (d : Decoded) (rest extra : List ℕ)
    → front_data d (rest ++ extra) ≡ extend_front (front_data d rest) extra
front_data-extend (refused e) rest extra = refl
front_data-extend (decoded m) rest extra = refl

not_shorter :
    (n : ℕ) (bytes extra : List ℕ)
    → ltb (length bytes) n ≡ false
    → (n ≤ length bytes) × (ltb (length (bytes ++ extra)) n ≡ false)
not_shorter n bytes extra h = ground (arith, length-append bytes extra)

body-append :
    (c : Codec) (h : Header) (bytes extra : List ℕ)
    → front_body c h bytes ≢ incomplete
    → front_body c h (bytes ++ extra) ≡ extend_front (front_body c h bytes) extra
body-append c h bytes extra is_decided =
    elim (Bool-cases (ltb (length bytes) (header_sz + h.datalen))) [
      | inl short ↦ absurd (is_decided (rw short))
      | inr enough ↦
          let size = header_sz + h.datalen in
          let (le, enough') = not_shorter size bytes extra enough in
          rw (enough, enough', take-append size bytes extra le, drop-append size bytes extra le)
            (front_data-extend _ _ extra)
    ]

checked-append :
    (c : Codec) (h : Header) (o : Option ProtocolError) (bytes extra : List ℕ)
    → front_checked c h o bytes ≢ incomplete
    → front_checked c h o (bytes ++ extra) ≡ extend_front (front_checked c h o bytes) extra
checked-append c h (some e) bytes extra is_decided = refl
checked-append c h none bytes extra is_decided = body-append c h bytes extra is_decided

-- Bytes that arrive later do not change what the front is, once that is decided.
pub front-append :
    (c : Codec) (bytes extra : List ℕ)
    → front c bytes ≢ incomplete
    → front c (bytes ++ extra) ≡ extend_front (front c bytes) extra
unfolding front
front-append c bytes extra is_decided = elim (Bool-cases (ltb (length bytes) header_sz)) [
  | inl short ↦ absurd (is_decided (rw short))
  | inr enough ↦
      let (le, enough') = not_shorter header_sz bytes extra enough in
      rw (enough, enough', header_of-append bytes extra le)
        (checked-append c _ _ bytes extra (rw enough at is_decided))
]

-- What was parsed stays parsed when more bytes arrive, and the parse goes on where it stopped.
pub Parses-append :
    {c : Codec} {bytes left left' : List ℕ} {ms ns : List Message} {err : Option ProtocolError}
    (extra : List ℕ)
    → Parses c bytes ms none left
    → Parses c (left ++ extra) ns err left'
    → Parses c (bytes ++ extra) (ms ++ ns) err left'
Parses-append extra (ends e) q = q
Parses-append extra (more m e p) q =
    more m (front-append _ _ extra (cc e) ∙ ap (λ f. extend_front f extra) e)
      (Parses-append extra p q)

-- A fault is final.
pub Parses-fault_append :
    {c : Codec} {bytes left : List ℕ} {ms : List Message} {e : ProtocolError} (extra : List ℕ)
    → Parses c bytes ms (some e) left
    → Parses c (bytes ++ extra) ms (some e) (left ++ extra)
Parses-fault_append extra (fails e f) =
    fails e (front-append _ _ extra (cc f) ∙ ap (λ f. extend_front f extra) f)
Parses-fault_append extra (more m e p) =
    more m (front-append _ _ extra (cc e) ∙ ap (λ f. extend_front f extra) e)
      (Parses-fault_append extra p)

-- The bytes determine the messages, the fault and what is left.
pub Parses-unique :
    {c : Codec} {bytes left left' : List ℕ} {ms ns : List Message} {err err' : Option ProtocolError}
    → Parses c bytes ms err left
    → Parses c bytes ns err' left'
    → (ms ≡ ns) × (err ≡ err') × (left ≡ left')
Parses-unique (ends e) (ends f) = (refl, refl, refl)
Parses-unique (ends e) (fails x f) = cc (e, f)
Parses-unique (ends e) (more m f q) = cc (e, f)
Parses-unique (fails x e) (ends f) = cc (e, f)
Parses-unique (fails x e) (fails y f) =
    let same : fault x ≡ fault y = cc in (refl, ground (arith, same), refl)
Parses-unique (fails x e) (more m f q) = cc (e, f)
Parses-unique (more m e p) (ends f) = cc (e, f)
Parses-unique (more m e p) (fails x f) = cc (e, f)
Parses-unique {c} {left' = l} {ns} {err' = z} (more {rest = r} {ms = ms} m e p)
      (more {rest = r'} {ms = ns'} m' f q) =
    let same : message m r ≡ message m' r' = sym e ∙ f in
    let rests : r' ≡ r = cc same in
    let rest = Parses-unique p (subst (λ b. Parses c b ns' z l) rests q) in
    (cc (same, rest.0), rest.1, rest.2)

-- Where no fault was met, what is left is no complete message.
pub Parses-left :
    {c : Codec} {bytes left : List ℕ} {ms : List Message} {err : Option ProtocolError}
    → Parses c bytes ms err left
    → err ≡ none
    → front c left ≡ incomplete
Parses-left (ends e) h = e
Parses-left (fails x f) h = cc
Parses-left (more m f p) h = Parses-left p h
