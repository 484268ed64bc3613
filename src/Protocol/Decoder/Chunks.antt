-- ===== src/Protocol/Decoder/Chunks.antt =====
-- `_transform`, `_flush` and the stream around them in lib/fast_protocol.js: the chunks that
-- bytes arrive in do not matter.
use node_fast.Base.{
  ℕ, suc, ◌+◌, ◌≡◌, refl, ap, sym, ◌∙◌, subst, true, false, ◌⊎◌, inl, inr, Option, none, some,
  Option-cases, List, [], ◌∷◌, ◌++◌, length, arith, length-append, append_assoc, append-nil,
  is_some, Outcome, ok,
}
use mathlib.Core.List.{flatten}
use node_fast.Protocol.External.{Codec}
use node_fast.Protocol.Encode.{Message}
use node_fast.Protocol.Decode.{ProtocolError}
use node_fast.Protocol.Decoder.{
  Decoder, call, create, decode, add_chunk, transform, feed, feed_next, check_end,
}
use node_fast.Protocol.Decoder.Parse.{incomplete, front, Parses, ends}
use node_fast.Protocol.Decoder.Prefixes.{
  front_short, Parses-append, Parses-fault_append, Parses-left,
}
use node_fast.Protocol.Decoder.Refinement.{Reads, decode_loop-Reads}
use node_fast.Protocol.Decoder.Rounds.{bytes_of, IsReady}

pub have_bytes-buffer :
    (s : Decoder) (buf : List ℕ) → IsReady s → s.buffer ≡ some buf → s.have_bytes ≡ length buf
have_bytes-buffer s buf v eb = v.counted ∙ ap (λ b. length (bytes_of b)) eb

check_end_going : (t : Decoder) → t.done ≡ false → check_end t ≡ t
check_end_going t going = ground arith

-- One call of `decode` on a buffer, while the stream goes on.
decode-Reads :
    (c : Codec) (s : Decoder) (buf : List ℕ)
    → IsReady s
    → s.buffer ≡ some buf
    → s.done ≡ false
    → (t : Decoder) × (decode c s ≡ ok (t, call t.error)) × Reads c s buf t
unfolding decode
decode-Reads c s buf v eb going =
    let n = have_bytes-buffer s buf v eb in
    let (t, e, reads) = decode_loop-Reads c (suc s.have_bytes) s buf v eb (omega arith) in
    let same = check_end_going t (reads.6 ∙ going) in (t, ground (arith, same), reads)

add_chunk-eq :
    (b : Option (List ℕ)) (chunk : List ℕ) (have : ℕ)
    → have ≡ length (bytes_of b)
    → add_chunk b chunk (have + length chunk) ≡ ok (bytes_of b ++ chunk)
add_chunk-eq none chunk have e = ground arith
add_chunk-eq (some b) chunk have e = refl

transform-Reads :
    (c : Codec) (chunk : List ℕ) (s : Decoder)
    → IsReady s
    → s.done ≡ false
    → (t : Decoder) × (transform c chunk s ≡ ok (t, call t.error))
      × Reads c s (bytes_of s.buffer ++ chunk) t
unfolding transform
transform-Reads c chunk s v going =
    let held = bytes_of s.buffer ++ chunk in
    let have = s.have_bytes + length chunk in
    let s' = record s { buffer = some held; have_bytes = have; nbytes = s.nbytes + length chunk } in
    let n : have ≡ length held =
      omega (arith, v.counted, length-append (bytes_of s.buffer) chunk) in
    rw (add_chunk-eq s.buffer chunk s.have_bytes v.counted) (
      decode-Reads c s' held
        (record {
          no_error = v.no_error;
          not_pushing = v.not_pushing;
          counted = n;
          no_version = v.no_version;
          no_type = v.no_type;
          no_status = v.no_status;
          no_msgid = v.no_msgid;
          no_crc = v.no_crc;
          no_datalen = v.no_datalen;
        })
        refl going)

-- Between two calls the buffer holds no complete message.
abbrev pub IsWaiting : Codec → Decoder → Type 0
IsWaiting c s = IsReady s × (s.done ≡ false) × (front c (bytes_of s.buffer) ≡ incomplete)

-- What the stream has read from `bytes` when it is done with them or has failed.
abbrev pub HasRead : Codec → Decoder → List ℕ → Decoder → Type 0
HasRead c s bytes t =
    (ms : List Message) × (left : List ℕ) × Parses c bytes ms t.error left
    × (t.pushed ≡ s.pushed ++ ms)
    × (t.error ≡ none → IsReady t × (t.done ≡ false) × (bytes_of t.buffer ≡ left))

after_chunk :
    (c : Codec) (rest : List ℕ) (next : Decoder → Outcome Decoder) (s t : Decoder) (buf : List ℕ)
    (err : Option ProtocolError)
    → t.error ≡ err
    → s.done ≡ false
    → Reads c s buf t
    → (IsWaiting c t → (u : Decoder) × (next t ≡ ok u) × HasRead c t (bytes_of t.buffer ++ rest) u)
    → (u : Decoder) × (feed_next next (t, call err) ≡ ok u) × HasRead c s (buf ++ rest) u
after_chunk c rest next s t buf none e going (ms, err', left, p, pt, et, dt, ready) ih =
    let clean : err' ≡ none = sym et ∙ e in
    let (vt, bt) = ready clean in
    let held : bytes_of t.buffer ≡ left = ap bytes_of bt in
    let waits : front c (bytes_of t.buffer) ≡ incomplete = rw held (Parses-left p clean) in
    let (u, eu, has) = ih (vt, dt ∙ going, waits) in
    let (ns, left', q, pu, fin) = has in
    (
      u,
      eu,
      (
        ms ++ ns,
        left',
        Parses-append rest (subst (λ x. Parses c buf ms x left) clean p)
            (subst (λ b. Parses c (b ++ rest) ns u.error left') held q),
        pu ∙ ap (λ l. l ++ ns) pt ∙ append_assoc s.pushed ms ns,
        fin,
      ),
    )
after_chunk c rest next s t buf (some x) e going (ms, err', left, p, pt, et, dt, ready) ih =
    let failed : err' ≡ some x = sym et ∙ e in
    let p' = Parses-fault_append rest (subst (λ y. Parses c buf ms y left) failed p) in
    (
      t,
      refl,
      (
        ms,
        left ++ rest,
        subst (λ y. Parses c (buf ++ rest) ms y (left ++ rest)) (sym e) p',
        pt,
        λ h. cc,
      ),
    )

pub feed-HasRead :
    (c : Codec) (chunks : List (List ℕ)) (s : Decoder)
    → IsWaiting c s
    → (t : Decoder) × (feed c chunks s ≡ ok t) × HasRead c s (bytes_of s.buffer ++ flatten chunks) t
unfolding feed flatten
feed-HasRead c [] s (v, going, wait) = (
  s,
  refl,
  (
    [],
    bytes_of s.buffer,
    rw (append-nil (bytes_of s.buffer)) (
        subst (λ x. Parses c (bytes_of s.buffer) [] x (bytes_of s.buffer)) (sym v.no_error)
          (ends wait)),
    sym (append-nil s.pushed),
    λ _. (v, going, refl),
  ),
)
feed-HasRead c (chunk ∷ chunks) s (v, going, wait) =
    let (t, e, reads) = transform-Reads c chunk s v going in
    let (u, eu, has) =
      after_chunk c (flatten chunks) (feed c chunks) s t (bytes_of s.buffer ++ chunk) t.error refl
        going reads (λ w. feed-HasRead c chunks t w) in
    (u, rw e eu, rw append_assoc at has)

pub create-IsReady : IsReady create
create-IsReady = ground arith

-- However the bytes of a stream are cut into chunks, a new decoder reads them without throwing.
-- The messages that it pushes, the error that it reports, if any, and, when there is none, the
-- bytes that wait are those of the parse of all the bytes at once.
pub feed-Parses :
    (c : Codec) (chunks : List (List ℕ))
    → (t : Decoder) × (feed c chunks create ≡ ok t)
      × ((left : List ℕ) × Parses c (flatten chunks) t.pushed t.error left
          × ((is_some t.error ≡ true) ⊎ (bytes_of t.buffer ≡ left)))
feed-Parses c chunks =
    let (t, e, has) =
      feed-HasRead c chunks create (create-IsReady, refl, front_short c [] (omega arith)) in
    let (ms, left, p, pt, fin) = has in
    (
      t,
      e,
      (
        left,
        subst (λ l. Parses c (flatten chunks) l t.error left) (sym pt) p,
        left_over t left fin,
      ),
    )
  where
    left_over :
        (t : Decoder) (left : List ℕ)
        → (t.error ≡ none → IsReady t × (t.done ≡ false) × (bytes_of t.buffer ≡ left))
        → (is_some t.error ≡ true) ⊎ (bytes_of t.buffer ≡ left)
    left_over t left fin = elim (Option-cases t.error) [
      | inl clean ↦ inr (fin clean).2
      | inr (x, e) ↦ inl (ap is_some e)
    ]
