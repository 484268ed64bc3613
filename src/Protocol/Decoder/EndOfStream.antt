-- ===== src/Protocol/Decoder/EndOfStream.antt =====
-- `_flush` of lib/fast_protocol.js: what the end of the stream adds to a parse.
use mathlib.Core.List.{flatten}
use node_fast.Base.{
  ℕ, suc, ◌≤◌, ◌≡◌, refl, ap, sym, ◌∙◌, subst, true, false, Bool-cases, inl, inr, Option, none,
  some, List, [], ◌∷◌, length, leb, arith, ok,
}
use node_fast.Protocol.Wire.{header_sz}
use node_fast.Protocol.External.{Codec}
use node_fast.Protocol.Decode.{ProtocolError, incomplete_message}
use node_fast.Protocol.Decoder.{
  Decoder, call, create, stop, decode, decode_loop, decode_once, flush, flush_next, read_all,
  check_end,
}
use node_fast.Protocol.Decoder.Parse.{incomplete, front, Parses}
use node_fast.Protocol.Decoder.Prefixes.{front_short, Parses-left}
use node_fast.Protocol.Decoder.Rounds.{bytes_of, IsReady, decode_once-Round}
use node_fast.Protocol.Decoder.Chunks.{feed-HasRead, create-IsReady, have_bytes-buffer}

-- The error of a stream that has ended, from the fault of its parse and what that left.
abbrev pub end_fault : Option ProtocolError → List ℕ → Option ProtocolError
end_fault (some e) left = some e
end_fault none [] = none
end_fault none (b ∷ left) = some incomplete_message

-- With no complete message in the buffer the loop stops where it is.
idle_round :
    (c : Codec) (s : Decoder) (b : Option (List ℕ))
    → s.buffer ≡ b
    → IsReady s
    → front c (bytes_of b) ≡ incomplete
    → header_sz ≤ s.have_bytes
    → decode_once c s ≡ ok (stop s)
idle_round c s none eb v wait le =
    absurd (omega (arith, v.counted, ap (λ x. length (bytes_of x)) eb))
idle_round c s (some buf) eb v wait le =
    let n = have_bytes-buffer s buf v eb in
    rw wait at (decode_once-Round c s buf v eb (omega arith))

idle_loop :
    (c : Codec) (s : Decoder) (fuel : ℕ)
    → IsReady s
    → front c (bytes_of s.buffer) ≡ incomplete
    → decode_loop c (suc fuel) s ≡ ok s
unfolding decode_loop
idle_loop c s fuel v wait = elim (Bool-cases (leb header_sz s.have_bytes)) [
  | inl enough ↦ rw (enough, decode_loop, idle_round c s s.buffer refl v wait (ground arith))
  | inr short ↦ rw (short, decode_loop)
]

done-IsReady : (s : Decoder) → IsReady s → IsReady (record s { done = true })
done-IsReady s v = ground arith

decode-idle :
    (c : Codec) (s : Decoder)
    → IsReady s
    → front c (bytes_of s.buffer) ≡ incomplete
    → decode c s ≡ ok (check_end s, call (check_end s).error)
unfolding decode
decode-idle c s v wait = ground (arith, idle_loop c s s.have_bytes v wait)

check_end-error :
    (s : Decoder) (left : List ℕ)
    → s.error ≡ none
    → s.done ≡ true
    → s.have_bytes ≡ length left
    → ((check_end s).error ≡ end_fault none left) × ((check_end s).pushed ≡ s.pushed)
check_end-error s [] clean over n = ground arith
check_end-error s (b ∷ left) clean over n = ground arith

-- A decoder that is given all the bytes of a stream, in whatever chunks, and then its end, throws
-- nothing. It has pushed the messages of the parse and no others. Its error is the parse's fault
-- if there is one; if there is none, it reports an incomplete message exactly when bytes are left
-- behind the last message.
pub read_all-Parses :
    (c : Codec) (chunks : List (List ℕ))
    → (t : Decoder) × (read_all c chunks ≡ ok t)
      × ((err : Option ProtocolError) × (left : List ℕ) × Parses c
            (flatten chunks)
            t.pushed
            err
            left
          × (t.error ≡ end_fault err left))
unfolding read_all
read_all-Parses c chunks =
    let (t, e, has) =
      feed-HasRead c chunks create (create-IsReady, refl, front_short c [] (omega arith)) in
    let (ms, left, p, pt, fin) = has in
    let p' = subst (λ l. Parses c (flatten chunks) l t.error left) (sym pt) p in
    rw e (ending t left t.error refl p' fin)
  where
    ending :
        (t : Decoder) (left : List ℕ) (err : Option ProtocolError)
        → t.error ≡ err
        → Parses c (flatten chunks) t.pushed t.error left
        → (t.error ≡ none → IsReady t × (t.done ≡ false) × (bytes_of t.buffer ≡ left))
        → (u : Decoder) × (flush_next c err t ≡ ok u)
          × ((x : Option ProtocolError) × (l : List ℕ) × Parses c (flatten chunks) u.pushed x l
              × (u.error ≡ end_fault x l))
    ending t left (some x) e p fin =
        (t, refl, (some x, left, subst (λ y. Parses c (flatten chunks) t.pushed y left) e p, e))
    ending t left none e p fin =
        let (v, going, held) = fin e in
        let s' = record t { done = true } in
        let wait : front c (bytes_of t.buffer) ≡ incomplete = rw held (Parses-left p e) in
        let r : flush c t ≡ ok (check_end s', call (check_end s').error) =
          unfold flush in decode-idle c s' (done-IsReady t v) wait in
        let (f, same) = check_end-error s' left e refl (v.counted ∙ ap length held) in
        (
          check_end s',
          rw r,
          (
            none,
            left,
            subst (λ l. Parses c (flatten chunks) l none left) (sym same)
                (subst (λ y. Parses c (flatten chunks) t.pushed y left) e p),
            f,
          ),
        )
