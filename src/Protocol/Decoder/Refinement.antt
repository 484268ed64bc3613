-- ===== src/Protocol/Decoder/Refinement.antt =====
-- The stream decoder of lib/fast_protocol.js parses the bytes that it has been given, however
-- they were cut into chunks.
use node_fast.Base.{
  ℕ, zero, suc, ◌<◌, ◌≡◌, refl, ap, sym, ◌∙◌, Bool-cases, inl, inr, Option, none, some, List, [],
  ◌∷◌, ◌++◌, leb, length, arith, Outcome, ok, ◌>>=◌, append_assoc, append-nil,
}
use node_fast.Protocol.Wire.{header_sz}
use node_fast.Protocol.External.{Codec}
use node_fast.Protocol.Encode.{Message}
use node_fast.Protocol.Decode.{ProtocolError}
use node_fast.Protocol.Decoder.{Decoder, Flow, stop, again, decode_once, decode_loop}
use node_fast.Protocol.Decoder.Parse.{
  Front, incomplete, fault, message, front, Parses, ends, fails, more,
}
use node_fast.Protocol.Decoder.Prefixes.{front_shorter, front_short}
use node_fast.Protocol.Decoder.Rounds.{IsReady, Round, have_bytes-eq, decode_once-Round}

-- What a run of the decoder leaves behind, started at `s` with `buf` to read: the messages of the
-- parse, and its fault or the bytes that are left.
abbrev pub Reads : Codec → Decoder → List ℕ → Decoder → Type 0
Reads c s buf t =
    (ms : List Message) × (err : Option ProtocolError) × (left : List ℕ) × Parses c buf ms err left
    × (t.pushed ≡ s.pushed ++ ms)
    × (t.error ≡ err)
    × (t.done ≡ s.done)
    × (err ≡ none → IsReady t × (t.buffer ≡ some left))

module _ (c : Codec) where
  abbrev pub Finishes : Decoder → List ℕ → Outcome Decoder → Type 0
  Finishes s buf r = (t : Decoder) × (r ≡ ok t) × Reads c s buf t

  after-Round :
      (s : Decoder) (buf : List ℕ) (fuel : ℕ) (f : Front)
      → front c buf ≡ f
      → (r : Outcome Flow) → Round s f r
      → IsReady s
      → s.buffer ≡ some buf
      → ((t : Decoder) (rest : List ℕ)
          → t.buffer ≡ some rest
          → IsReady t
          → length rest < length buf
          → Finishes t rest (decode_loop c fuel t))
      → Finishes s buf (r >>= λ flow. elim flow [ stop t ↦ ok t | again t ↦ decode_loop c fuel t ])
  after-Round s buf fuel incomplete e r round v eb ih = (
    s,
    rw round,
    ([], none, buf, ends e, sym (append-nil s.pushed), v.no_error, refl, λ _. (v, eb)),
  )
  after-Round s buf fuel (fault x) e r (t, round, et, pt, dt) v eb ih =
      (t, rw round, ([], some x, buf, fails x e, pt ∙ sym (append-nil s.pushed), et, dt, λ h. cc))
  after-Round s buf fuel (message m rest) e r (t, round, vt, bt, pt, dt) v eb ih =
      let (u, eu, reads) = ih t rest bt vt (front_shorter c buf rest m e) in
      let (ms, err, left, p, pu, xu, du, ready) = reads in
      (
        u,
        rw round eu,
        (
          m ∷ ms,
          err,
          left,
          more m e p,
          pu ∙ ap (λ l. l ++ ms) pt ∙ append_assoc s.pushed (m ∷ []) ms,
          xu,
          du ∙ dt,
          ready,
        ),
      )

  -- With a round for each byte and one more, the loop ends by its own tests.
  pub decode_loop-Reads :
      (fuel : ℕ) (s : Decoder) (buf : List ℕ)
      → IsReady s
      → s.buffer ≡ some buf
      → length buf < fuel
      → Finishes s buf (decode_loop c fuel s)
  unfolding decode_loop
  decode_loop-Reads zero s buf v eb h = elim h [ ]
  decode_loop-Reads (suc fuel) s buf v eb h = elim (Bool-cases (leb header_sz s.have_bytes)) [
    | inl enough ↦
        let n = have_bytes-eq s buf v eb in
        rw (enough, decode_loop)
          (after-Round s buf fuel (front c buf) refl (decode_once c s)
            (decode_once-Round c s buf v eb (ground arith)) v eb
            (λ t rest bt vt lt. decode_loop-Reads fuel t rest vt bt (omega arith)))
    | inr short ↦
        let n = have_bytes-eq s buf v eb in
        (
          s,
          rw (short, decode_loop),
          (
            [],
            none,
            buf,
            ends (front_short c buf (ground arith)),
            sym (append-nil s.pushed),
            v.no_error,
            refl,
            λ _. (v, eb),
          ),
        )
  ]
