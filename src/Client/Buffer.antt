-- ===== src/Client/Buffer.antt =====
-- `rpcBufferAndCallback` of lib/fast_client.js: the listeners that it puts on a request's stream
-- collect the data, up to a maximum, and call back once at the end.
use node_fast.Base.{
  ℕ, zero, suc, ◌+◌, ◌≤◌, ◌<◌, ◌≡◌, ◌≢◌, refl, sym, ap, ◌∙◌, inl, inr, Bool, true, false, not,
  Option, none, List, [], ◌∷◌, ◌++◌, ltb, leb, if◌then◌else◌, length, take, arith, length-append,
  append_assoc, append-nil, Outcome, ok, assert, ◌>>=◌, ◌>>◌,
}
use node_fast.Json.{Json}
use node_fast.Client.State.{Client}
use node_fast.Client.Streams.{Reaches-stream}
use node_fast.Client.Invariant.Handle.{Reaches}
use node_fast.Client.Request.{
  Cause, StreamEvent, datum, ended, failed, Stream, open_, closed, broken, stream_from,
  stream_state,
}

-- One call of the caller's function: `err`, `data` and `ndata`.
pub record Callback : Type 0 where
  pub err : Option Cause
  pub values : List Json
  pub ndata : ℕ

-- The variables that the listeners share; `callbacks` are the calls made, oldest first.
pub record Buffer : Type 0 where
  pub maxbuffer : ℕ
  pub values : List Json
  pub ndata : ℕ
  pub done : Bool
  pub callbacks : List Callback

abbrev pub create : ℕ → Buffer
create maxbuffer = record {
  maxbuffer = maxbuffer;
  values = [];
  ndata = 0;
  done = false;
  callbacks = [];
}

-- The `data` listener.
unfoldable pub on_data : Json → Buffer → Outcome Buffer
on_data c b = do
  assert (not b.done)
  ok (record b {
    ndata = b.ndata + 1;
    values = if ltb (length b.values) b.maxbuffer then b.values ++ c ∷ [] else b.values;
  })

-- The `error` listener, and with `none` the `end` listener.
unfoldable pub on_finish : Option Cause → Buffer → Outcome Buffer
on_finish err b = do
  assert (not b.done)
  assert (leb (length b.values) b.ndata)
  assert (leb (length b.values) b.maxbuffer)
  ok (record b {
    done = true;
    callbacks = b.callbacks ++ record { err = err; values = b.values; ndata = b.ndata } ∷ [];
  })

unfoldable pub on_event : StreamEvent → Buffer → Outcome Buffer
on_event (datum c) b = on_data c b
on_event ended b = on_finish none b
on_event (failed err) b = on_finish err b

-- The events of a stream reach the listeners one after the other.
unfoldable pub listen : List StreamEvent → Buffer → Outcome Buffer
listen [] b = ok b
listen (e ∷ es) b = on_event e b >>= listen es

-- The data of a stream, and the error that it ended with, if any.
abbrev pub values_of : List StreamEvent → List Json
values_of [] = []
values_of (datum c ∷ es) = c ∷ values_of es
values_of (_ ∷ es) = values_of es

abbrev pub verdict : List StreamEvent → Option Cause
verdict [] = none
verdict (datum c ∷ es) = verdict es
verdict (ended ∷ es) = none
verdict (failed err ∷ es) = err

-- What the listeners hold after data, before the end and after it.
abbrev pub holding : ℕ → List Json → Buffer
holding maxbuffer vs = record (create maxbuffer) { values = take maxbuffer vs; ndata = length vs }

abbrev pub answered : ℕ → List Json → Option Cause → Buffer
answered maxbuffer vs err = record (holding maxbuffer vs) {
  done = true;
  callbacks = record { err = err; values = take maxbuffer vs; ndata = length vs } ∷ [];
}

take-empty : (m : ℕ) → take {A = Json} m [] ≡ []
take-empty zero = refl
take-empty (suc m) = refl

take-push :
    (n : ℕ) (vs : List Json) (c : Json)
    → (if ltb (length (take n vs)) n then take n vs ++ c ∷ [] else take n vs)
      ≡ take n (vs ++ c ∷ [])
take-push zero vs c = refl
take-push (suc n) [] c = ground (arith, take-empty n)
take-push (suc n) (v ∷ vs) c = ground (arith, take-push n vs c)

length-take-le :
    (n : ℕ) (vs : List Json) → (length (take n vs) ≤ n) × (length (take n vs) ≤ length vs)
length-take-le zero vs = (omega arith, omega arith)
length-take-le (suc n) [] = (omega arith, omega arith)
length-take-le (suc n) (v ∷ vs) =
    let h = length-take-le n vs in (omega (arith, h.0), omega (arith, h.1))

on_data-holding :
    (n : ℕ) (vs : List Json) (c : Json) → on_data c (holding n vs) ≡ ok (holding n (vs ++ c ∷ []))
unfolding on_data
on_data-holding n vs c =
    let more_data : length vs + 1 ≡ length (vs ++ c ∷ []) =
      omega (arith, length-append vs (c ∷ [])) in
    cc (take-push n vs c, more_data)

on_finish-holding :
    (n : ℕ) (vs : List Json) (err : Option Cause)
    → on_finish err (holding n vs) ≡ ok (answered n vs err)
unfolding on_finish
on_finish-holding n vs err = let h = length-take-le n vs in ground arith

broken_stays : (es : List StreamEvent) → stream_from broken es ≡ broken
broken_stays [] = refl
broken_stays (e ∷ es) = broken_stays es

closed_stays : (es : List StreamEvent) → stream_from closed es ≡ closed → es ≡ []
closed_stays [] h = refl
closed_stays (e ∷ es) h = absurd (cc (h, broken_stays es))

closed-not_open : (es : List StreamEvent) → stream_from closed es ≢ open_
closed-not_open [] h = cc
closed-not_open (e ∷ es) h = cc (h, broken_stays es)

-- A stream that is still open has been heard, and nothing was called.
listen_on-open :
    (n : ℕ) (es : List StreamEvent) (vs : List Json)
    → stream_state es ≡ open_
    → listen es (holding n vs) ≡ ok (holding n (vs ++ values_of es))
unfolding listen on_event
listen_on-open n [] vs h = ap (λ l. ok (holding n l)) (sym (append-nil vs))
listen_on-open n (datum c ∷ es) vs h =
    rw (on_data-holding n vs c) (listen_on-open n es (vs ++ c ∷ []) h)
    ∙ ap (λ l. ok (holding n l)) (append_assoc vs (c ∷ []) (values_of es))
listen_on-open n (ended ∷ es) vs h = absurd (closed-not_open es h)
listen_on-open n (failed x ∷ es) vs h = absurd (closed-not_open es h)

-- A stream that has ended has been heard to its end, and the caller was called once.
listen_on-closed :
    (n : ℕ) (es : List StreamEvent) (vs : List Json)
    → stream_state es ≡ closed
    → listen es (holding n vs) ≡ ok (answered n (vs ++ values_of es) (verdict es))
unfolding listen on_event
listen_on-closed n [] vs h = absurd cc
listen_on-closed n (datum c ∷ es) vs h =
    rw (on_data-holding n vs c) (listen_on-closed n es (vs ++ c ∷ []) h)
    ∙ ap (λ l. ok (answered n l (verdict es))) (append_assoc vs (c ∷ []) (values_of es))
listen_on-closed n (ended ∷ es) vs h =
    let last = closed_stays es h in
    let none_more : values_of es ≡ [] = ap values_of last in
    rw (on_finish-holding n vs none, last, append-nil vs) refl
listen_on-closed n (failed x ∷ es) vs h =
    let last = closed_stays es h in
    let none_more : values_of es ≡ [] = ap values_of last in
    rw (on_finish-holding n vs x, last, append-nil vs) refl

create-holding : (n : ℕ) → create n ≡ holding n []
create-holding n = ap (λ l. record (create n) { values = l }) (sym (take-empty n))

-- What the listeners have done for a stream: while it is open they hold the data, and at its end
-- they have called once.
abbrev pub heard : Stream → ℕ → List StreamEvent → Buffer
heard closed n es = answered n (values_of es) (verdict es)
heard _ n es = holding n (values_of es)

-- On the stream of any request of a client that is in use, no check of the listeners fails. The
-- data that they hold are the first of the stream, as many as the maximum allows, and their
-- number counts all of them. The caller is called exactly once, when the stream has ended, with
-- the error that ended it, if any, these data and this number.
pub listen-heard :
    (s : Client) (id n : ℕ)
    → Reaches s
    → id < s.nrequests
    → listen (s.heap id).events (create n)
      ≡ ok (heard (stream_state (s.heap id).events) n (s.heap id).events)
listen-heard s id n r made =
    let es = (s.heap id).events in
    ap (listen es) (create-holding n) ∙ elim (Reaches-stream s id r made) [
      | inl (opened, _) ↦ listen_on-open n es [] opened ∙ ap (λ b. ok (heard b n es)) (sym opened)
      | inr (shut, _, _) ↦ listen_on-closed n es [] shut ∙ ap (λ b. ok (heard b n es)) (sym shut)
    ]
