-- ===== src/System/Call.antt =====
-- One call from end to end: `rpc` of lib/fast_client.js, `onMessage` and the reply of the handler
-- in lib/fast_server.js, and `onMessage` of the client for each message of the reply.
use text.Mathlib.Text.{◌==◌ as str_eq}
use node_fast.Base.{
  ℕ, String, ◌+◌, ◌<◌, ◌≡◌, refl, ap, subst, map, take, append-nil, is_some, Option, ◌∙◌, ◌⊎◌, inl,
  inr, true, false, ◌||◌, some, none, List, [], ◌∷◌, ◌++◌, ◌==◌, if◌then◌else◌, drop,
  drop-length_append, length, Outcome, ok, ◌>>=◌, Returns, bind-Returns, arith,
}
use node_fast.Base.Map.{lookup}
use node_fast.Json.{Json, Items, to_list}
use node_fast.Protocol.{Message, msgid_max, version_1, version_2}
use node_fast.Client.Request.{is_pending, StreamEvent, datum, ended}
use node_fast.Client.State.{Client}
use node_fast.Client.Api.{RpcArgs, is_req_id_allocated, is_unusable, rpc, rpc_message, timeout_ok}
use node_fast.Client.Invariant.{IsValid}
use node_fast.Client.Invariant.Issue.{IsIssued, rpc-IsIssued}
use node_fast.Server.State.{Handler, Request, RpcError, Server}
use node_fast.Server.Messages.{on_message}
use node_fast.Server.Contract.{call_of-rpc_message}
use node_fast.Server.Invariant.{IsConsistent}
use node_fast.Server.Replies.{
  Action, perform, is_reply, failure, writes, written, delivered, answer,
}
use node_fast.Server.Replies.Arriving.{
  ending, delivered-is_reply, reply_messages-writes, failure-writes,
}
use node_fast.Server.Replies.Outgoing.{perform-Answered}
use node_fast.Server.Replies.Called.{IsCall, IsStarted, called, on_message-IsStarted}
use node_fast.System.Hearing.{receive, told, as_received, IsAwaiting, Hears}
use node_fast.System.Hearing.Reply.{receive-Hears}

-- What was written since the log had the length of `before`.
abbrev pub news : List Message → List Message → List Message
news before log = drop (length before) log

-- The server takes a call, and its handler answers.
abbrev pub serve :
    (ℕ → ℕ) → (ℕ → ℕ) → ℕ → (List Json → Outcome (List Action)) → Message → Server → Outcome Server
serve clock pace connid handler m u = do
  t ← on_message (clock 0) connid m u
  acts ← handler (to_list (t.requests u.nrequests).rpcargs)
  perform clock pace 1 u.nrequests acts t

abbrev pub serve_all :
    (ℕ → ℕ)
    → (ℕ → ℕ)
    → ℕ
    → (List Json → Outcome (List Action))
    → List Message
    → Server
    → Outcome Server
serve_all clock pace connid handler [] u = ok u
serve_all clock pace connid handler (m ∷ ms) u =
    serve clock pace connid handler m u >>= serve_all clock pace connid handler ms

-- The call, what the client has written for it, what the server has written on the connection at
-- place `h` since, and the client when it has read that. The result has the request's handle.
unfoldable pub exchange :
    (ℕ → ℕ)
    → (ℕ → ℕ)
    → ℕ
    → ℕ
    → (List Json → Outcome (List Action))
    → RpcArgs
    → Client
    → Server
    → Outcome (ℕ × Client × Server)
exchange clock pace connid h handler args s u = do
  (id, t) ← rpc args s
  v ← serve_all clock pace connid handler (news s.outgoing t.outgoing) u
  w ← receive (news (u.connections h).outgoing (v.connections h).outgoing) t
  ok (id, w, v)

-- A client and a server that are linked by an open connection, at place `h` of the server. What
-- the connection has pending is a request of the client.
pub record AreLinked (connid h : ℕ) (s : Client) (u : Server) : Type 0 where
  pub client_valid : IsValid s
  pub server_valid : IsConsistent u
  pub usable : is_unusable s ≡ false
  pub known : (s.version ≡ version_1) ⊎ (s.version ≡ version_2)
  pub positive : (connid == 0) ≡ false
  pub found : lookup connid u.conns ≡ some h
  pub running : ((u.connections h).is_ended || (u.connections h).socket_error) ≡ false
  pub shared : (k : ℕ) → is_req_id_allocated s k ≡ false → lookup k (u.connections h).pending ≡ none

-- What a caller hears of a reply with these values and this error, if any.
abbrev pub hearing : List Json → Option RpcError → List StreamEvent
hearing vs o = map datum vs ++ (if is_some o then [] else ended ∷ [])

-- The caller has heard the reply: all that the handler has written before it ended its context, or
-- the first `count` of the values that it has written before it failed.
pub record HasHeard (acts : List Action) (r : ℕ × Client × Server) : Type 0 where
  pub count : ℕ
  pub client_valid : IsValid r.1
  pub server_valid : IsConsistent r.2
  pub events : (r.1.heap r.0).events ≡ hearing (delivered count acts) (failure acts)
  pub error : (r.1.heap r.0).error ≡ as_received (failure acts)
  pub done : is_pending (r.1.heap r.0) ≡ false

-- What a call has done to the server.
HasServed : (ℕ → ℕ) → ℕ → Message → String → Items → List Action → Server → Server → Type 0
HasServed clock h m name args acts u v =
    IsConsistent v
    × ((count : ℕ) × ((v.connections h).outgoing
          ≡ (u.connections h).outgoing
            ++ answer clock 1 (called h m name args) (delivered count acts) (failure acts)))

serve-HasServed :
    (clock pace : ℕ → ℕ) (connid h : ℕ) (handler : List Json → Outcome (List Action)) (m : Message)
    (name : String) (args : Items) (f : Handler) (acts : List Action) (u : Server)
    → IsConsistent u
    → IsCall connid h m name args f u
    → handler (to_list args) ≡ ok acts
    → is_reply acts ≡ true
    → Returns (HasServed clock h m name args acts u) (serve clock pace connid handler m u)
unfolding HasServed
serve-HasServed clock pace connid h handler m name args f acts u v c e good =
    bind-Returns (IsStarted h m name args u) _ (on_message (clock 0) connid m u) _
      (on_message-IsStarted (clock 0) connid h m name args f u v c)
      (λ t st.
        let q = called h m name args in
        let given : handler (to_list (t.requests u.nrequests).rpcargs) ≡ ok acts =
          ap (λ r. handler (to_list (Request.rpcargs r))) st.request_eq ∙ e in
        let (count, (w, f, (x, over, sent, gone))) =
          perform-Answered clock pace 1 h u.nrequests acts t st.valid st.served good in
        let told_of : Request → List Message =
          λ r. answer clock 1 r (delivered count acts) (failure acts) in
        let here : (if h == h
              then (t.connections h).outgoing ++ told_of q
              else (t.connections h).outgoing)
            ≡ (t.connections h).outgoing ++ told_of q =
          ground arith in
        (
          w,
          rw given f,
          (
            x,
            (
              count,
              sent
                  ∙ ap
                      (λ r.
                        if h == Request.conn r
                        then (t.connections h).outgoing ++ told_of r
                        else (t.connections h).outgoing)
                      st.request_eq
                  ∙ here
                  ∙ ap (λ l. l ++ told_of q) (st.sent h),
            ),
          ),
        ))

awaiting :
    (args : RpcArgs) (s : Client) (r : ℕ × Client) (h : ℕ)
    → IsIssued args s r
    → is_pending (r.1.heap r.0) ≡ true
    → (s.version ≡ version_1) ⊎ (s.version ≡ version_2)
    → IsAwaiting r.0
        (called h (rpc_message s (r.1.heap r.0).msgid args) args.rpcmethod args.rpcargs)
        r.1
awaiting args s (id, t) h i still known = record {
  valid = i.valid;
  held = (i.valid.fits id (omega (arith, i.handle_eq, i.made))).registered still;
  small = i.to_max;
  known = known;
}

rpc_message-IsCall :
    (connid h k : ℕ) (args : RpcArgs) (f : Handler) (s : Client) (u : Server)
    → AreLinked connid h s u
    → str_eq args.rpcmethod "" ≡ false
    → u.handlers args.rpcmethod ≡ some f
    → is_req_id_allocated s k ≡ false
    → IsCall connid h (rpc_message s k args) args.rpcmethod args.rpcargs f u
rpc_message-IsCall connid h k args f s u l named e free = record {
  positive = l.positive;
  found = l.found;
  running = l.running;
  is_data = refl;
  unused = l.shared k free;
  object = refl;
  call = (call_of-rpc_message s k args named).1;
  known = e;
}

told-writes :
    (vs late : List Json) (o : Option RpcError) → told (writes vs ++ ending o late) ≡ hearing vs o
told-writes [] late none = refl
told-writes [] late (some e) = refl
told-writes (v ∷ vs) late o = ap (λ l. datum v ∷ l) (told-writes vs late o)

-- The client reads the messages of a reply.
answer-Hears :
    (clock : ℕ → ℕ) (id : ℕ) (r : Request) (count : ℕ) (acts : List Action) (s : Client)
    → IsAwaiting id r s
    → is_reply acts ≡ true
    → Returns
        (Hears id (writes (delivered count acts) ++ ending (failure acts) []) s)
        (receive (answer clock 1 r (delivered count acts) (failure acts)) s)
answer-Hears clock id r count acts s a good =
    let arrived = writes (delivered count acts) ++ ending (failure acts) [] in
    subst (λ ms. Returns (Hears id arrived s) (receive ms s))
      (reply_messages-writes clock 1 r (delivered count acts) [] (failure acts))
      (receive-Hears clock 1 id r arrived s a (delivered-is_reply count [] acts good))

-- A call of a registered method over an open connection, at whatever pace the server's encoder
-- takes the objects: nothing throws, and the caller has heard what the handler has done with the
-- call's arguments, and nothing else. When the handler ends its context, that is every value that
-- it has written, in their order, and then the end of the stream, and no error. When it fails, it
-- is some first part of the values that it has written before, no end, and the handler's error,
-- which is the cause of the request's failure. Client and server stay valid. The method's name is
-- not empty, the timeout is usable and a message identifier is free.
pub exchange-HasHeard :
    (clock pace : ℕ → ℕ) (connid h : ℕ) (handler : List Json → Outcome (List Action))
    (args : RpcArgs) (f : Handler) (acts : List Action) (s : Client) (u : Server)
    → AreLinked connid h s u
    → timeout_ok args.timeout ≡ true
    → length s.pending + length s.abandoned < msgid_max
    → str_eq args.rpcmethod "" ≡ false
    → u.handlers args.rpcmethod ≡ some f
    → handler (to_list args.rpcargs) ≡ ok acts
    → is_reply acts ≡ true
    → Returns (HasHeard acts) (exchange clock pace connid h handler args s u)
unfolding exchange HasServed
exchange-HasHeard clock pace connid h handler args f acts s u l timely room named e given good =
    bind-Returns (IsIssued args s) _ (rpc args s) _ (rpc-IsIssued args s l.client_valid timely room)
      (λ r i. elim i.outcome [
        | inr (unusable, _, _, _) ↦ absurd (cc (unusable, l.usable))
        | inl (_, still, sent, _) ↦
            let m = rpc_message s (r.1.heap r.0).msgid args in
            let q = called h m args.rpcmethod args.rpcargs in
            let c =
              rpc_message-IsCall connid h (r.1.heap r.0).msgid args f s u l named e i.unused in
            let (v, served, (w, (count, grown))) =
              serve-HasServed clock pace connid h handler m args.rpcmethod args.rpcargs f acts u
                l.server_valid c given good in
            let (t, heard, hears) =
              answer-Hears clock r.0 q count acts r.1 (awaiting args s r h i still l.known) good in
            let asked : news s.outgoing r.1.outgoing ≡ m ∷ [] =
              ap (news s.outgoing) sent ∙ drop-length_append s.outgoing (m ∷ []) in
            let replied : news (u.connections h).outgoing (v.connections h).outgoing
                ≡ answer clock 1 q (delivered count acts) (failure acts) =
              ap (news (u.connections h).outgoing) grown
              ∙ drop-length_append (u.connections h).outgoing _ in
            (
              (r.0, t, v),
              rw (asked, served, replied, heard) refl,
              record {
                client_valid = hears.valid;
                server_valid = w;
                count = count;
                events =
                    hears.events
                    ∙ ap
                        (λ l. l ++ told (writes (delivered count acts) ++ ending (failure acts) []))
                        i.silent
                    ∙ told-writes (delivered count acts) [] (failure acts);
                error =
                    hears.error
                    ∙ ap as_received (failure-writes (delivered count acts) [] (failure acts));
                done = hears.done;
              },
            )
      ])

-- A reply that does not fail is heard as a whole.
pub heard_whole :
    (acts : List Action) (r : ℕ × Client × Server)
    → HasHeard acts r
    → failure acts ≡ none
    → ((r.1.heap r.0).events ≡ map datum (written acts) ++ ended ∷ [])
      × ((r.1.heap r.0).error ≡ none)
heard_whole acts r h e = (
  h.events
      ∙ ap (λ o. hearing (if is_some o then take h.count (written acts) else written acts) o) e,
  h.error ∙ ap as_received e,
)

-- Of a reply that fails, some first part of the values is heard.
pub heard_failure :
    (acts : List Action) (x : RpcError) (r : ℕ × Client × Server)
    → (h : HasHeard acts r) → failure acts ≡ some x
    → ((r.1.heap r.0).events ≡ map datum (take h.count (written acts)))
      × ((r.1.heap r.0).error ≡ as_received (some x))
heard_failure acts x r h e = (
  h.events
      ∙ ap (λ o. hearing (if is_some o then take h.count (written acts) else written acts) o) e
      ∙ append-nil _,
  h.error ∙ ap as_received e,
)
