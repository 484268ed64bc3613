-- ===== src/Server/Replies/Ending.antt =====
-- The last message of a reply in lib/fast_server.js.
use node_fast.Base.{
  ℕ, ◌<◌, ◌≡◌, refl, sym, ap, ◌∙◌, Bool, true, false, List, [], ◌∷◌, ◌++◌, ◌==◌, if◌then◌else◌, ok,
  Returns, Whenever-Returns, append_assoc, append-nil, arith,
}
use node_fast.Base.Map.{erase}
use node_fast.Json.{Json, is_object}
use node_fast.Protocol.{Message}
use node_fast.Server.State.{Request, complete, Server, put_request}
use node_fast.Server.Response.{
  data_message, end_message, error_message, is_running, is_complete, encoder_transform,
  encoder_flush,
}
use node_fast.Server.Response
use node_fast.Server.Lifecycle.{request_cleanup, request_complete}
use node_fast.Server.Api.{context_write, context_end}
use node_fast.Server.Invariant.{IsConsistent}
use node_fast.Server.Invariant.Updates.{update_self, update_cases}
use node_fast.Server.Invariant.Requests.{request_cleanup-IsConsistent, write-IsConsistent}
use node_fast.Server.Replies.Quiet.{Released, request_cleanup-Released}

-- A request that runs, and whose encoder's messages reach the connection.
pub record IsServed (s : Server) (id : ℕ) : Type 0 where
  pub made : id < s.nrequests
  pub runs : is_running (s.requests id).state ≡ true
  pub piped : (s.requests id).blackhole ≡ false
  pub linked : (s.requests id).attached ≡ true

pub write-IsServed :
    (id h : ℕ) (m : Message) (s : Server) → IsServed s id → IsServed (Response.write h m s) id
write-IsServed id h m s v = record {
  made = v.made;
  runs = v.runs;
  piped = v.piped;
  linked = v.linked;
}

-- What connection `j` has sent and has pending, after the messages of request `r`.
abbrev Sends : ℕ → Request → List Message → Server → Server → Type 0
Sends j r ms s t =
    ((t.connections j).outgoing
      ≡ (if j == r.conn then (s.connections j).outgoing ++ ms else (s.connections j).outgoing))
    × ((t.connections j).pending ≡ (s.connections j).pending)

-- The server is valid, the request is complete and no longer pending, and its connection, but no
-- other, has sent the messages, in order.
abbrev pub Answered : ℕ → ℕ → List Message → Server → Server → Type 0
Answered j id ms s t =
    let r = s.requests id in
    IsConsistent t
    × (is_complete (t.requests id).state ≡ true)
    × ((t.connections j).outgoing
        ≡ (if j == r.conn then (s.connections j).outgoing ++ ms else (s.connections j).outgoing))
    × ((t.connections j).pending ≡ (
        if j == r.conn then erase r.msgid (s.connections j).pending else (s.connections j).pending))

write-Sends :
    (j : ℕ) (r : Request) (m : Message) (s : Server)
    → Sends j r (m ∷ []) s (Response.write r.conn m s)
write-Sends j r m s =
    update_cases
      (λ i x.
        (x.outgoing ≡ (
          if i == r.conn then (s.connections i).outgoing ++ m ∷ [] else (s.connections i).outgoing))
        × (x.pending ≡ (s.connections i).pending))
      s.connections r.conn _ j (λ _. (ground arith, refl)) (λ ne. (ground arith, refl))

append-one_more :
    (b : Bool) (old new ms : List Message) (m : Message)
    → new ≡ (if b then old ++ m ∷ [] else old)
    → (if b then new ++ ms else new) ≡ (if b then old ++ m ∷ ms else old)
append-one_more true old new ms m e = ap (λ l. l ++ ms) e ∙ append_assoc old (m ∷ []) ms
append-one_more false old new ms m e = e

-- One message more at the front.
pub after-Sends :
    (j id : ℕ) (m : Message) (ms : List Message) (s t : Server)
    → Answered j id ms (Response.write (s.requests id).conn m s) t
    → Answered j id (m ∷ ms) s t
after-Sends j id m ms s t (v, over, sent, gone) =
    let (first, same) = write-Sends j (s.requests id) m s in
    (
      v,
      over,
      sent ∙ append-one_more (j == (s.requests id).conn) (s.connections j).outgoing _ ms m first,
      gone ∙ ap (λ p. if j == (s.requests id).conn then erase (s.requests id).msgid p else p) same,
    )

pub context_write-sent :
    (uts id : ℕ) (value : Json) (s : Server)
    → IsServed s id
    → is_object value ≡ true
    → context_write uts id value s
      ≡ ok (Response.write (s.requests id).conn (data_message uts (s.requests id) value) s)
unfolding context_write encoder_transform
context_write-sent uts id value s v object = ground (arith, v.runs, v.piped, v.linked)

flushed :
    (uts id : ℕ) (s : Server)
    → IsServed s id
    → (if (s.requests id).blackhole then s else encoder_flush uts id s)
      ≡ Response.write (s.requests id).conn (end_message uts (s.requests id)) s
unfolding encoder_flush
flushed uts id s v = ground (arith, v.runs, v.piped, v.linked)

request_complete-eq :
    (id : ℕ) (s : Server)
    → is_running (s.requests id).state ≡ true
    → request_complete id s
      ≡ request_cleanup id (put_request id (record (s.requests id) { state = complete }) s)
unfolding request_complete
request_complete-eq id s e = ground arith

pub context_end-sent :
    (uts id : ℕ) (s : Server)
    → IsServed s id
    → context_end uts id s
      ≡ request_cleanup id (
          put_request id
            (record (s.requests id) { state = complete })
            (Response.write (s.requests id).conn (end_message uts (s.requests id)) s))
unfolding context_end
context_end-sent uts id s v =
    ap (request_complete id) (flushed uts id s v)
    ∙ request_complete-eq id
        (Response.write (s.requests id).conn (end_message uts (s.requests id)) s) v.runs

if-append_nil : (b : Bool) (l : List Message) → (if b then l ++ [] else l) ≡ l
if-append_nil true l = append-nil l
if-append_nil false l = refl

-- `requestCleanup` of a request that is complete now, after its last message.
cleanup-Answered :
    (j id : ℕ) (r : Request) (s : Server)
    → IsConsistent s
    → IsServed s id
    → r.msgid ≡ (s.requests id).msgid
    → r.conn ≡ (s.requests id).conn
    → is_complete r.state ≡ true
    → Returns (Answered j id [] s) (request_cleanup id (put_request id r s))
cleanup-Answered j id r s v served same_msgid same_conn over =
    let u = put_request id r s in
    let here = update_self s.requests id r in
    let (t, e, (w, (same, kept))) =
      Whenever-Returns IsConsistent (Released id u) (request_cleanup id u)
        (request_cleanup-IsConsistent s id r v served.made served.runs same_msgid same_conn over)
        (request_cleanup-Released id u) in
    let msgid_eq : (u.requests id).msgid ≡ (s.requests id).msgid =
      ap (λ q. Request.msgid q) here ∙ same_msgid in
    let conn_eq : (u.requests id).conn ≡ (s.requests id).conn =
      ap (λ q. Request.conn q) here ∙ same_conn in
    (
      t,
      e,
      (
        w,
        ap (λ rs. is_complete (Request.state (rs id))) same
            ∙ ap (λ q. is_complete (Request.state q)) here
            ∙ over,
        (kept j).1 ∙ sym (if-append_nil (j == (s.requests id).conn) (s.connections j).outgoing),
        (kept j).0
            ∙ ap
                (λ h.
                  if j == h
                  then erase (u.requests id).msgid (s.connections j).pending
                  else (s.connections j).pending)
                conn_eq
            ∙ ap
                (λ k.
                  if j == (s.requests id).conn
                  then erase k (s.connections j).pending
                  else (s.connections j).pending)
                msgid_eq,
      ),
    )

-- The last action of a reply.
pub ended-Answered :
    (j id : ℕ) (m : Message) (r : Request) (s : Server)
    → IsConsistent s
    → IsServed s id
    → r.msgid ≡ (s.requests id).msgid
    → r.conn ≡ (s.requests id).conn
    → is_complete r.state ≡ true
    → Returns
        (Answered j id (m ∷ []) s)
        (request_cleanup id (put_request id r (Response.write (s.requests id).conn m s)))
ended-Answered j id m r s v served same_msgid same_conn over =
    let h = (s.requests id).conn in
    let u = Response.write h m s in
    let (t, e, w) =
      cleanup-Answered j id r u (write-IsConsistent s _ m v) (write-IsServed id h m s served)
        same_msgid same_conn over in
    (t, e, after-Sends j id m [] s t w)
