-- ===== src/Server/Invariant/Starting.antt =====
-- `onMessage` of lib/fast_server.js starts a new request, or fails it.
use node_fast.Base.{
  ℕ, ◌<◌, ◌≡◌, refl, sym, ap, ◌∙◌, inl, inr, String, true, false, none, some, Option-cases, is_none,
  arith, ok, ◌∷◌, ◌++◌, [], Outcome, Returns,
}
use node_fast.Base.Map.{lookup}
use node_fast.Json.{Items, is_object}
use node_fast.Protocol.{Message}
use node_fast.Server.State.{
  Request, running, complete, RpcError, Handler, Server, put_request, new_request,
}
use node_fast.Server.Response.{is_running, write, error_message}
use node_fast.Server.Lifecycle.{request_cleanup, request_fail}
use node_fast.Server.Messages.{
  bad_data, bad_method, call_of, register, invoke, start_call, start_request,
}
use node_fast.Server.Invariant.{IsConsistent}
use node_fast.Server.Invariant.Updates.{update_self, update-update, counters-IsConsistent}
use node_fast.Server.Invariant.Requests.{request_fail-IsConsistent}
use node_fast.Server.Invariant.Registration.{entered, put_entered, entered-IsConsistent}

-- The request as `requestFail` leaves it.
abbrev failed_with : RpcError → Request → Request
failed_with e r = record r { error = some e; state = complete; attached = false }

request_fail-entered :
    (uts h : ℕ) (m : Message) (r : Request) (s : Server) (e : RpcError)
    → request_fail uts s.nrequests e (entered h m r s)
      ≡ request_cleanup s.nrequests
          (write r.conn (error_message uts (failed_with e r) e) (entered h m (failed_with e r) s))
unfolding request_fail
request_fail-entered uts h m r s e =
    let after : Request → Server → Outcome Server =
      λ q t. request_cleanup s.nrequests (write q.conn (error_message uts (failed_with e q) e) t) in
    ap (λ q. after q (put_request s.nrequests (failed_with e q) (entered h m r s)))
      (update_self s.requests s.nrequests r)
    ∙ ap (λ rs. after r (record (register h m s) { requests = rs }))
        (update-update s.requests s.nrequests r (failed_with e r))

-- What a new request is like, whether it runs already or not.
abbrev running_request : Request → Request
running_request r = record r { state = running }

-- A new request that is failed at once, before it runs.
failed_at_once-IsConsistent :
    (uts h : ℕ) (m : Message) (r : Request) (s : Server) (e : RpcError)
    → IsConsistent (entered h m (running_request r) s)
    → Returns IsConsistent (request_fail uts s.nrequests e (entered h m r s))
failed_at_once-IsConsistent uts h m r s e v =
    let goes =
      ap (λ q. is_running (Request.state q))
        (update_self s.requests s.nrequests (running_request r)) in
    let (t, f, w) =
      request_fail-IsConsistent uts (entered h m (running_request r) s) s.nrequests e v
        (omega arith) goes in
    (
      t,
      request_fail-entered uts h m r s e
          ∙ sym (request_fail-entered uts h m (running_request r) s e)
          ∙ f,
      w,
    )

-- The request with its method and arguments filled in.
abbrev pub named : String → Items → Request → Request
named name args r = record r { rpcmethod = some name; rpcargs = args }

abbrev pub started : String → Request → Request
started name r = record r { handler = some name; state = running; attached = true }

start_call-none :
    (uts id : ℕ) (m : Message) (name : String) (args : Items) (s : Server)
    → s.handlers name ≡ none
    → start_call uts id m (name, args) s
      ≡ request_fail uts id (bad_method name m) (put_request id (named name args (s.requests id)) s)
start_call-none uts id m name args s e = ground arith

pub start_call-some :
    (uts id : ℕ) (m : Message) (name : String) (args : Items) (s : Server) (f : Handler)
    → s.handlers name ≡ some f
    → start_call uts id m (name, args) s
      ≡ ok (invoke id name f (put_request id (named name args (s.requests id)) s))
start_call-some uts id m name args s f e = ground arith

-- A started request is the entered one, but for the handlers and the log.
pub invoke-entered :
    (h : ℕ) (m : Message) (name : String) (f : Handler) (r : Request) (s : Server)
    → invoke s.nrequests name f (entered h m r s) ≡ record (entered h m (started name r) s) {
      handlers = (invoke s.nrequests name f (entered h m r s)).handlers;
      invoked = s.invoked ++ s.nrequests ∷ [];
    }
invoke-entered h m name f r s =
    let hs = (invoke s.nrequests name f (entered h m r s)).handlers in
    ap {A = Server} {B = Server}
      (λ t. record t { handlers = hs; invoked = s.invoked ++ s.nrequests ∷ [] })
      (put_entered h m r s (started name))

start_call-IsConsistent :
    (uts h : ℕ) (m : Message) (s : Server) (name : String) (args : Items)
    → ((r : Request)
        → r.msgid ≡ m.msgid
        → r.conn ≡ h
        → is_running r.state ≡ true
        → is_none r.error ≡ true
        → r.blackhole ≡ false
        → IsConsistent (entered h m r s))
    → Returns IsConsistent (start_call uts s.nrequests m (name, args) (register h m s))
start_call-IsConsistent uts h m s name args valid =
    let r = named name args (new_request h m) in
    let same = put_entered h m (new_request h m) s (named name args) in
    elim (Option-cases (s.handlers name)) [
      | inl unknown ↦
          let (t, e, w) =
            failed_at_once-IsConsistent uts h m r s (bad_method name m)
              (valid (running_request r) refl refl refl refl refl) in
          (
            t,
            start_call-none uts s.nrequests m name args (register h m s) unknown
                ∙ ap (request_fail uts s.nrequests (bad_method name m)) same
                ∙ e,
            w,
          )
      | inr (f, known) ↦ (
        _,
        start_call-some uts s.nrequests m name args (register h m s) f known
            ∙ ap (λ t. ok (invoke s.nrequests name f t)) same
            ∙ ap ok (invoke-entered h m name f r s),
        counters-IsConsistent (entered h m (started name r) s)
            (valid (started name r) refl refl refl refl refl) _ _ _ _ _ _ _ _ _ _ _ _,
      )
    ]

start_request-none :
    (uts connid h : ℕ) (m : Message) (s : Server)
    → is_object m.payload ≡ true
    → call_of m.payload ≡ none
    → start_request uts connid h m s
      ≡ request_fail uts s.nrequests (bad_data connid m) (register h m s)
unfolding start_request
start_request-none uts connid h m s e f = ground arith

pub start_request-some :
    (uts connid h : ℕ) (m : Message) (s : Server) (call : String × Items)
    → is_object m.payload ≡ true
    → call_of m.payload ≡ some call
    → start_request uts connid h m s ≡ start_call uts s.nrequests m call (register h m s)
unfolding start_request
start_request-some uts connid h m s call e f = ground arith

-- A DATA message with an identifier that is not in use: the request is started, or failed because
-- it is not well-formed or its method is unknown.
pub start_request-IsConsistent :
    (uts connid h : ℕ) (m : Message) (s : Server)
    → IsConsistent s
    → h < s.nconnections
    → lookup (s.connections h).connid s.conns ≡ some h
    → lookup m.msgid (s.connections h).pending ≡ none
    → is_object m.payload ≡ true
    → Returns IsConsistent (start_request uts connid h m s)
start_request-IsConsistent uts connid h m s v made here unused object =
    elim (Option-cases (call_of m.payload)) [
      | inl bad ↦
          let r = new_request h m in
          let (t, e, w) = failed_at_once-IsConsistent uts h m r s (bad_data connid m) (
            entered-IsConsistent s h m (running_request r) v made here unused refl refl refl refl
              refl) in
          (t, start_request-none uts connid h m s object bad ∙ e, w)
      | inr ((name, args), good) ↦
          let (t, e, w) =
            start_call-IsConsistent uts h m s name args
              (λ r. entered-IsConsistent s h m r v made here unused) in
          (t, start_request-some uts connid h m s (name, args) object good ∙ e, w)
    ]
