-- ===== src/Server/Effects/Starting.antt =====
-- `onMessage` and `connCreate` of lib/fast_server.js, as they change one connection.
use node_fast.Base.{
  ℕ, ◌+◌, ◌≤◌, ◌≡◌, ◌≢◌, refl, sym, ap, ◌∙◌, String, true, not, ◌||◌, some, ◌++◌, ◌==◌, Outcome, ok,
  throw, assertion, Whenever, assert-Whenever, if-Whenever, cases-Whenever, bind-Whenever,
  Whenever-mono, arith,
}
use node_fast.Base.Map.{Map, lookup, has_own_property, insert, lookup-insert}
use node_fast.Json.{Items, is_object}
use node_fast.Protocol.{Message, status_data, status_end, status_error}
use node_fast.Subr.IdAllocator.{IdAllocator}
use node_fast.Subr.IdAllocator
use node_fast.Subr.SocketAddrs.{Socket}
use node_fast.Server.State.{
  Connection, ConnFault, Request, RpcError, Server, put_request, new_request, unexpected_end,
  duplicate_msgid,
}
use node_fast.Server.Lifecycle.{conn_terminate, request_fail}
use node_fast.Server.Messages.{
  register, invoke, start_call, start_request, dispatch, on_message, call_of, bad_data, bad_method,
}
use node_fast.Server.Api.{conn_create, accept}
use node_fast.Server.Invariant.{IsConsistent}
use node_fast.Server.Invariant.Updates.{update_cases, update_self}
use node_fast.Server.Effects.{one_if, serving, as_list, Effect, still-Effect}
use node_fast.Server.Effects.Still.{Still, conn_terminate-Still}
use node_fast.Server.Effects.Answering.{no_credit, Affects}
use node_fast.Server.Effects.Ending.{pending_fail-Affects}

-- The identifier of a message that is read.
abbrev pub credit_of : Message → ℕ → ℕ
credit_of m k = one_if (m.msgid == k)

pub Still-Affects : (credit : ℕ → ℕ) (h : ℕ) (s t : Server) → Still s t → Affects credit h s t
Still-Affects credit h s t e = still-Effect credit _ _ (e h).0 (e h).1

grown_table :
    (j k id : ℕ) (p : Map ℕ)
    → one_if (has_own_property k (insert j id p)) ≤ one_if (has_own_property k p) + one_if (j == k)
grown_table j k id p = ground (arith, lookup-insert j k id p)

-- There is credit for the identifier that is registered.
abbrev Covers : (ℕ → ℕ) → ℕ → ℕ → Message → Server → Type 0
Covers credit h c m s =
    (k : ℕ) → serving k ((register c m s).connections h) ≤ serving k (s.connections h) + credit k

own_credit : (h c : ℕ) (m : Message) (s : Server) → Covers (credit_of m) h c m s
own_credit h c m s k =
    update_cases (λ i x. serving k x ≤ serving k (s.connections i) + one_if (m.msgid == k))
      s.connections c _ h (λ _. grown_table m.msgid k s.nrequests (s.connections c).pending)
      (λ _. omega arith)

elsewhere : (h c : ℕ) (m : Message) (s : Server) → h ≢ c → Covers no_credit h c m s
elsewhere h c m s ne k =
    update_cases (λ i x. i ≢ c → serving k x ≤ serving k (s.connections i) + 0) s.connections c _ h
      (λ _ no. absurd (no refl)) (λ _ _. omega arith) ne

-- A registered request uses the credit.
registered-Affects :
    (credit : ℕ → ℕ) (h c : ℕ) (m : Message) (s t u : Server)
    → Covers credit h c m s
    → t.connections ≡ (register c m s).connections
    → Affects no_credit h t u
    → Affects credit h s u
registered-Affects credit h c m s t u room same e =
    let out : ((register c m s).connections h).outgoing ≡ (s.connections h).outgoing =
      update_cases (λ i x. x.outgoing ≡ (s.connections i).outgoing) s.connections c _ h (λ _. refl)
        (λ _. refl) in
    let serves : (k : ℕ)
        → serving k (t.connections h) ≡ serving k ((register c m s).connections h) =
      λ k. ap (λ f. serving k (f h)) same in
    record {
      sent = e.sent;
      outgoing = e.outgoing ∙ ap (λ l. l ++ as_list e.sent) (ap (λ f. (f h).outgoing) same ∙ out);
      backed = λ k. omega (arith, e.backed k, serves k, room k);
      balanced = λ k. omega (arith, e.balanced k, serves k, room k);
    }

inserted : (j id : ℕ) (p : Map ℕ) → has_own_property j (insert j id p) ≡ true
inserted j id p = ground (arith, lookup-insert j j id p)

-- A new request that fails at once.
failed-Affects :
    (credit : ℕ → ℕ) (uts h c : ℕ) (m : Message) (e : RpcError) (r : Request) (s t : Server)
    → Covers credit h c m s
    → t.connections ≡ (register c m s).connections
    → t.requests s.nrequests ≡ r
    → r.msgid ≡ m.msgid
    → r.conn ≡ c
    → Whenever (Affects (credit) h s) (request_fail uts s.nrequests e t)
failed-Affects credit uts h c m e r s t room same mine id_eq conn_eq =
    let mine_id = ap (λ q. Request.msgid q) mine ∙ id_eq in
    let mine_conn = ap (λ q. Request.conn q) mine ∙ conn_eq in
    let table : (t.connections c).pending ≡ insert m.msgid s.nrequests (s.connections c).pending =
      ap (λ f. (f c).pending) same
      ∙ ap (λ x. Connection.pending x) (update_self s.connections c _) in
    let own : has_own_property (t.requests s.nrequests).msgid
          (t.connections (t.requests s.nrequests).conn).pending
        ≡ true =
      rw (mine_id, mine_conn, table) (inserted m.msgid s.nrequests (s.connections c).pending) in
    Whenever-mono (Affects no_credit h t) (Affects (credit) h s) (request_fail uts s.nrequests e t)
      (pending_fail-Affects uts s.nrequests h e t own)
      (λ u. registered-Affects credit h c m s t u room same)

start_call-Affects :
    (credit : ℕ → ℕ) (uts h c : ℕ) (m : Message) (name : String) (args : Items) (s : Server)
    → Covers credit h c m s
    → Whenever (Affects (credit) h s) (start_call uts s.nrequests m (name, args) (register c m s))
start_call-Affects credit uts h c m name args s room =
    let t = register c m s in
    let q = record (t.requests s.nrequests) { rpcmethod = some name; rpcargs = args } in
    let u = put_request s.nrequests q t in
    let first = update_self s.requests s.nrequests (new_request c m) in
    let mine = update_self t.requests s.nrequests q in
    cases-Whenever (Affects (credit) h s) (t.handlers name) _ _
      (λ _.
        failed-Affects credit uts h c m (bad_method name m) q s u room refl mine
          (ap (λ x. Request.msgid x) first) (ap (λ x. Request.conn x) first))
      (λ f _.
        registered-Affects credit h c m s t (invoke s.nrequests name f u) room refl
          (still-Effect no_credit _ _ refl refl))

start_request-Affects :
    (credit : ℕ → ℕ) (uts connid h c : ℕ) (m : Message) (s : Server)
    → Covers credit h c m s
    → Whenever (Affects (credit) h s) (start_request uts connid c m s)
unfolding start_request
start_request-Affects credit uts connid h c m s room =
    assert-Whenever (Affects (credit) h s) (is_object m.payload) _ (
      cases-Whenever (Affects (credit) h s) (call_of m.payload) _ _
        (λ _.
          failed-Affects credit uts h c m (bad_data connid m) (new_request c m) s (register c m s)
            room refl (update_self s.requests s.nrequests (new_request c m)) refl refl)
        (λ call _. start_call-Affects credit uts h c m call.0 call.1 s room))

dispatch-Affects :
    (credit : ℕ → ℕ) (uts connid h c : ℕ) (m : Message) (s : Server)
    → Covers credit h c m s
    → Whenever (Affects (credit) h s) (dispatch uts connid c m s)
unfolding dispatch
dispatch-Affects credit uts connid h c m s room =
    let P = Affects (credit) h s in
    if-Whenever P (m.status == status_end) _ _ (terminated unexpected_end) (
      if-Whenever P (m.status == status_error) _ _ (still-Effect (credit) _ _ refl refl) (
        assert-Whenever P (m.status == status_data) _ (
          if-Whenever P (has_own_property m.msgid (s.connections c).pending) _ _
            (terminated (duplicate_msgid m.msgid))
            (start_request-Affects credit uts connid h c m s room))))
  where
    terminated : (fault : ConnFault) → Whenever (Affects (credit) h s) (conn_terminate c fault s)
    terminated fault =
        Whenever-mono (Still s) (Affects (credit) h s) (conn_terminate c fault s)
          (conn_terminate-Still c fault s) (Still-Affects (credit) h s)

-- A message that is read on some connection.
any_message-Affects :
    (credit : ℕ → ℕ) (uts connid h : ℕ) (m : Message) (s : Server)
    → ((c : ℕ) → lookup connid s.conns ≡ some c → Covers credit h c m s)
    → Whenever (Affects credit h s) (on_message uts connid m s)
unfolding on_message
any_message-Affects credit uts connid h m s room =
    let P = Affects credit h s in
    assert-Whenever P (not (connid == 0)) _ (
      cases-Whenever P (lookup connid s.conns) _ _ (λ _. still-Effect credit _ _ refl refl)
        (λ c e.
          if-Whenever P ((s.connections c).is_ended || (s.connections c).socket_error) _ _
            (still-Effect credit _ _ refl refl)
            (dispatch-Affects credit uts connid h c m s (room c e))))

-- A message that is read on this connection.
pub on_message-Affects :
    (uts connid h : ℕ) (m : Message) (s : Server)
    → Whenever (Affects (credit_of m) h s) (on_message uts connid m s)
on_message-Affects uts connid h m s =
    any_message-Affects (credit_of m) uts connid h m s (λ c _. own_credit h c m s)

-- A message that is read on another connection.
pub other_message-Affects :
    (uts connid h : ℕ) (m : Message) (s : Server)
    → IsConsistent s
    → connid ≢ (s.connections h).connid
    → Whenever (Affects no_credit h s) (on_message uts connid m s)
other_message-Affects uts connid h m s v ne = any_message-Affects no_credit uts connid h m s (λ c e.
    elsewhere h c m s (λ same.
      ne (sym (v.conns_entry connid c e).1 ∙ ap (λ i. (s.connections i).connid) (sym same))))

created :
    (sock : Socket) (h connid : ℕ) (alloc : IdAllocator) (s : Server)
    → h ≢ s.nconnections
    → Affects no_credit h s (accept connid sock (record s { connallocator = alloc }))
created sock h connid alloc s old =
    update_cases (λ i x. i ≢ s.nconnections → Effect no_credit (s.connections i) x) s.connections
      s.nconnections _ h (λ _ ne. absurd (ne refl)) (λ _ _. still-Effect no_credit _ _ refl refl)
      old

anything : (m : Outcome (ℕ × IdAllocator)) → Whenever (λ _. Unit {0}) m
anything (ok r) = tt
anything (throw x) = tt

-- A new connection does not touch another one.
pub conn_create-Affects :
    (sock : Socket) (h : ℕ) (s : Server)
    → h ≢ s.nconnections
    → Whenever (Affects no_credit h s) (conn_create sock s)
unfolding conn_create
conn_create-Affects sock h s old =
    let P = Affects no_credit h s in
    bind-Whenever (λ _. Unit {0}) P
      (IdAllocator.alloc s.connallocator (λ id. has_own_property id s.conns)) _ (anything _)
      (λ r _. assert-Whenever P (not (r.0 == 0)) _ (
        assert-Whenever P (not (has_own_property r.0 s.conns)) _
          (if-Whenever P s.is_closed (throw assertion) _ tt (created sock h r.0 r.1 s old))))
