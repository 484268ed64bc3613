-- ===== src/Server/Effects/Ending.antt =====
-- The end of a reply in lib/fast_server.js, as it changes one connection.
use node_fast.Base.{
  ℕ, ◌+◌, ◌<◌, ◌≤◌, ◌≡◌, ◌≢◌, refl, sym, ap, ◌∙◌, subst, inl, inr, Bool, true, false, ◌&&◌,
  Bool-cases, Option, none, some, List, [], ◌∷◌, ◌++◌, ◌==◌, if◌then◌else◌, append-nil, Whenever,
  assert-Whenever, Whenever-mono, arith,
}
use node_fast.Base.Map.{Map, has_own_property, erase, lookup-erase}
use node_fast.Protocol.{Message}
use node_fast.Server.State.{Request, RpcError, Server, complete, put_request}
use node_fast.Server.Response.{is_running, write, end_message, error_message, encoder_flush}
use node_fast.Server.Lifecycle.{request_cleanup, request_complete, request_fail}
use node_fast.Server.Api.{context_end}
use node_fast.Server.Invariant.{IsConsistent}
use node_fast.Server.Invariant.Updates.{update_cases, update_self}
use node_fast.Server.Replies.Quiet.{Released, request_cleanup-Released}
use node_fast.Server.Effects.{one_if, mentions, finals, as_list}
use node_fast.Server.Effects.Answering.{no_credit, Affects, backed_by, held}

-- The last message of a request, if it is sent: it is on the request's connection.
record IsLast (h c j : ℕ) (o : Option Message) (s t : Server) : Type 0 where
  pending_eq : (t.connections h).pending ≡ (s.connections h).pending
  outgoing_eq : (t.connections h).outgoing ≡ (s.connections h).outgoing ++ as_list o
  own_msgid : (k : ℕ) → mentions k (as_list o) ≤ one_if (h == c && j == k)

finals-mentions : (k : ℕ) (ms : List Message) → finals k ms ≤ mentions k ms
finals-mentions k [] = omega arith
finals-mentions k (m ∷ ms) = ground (arith, finals-mentions k ms)

-- An identifier that is taken out of the table makes room for one message.
taken_out :
    (k j n f : ℕ) (p : Map ℕ)
    → has_own_property j p ≡ true
    → f ≤ n
    → n ≤ one_if (true && j == k)
    → one_if (has_own_property k (erase j p)) + f ≤ one_if (has_own_property k p) + 0
taken_out k j n f p own le few = elim (Bool-cases (j == k)) [
  | inr e ↦ ground (arith, lookup-erase j k p)
  | inl e ↦
      let same : j ≡ k = ground arith in
      let here : has_own_property k p ≡ true = subst (λ i. has_own_property i p ≡ true) same own in
      ground (arith, lookup-erase j k p)
]

released-Effect :
    (h : ℕ) (r : Request) (o : Option Message) (s t u : Server) (here : Bool)
    → (h == r.conn) ≡ here
    → has_own_property r.msgid (s.connections r.conn).pending ≡ true
    → IsLast h r.conn r.msgid o s t
    → ((u.connections h).pending
        ≡ (if here then erase r.msgid (t.connections h).pending else (t.connections h).pending))
    → ((u.connections h).outgoing ≡ (t.connections h).outgoing)
    → Affects no_credit h s u
released-Effect h r o s t u true e own l gone sent =
    let same : h ≡ r.conn = ground arith in
    let mine =
      subst (λ j. has_own_property r.msgid (s.connections j).pending ≡ true) (sym same) own in
    let few : (k : ℕ) → mentions k (as_list o) ≤ one_if (true && r.msgid == k) =
      λ k. subst (λ b. mentions k (as_list o) ≤ one_if (b && r.msgid == k)) e (l.own_msgid k) in
    record {
      sent = o;
      outgoing = sent ∙ l.outgoing_eq;
      backed = λ k. omega (arith, few k, backed_by r.msgid k (s.connections h).pending mine);
      balanced = λ k.
          rw (gone, l.pending_eq)
            (taken_out k r.msgid _ _ (s.connections h).pending mine (finals-mentions k (as_list o))
              (few k));
    }
released-Effect h r o s t u false e own l gone sent =
    let few : (k : ℕ) → mentions k (as_list o) ≤ one_if (false && r.msgid == k) =
      λ k. subst (λ b. mentions k (as_list o) ≤ one_if (b && r.msgid == k)) e (l.own_msgid k) in
    record {
      sent = o;
      outgoing = sent ∙ l.outgoing_eq;
      backed = λ k. omega (arith, few k);
      balanced = λ k. rw (gone, l.pending_eq) (omega (arith, few k, finals-mentions k (as_list o)));
    }

-- The request `r` is complete and taken out.
cleanup-Affects :
    (h id : ℕ) (r : Request) (o : Option Message) (s t : Server)
    → has_own_property r.msgid (s.connections r.conn).pending ≡ true
    → IsLast h r.conn r.msgid o s t
    → Whenever (Affects no_credit h s) (request_cleanup id (put_request id r t))
cleanup-Affects h id r o s t own l =
    let w = put_request id r t in
    let here = update_self t.requests id r in
    Whenever-mono (Released id w) (Affects no_credit h s) (request_cleanup id w)
      (request_cleanup-Released id w)
      (λ u q.
        let (gone, sent) = q.1 h in
        let gone_eq : (u.connections h).pending ≡ (
            if h == r.conn
            then erase r.msgid (t.connections h).pending
            else (t.connections h).pending) =
          gone
          ∙ ap
              (λ x.
                if h == Request.conn x
                then erase (Request.msgid x) (t.connections h).pending
                else (t.connections h).pending)
              here in
        released-Effect h r o s t u (h == r.conn) refl own l gone_eq sent)

-- The server before and after the last message is written.
unsent-IsLast : (h c j : ℕ) (s : Server) → IsLast h c j none s s
unsent-IsLast h c j s = record {
  pending_eq = refl;
  outgoing_eq = sym (append-nil (s.connections h).outgoing);
  own_msgid = λ k. omega arith;
}

written_pending :
    (h : ℕ) (r : Request) (m : Message) (s : Server)
    → ((write r.conn m s).connections h).pending ≡ (s.connections h).pending
written_pending h r m s =
    update_cases (λ i x. x.pending ≡ (s.connections i).pending) s.connections r.conn _ h (λ _. refl)
      (λ _. refl)

sent-IsLast :
    (h : ℕ) (r : Request) (m : Message) (s : Server)
    → m.msgid ≡ r.msgid
    → (o : Option Message) × IsLast h r.conn r.msgid o s (write r.conn m s)
sent-IsLast h r m s e = elim (Bool-cases (h == r.conn)) [
  | inl f ↦
      let same : h ≡ r.conn = ground arith in
      (
        some m,
        record {
          pending_eq = written_pending h r m s;
          outgoing_eq =
              update_cases (λ i x. i ≡ r.conn → x.outgoing ≡ (s.connections i).outgoing ++ m ∷ [])
                s.connections r.conn _ h (λ _ _. refl) (λ ne again. absurd (ne again)) same;
          own_msgid = λ k. rw (f, e) (omega arith);
        },
      )
  | inr f ↦ (
    none,
    record {
      pending_eq = written_pending h r m s;
      outgoing_eq =
          update_cases (λ i x. i ≢ r.conn → x.outgoing ≡ (s.connections i).outgoing ++ [])
            s.connections r.conn _ h (λ _ ne. absurd (ne refl))
            (λ _ _. sym (append-nil (s.connections h).outgoing)) (ground arith);
      own_msgid = λ k. omega arith;
    },
  )
]

-- The last message is sent if the request's encoder is still linked to the connection.
flushed-IsLast :
    (uts h id : ℕ) (s : Server)
    → (o : Option Message) × IsLast h
        (s.requests id).conn
        (s.requests id).msgid
        o
        s
        (if (s.requests id).blackhole then s else encoder_flush uts id s)
unfolding encoder_flush
flushed-IsLast uts h id s =
    flushed (s.requests id).blackhole (is_running (s.requests id).state) (s.requests id).attached
  where
    flushed :
        (b c a : Bool)
        → (o : Option Message) × IsLast h (s.requests id).conn (s.requests id).msgid o s (
            if b
            then s
            else if c
            then (if a then write (s.requests id).conn (end_message uts (s.requests id)) s else s)
            else s)
    flushed true c a = (none, unsent-IsLast h (s.requests id).conn (s.requests id).msgid s)
    flushed false false a = (none, unsent-IsLast h (s.requests id).conn (s.requests id).msgid s)
    flushed false true false = (none, unsent-IsLast h (s.requests id).conn (s.requests id).msgid s)
    flushed false true true = sent-IsLast h (s.requests id) (end_message uts (s.requests id)) s refl

flushed-requests :
    (uts id : ℕ) (s : Server)
    → (if (s.requests id).blackhole then s else encoder_flush uts id s).requests ≡ s.requests
unfolding encoder_flush
flushed-requests uts id s = ground arith

-- The end of the context.
pub context_end-Affects :
    (uts id h : ℕ) (s : Server)
    → IsConsistent s
    → id < s.nrequests
    → is_running (s.requests id).state ≡ true
    → Whenever (Affects no_credit h s) (context_end uts id s)
unfolding context_end request_complete
context_end-Affects uts id h s v made runs =
    let u = if (s.requests id).blackhole then s else encoder_flush uts id s in
    let same : s.requests id ≡ u.requests id = ap (λ rs. rs id) (sym (flushed-requests uts id s)) in
    let (o, l) = flushed-IsLast uts h id s in
    let own =
      subst
        (λ q. has_own_property (Request.msgid q) (s.connections (Request.conn q)).pending ≡ true)
        same (held id s v made runs) in
    let last = subst (λ q. IsLast h (Request.conn q) (Request.msgid q) o s u) same l in
    assert-Whenever (Affects no_credit h s) (is_running (u.requests id).state) _
      (cleanup-Affects h id (record (u.requests id) { state = complete }) o s u own last)

-- The failure of a request that is pending.
pub pending_fail-Affects :
    (uts id h : ℕ) (e : RpcError) (s : Server)
    → has_own_property (s.requests id).msgid (s.connections (s.requests id).conn).pending ≡ true
    → Whenever (Affects no_credit h s) (request_fail uts id e s)
unfolding request_fail
pending_fail-Affects uts id h e s own =
    let r = record (s.requests id) { error = some e; state = complete; attached = false } in
    let m = error_message uts r e in
    let (o, l) = sent-IsLast h r m s refl in cleanup-Affects h id r o s (write r.conn m s) own l

-- The failure of a request that runs.
pub request_fail-Affects :
    (uts id h : ℕ) (e : RpcError) (s : Server)
    → IsConsistent s
    → id < s.nrequests
    → is_running (s.requests id).state ≡ true
    → Whenever (Affects no_credit h s) (request_fail uts id e s)
request_fail-Affects uts id h e s v made runs =
    pending_fail-Affects uts id h e s (held id s v made runs)
