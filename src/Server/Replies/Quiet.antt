-- ===== src/Server/Replies/Quiet.antt =====
-- Which of the server's steps in lib/fast_server.js send nothing: `connDrain` and
-- `requestCleanup`.
use node_fast.Base.{
  ℕ, ◌≡◌, String, refl, ◌∙◌, Bool, true, false, Option, none, some, is_some, is_none, ◌+◌, ◌==◌,
  if◌then◌else◌, Whenever, Whenever-mono, assert-Whenever, if-Whenever, arith,
}
use node_fast.Base.Map.{erase}
use node_fast.Server.State.{Connection, Server, put_connection}
use node_fast.Server.Lifecycle.{
  close_pipeline, run_callbacks, conn_drain, count_handler, count_connection, request_cleanup,
}
use node_fast.Server.Invariant.Updates.{update_cases}

-- The requests, and what each connection has sent and has pending, stay as they were.
abbrev pub Quiet : Server → Server → Type 0
Quiet s t =
    (t.requests ≡ s.requests)
    × ((j : ℕ)
        → ((t.connections j).pending ≡ (s.connections j).pending)
          × ((t.connections j).outgoing ≡ (s.connections j).outgoing))

pub Quiet-trans : (s t u : Server) → Quiet s t → Quiet t u → Quiet s u
Quiet-trans s t u (e, f) (g, k) = (g ∙ e, λ j. ((k j).0 ∙ (f j).0, (k j).1 ∙ (f j).1))

pub put-Quiet :
    (s : Server) (h : ℕ) (c : Connection)
    → c.pending ≡ (s.connections h).pending
    → c.outgoing ≡ (s.connections h).outgoing
    → Quiet s (put_connection h c s)
put-Quiet s h c e f = (
  refl,
  λ j.
      update_cases
        (λ i x. (x.pending ≡ (s.connections i).pending) × (x.outgoing ≡ (s.connections i).outgoing))
        s.connections h c j (λ _. (e, f)) (λ _. (refl, refl)),
)

if-Quiet :
    (s : Server) (b : Bool) (x y : Server) → Quiet s x → Quiet s y → Quiet s (if b then x else y)
if-Quiet s true x y v w = v
if-Quiet s false x y v w = w

same-Quiet : (s : Server) → Quiet s s
same-Quiet s = (refl, λ j. (refl, refl))

close_pipeline-Quiet : (h : ℕ) (s : Server) → Quiet s (close_pipeline h s)
close_pipeline-Quiet h s =
    if-Quiet s (s.connections h).socket_error _ _ (put-Quiet s h _ refl refl) (
      if-Quiet s (is_none (s.connections h).server_error) _ s (put-Quiet s h _ refl refl)
        (same-Quiet s))

run_callbacks-Quiet : (s : Server) → Quiet s (run_callbacks s)
run_callbacks-Quiet s = if-Quiet s _ _ s (same-Quiet s) (same-Quiet s)

pub conn_drain-Quiet : (h : ℕ) (s : Server) → Whenever (Quiet s) (conn_drain h s)
unfolding conn_drain
conn_drain-Quiet h s =
    let t = record s { conns = erase (s.connections h).connid s.conns } in
    let waits : Quiet s (put_connection h (record (s.connections h) { draining = true }) s) =
      put-Quiet s h _ refl refl in
    let ends : Quiet s (run_callbacks (close_pipeline h t)) =
      Quiet-trans s (close_pipeline h t) (run_callbacks (close_pipeline h t))
        (close_pipeline-Quiet h t) (run_callbacks-Quiet (close_pipeline h t)) in
    search (assert-Whenever, if-Whenever, waits, ends)

count_handler-Quiet : (o : Option String) (b : Bool) (s : Server) → Quiet s (count_handler o b s)
count_handler-Quiet none b s = same-Quiet s
count_handler-Quiet (some name) b s = same-Quiet s

-- The request is taken out of its connection's table, and nothing is sent.
abbrev pub Released : ℕ → Server → Server → Type 0
Released id s t =
    let r = s.requests id in
    (t.requests ≡ s.requests)
    × ((j : ℕ)
        → ((t.connections j).pending ≡ (
            if j == r.conn
            then erase r.msgid (s.connections j).pending
            else (s.connections j).pending))
          × ((t.connections j).outgoing ≡ (s.connections j).outgoing))

Released-Quiet : (id : ℕ) (s t u : Server) → Released id s t → Quiet t u → Released id s u
Released-Quiet id s t u (same, kept) (e, f) =
    (e ∙ same, λ j. ((f j).0 ∙ (kept j).0, (f j).1 ∙ (kept j).1))

counted-Released :
    (id : ℕ) (s : Server) (b : Bool) (completed nfailed : ℕ)
    → Released id s
        (record (put_connection
          (s.requests id).conn
          (count_connection b (s.requests id) (s.connections (s.requests id).conn))
          s) { nrequests_completed = completed; nrequests_failed = nfailed })
counted-Released id s b completed nfailed =
    let r = s.requests id in
    (
      refl,
      λ j.
          update_cases
            (λ i x.
              (x.pending ≡ (
                if i == r.conn
                then erase r.msgid (s.connections i).pending
                else (s.connections i).pending))
              × (x.outgoing ≡ (s.connections i).outgoing))
            s.connections r.conn (count_connection b r (s.connections r.conn)) j
            (λ _. (ground arith, refl)) (λ ne. (ground arith, refl)),
    )

pub request_cleanup-Released :
    (id : ℕ) (s : Server) → Whenever (Released id s) (request_cleanup id s)
unfolding request_cleanup
request_cleanup-Released id s =
    let r = s.requests id in
    let b = is_some r.error in
    let t = record (put_connection r.conn (count_connection b r (s.connections r.conn)) s) {
      nrequests_completed = s.nrequests_completed + 1;
      nrequests_failed = s.nrequests_failed + (if b then 1 else 0);
    } in
    let u = count_handler r.handler b t in
    let done : Released id s u =
      Released-Quiet id s t u (counted-Released id s b t.nrequests_completed t.nrequests_failed)
        (count_handler-Quiet r.handler b t) in
    let drained : Whenever (Released id s) (conn_drain r.conn u) =
      Whenever-mono (Quiet u) (Released id s) (conn_drain r.conn u) (conn_drain-Quiet r.conn u)
        (λ v. Released-Quiet id s u v done) in
    search (assert-Whenever, if-Whenever, done, drained)
