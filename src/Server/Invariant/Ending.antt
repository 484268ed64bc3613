-- ===== src/Server/Invariant/Ending.antt =====
-- `requestDisconnect` and `connDisconnectRequests` of lib/fast_server.js on a valid server.
use node_fast.Base.{
  ℕ, ◌<◌, ◌≡◌, ◌≢◌, refl, sym, ap, ◌∙◌, subst, true, false, some, is_none, arith, ok, ◌∷◌, [],
  ◌>>=◌,
}
use node_fast.Base.Map.{Map, lookup, Sorted, Above-Sorted, lookup-Above}
use node_fast.Server.State.{Request, Connection, Server, update, put_request, put_connection}
use node_fast.Server.Response.{is_running}
use node_fast.Server.Lifecycle.{
  request_disconnect, disconnect_each, disconnect_requests, destroy_socket,
}
use node_fast.Server.Invariant.{is_sound, IsEntry, IsHeld, IsConsistent}
use node_fast.Server.Invariant.Updates.{update_cases, update_self, flags-IsConsistent}

-- The request after it has been cut off from its connection.
abbrev cut_off : Request → Request
cut_off r = record r { attached = false; blackhole = true }

request_disconnect-eq :
    (id : ℕ) (s : Server)
    → is_running (s.requests id).state ≡ true
    → is_none (s.requests id).error ≡ true
    → (s.requests id).blackhole ≡ false
    → request_disconnect id s ≡ ok (put_request id (cut_off (s.requests id)) s)
unfolding request_disconnect
request_disconnect-eq id s runs clean open_pipe = ground arith

cut_off-IsConsistent :
    (s : Server) (h id : ℕ)
    → IsConsistent s
    → (s.requests id).conn ≡ h
    → is_sound (s.connections h) ≡ false
    → IsConsistent (put_request id (cut_off (s.requests id)) s)
cut_off-IsConsistent s h id v at_h torn = record {
  alloc_ok = v.alloc_ok;
  alloc_min = v.alloc_min;
  alloc_max = v.alloc_max;
  conns_sorted = v.conns_sorted;
  conns_entry = v.conns_entry;
  connection = λ j made.
      let c = v.connection j made in
      record {
        pending_sorted = c.pending_sorted;
        counted = c.counted;
        active = c.active;
        entries = λ k i e.
            let old = c.entries k i e in
            update_cases (λ n r. IsEntry s.nrequests j k n (is_sound (s.connections j)) r)
              s.requests id (cut_off (s.requests id)) i
              (λ same.
                let mine =
                  subst (λ n. IsEntry s.nrequests j k n (is_sound (s.connections j)) (s.requests n))
                    same old in
                record {
                  made = mine.made;
                  msgid_eq = mine.msgid_eq;
                  conn_eq = mine.conn_eq;
                  runs = mine.runs;
                  clean = mine.clean;
                  piped = λ still.
                      let here : j ≡ h = sym mine.conn_eq ∙ at_h in
                      absurd (cc (still, ap (λ n. is_sound (s.connections n)) here, torn));
                })
              (λ _. old);
      };
  running = λ i made runs.
      update_cases
        (λ n r.
          is_running r.state ≡ true → n < s.nrequests → IsHeld s.nconnections n s.connections r)
        s.requests id (cut_off (s.requests id)) i
        (λ _ runs' made'.
          let old = v.running id made' runs' in
          record { conn_made = old.conn_made; held = old.held })
        (λ _ runs' made'. v.running i made' runs') runs made;
}

-- The loop over the pending requests of a connection that is being torn down.
disconnect_each-IsConsistent :
    (rest : Map ℕ) (s : Server) (h : ℕ)
    → IsConsistent s
    → Sorted rest
    → is_sound (s.connections h) ≡ false
    → ((k id : ℕ) → lookup k rest ≡ some id → IsEntry s.nrequests h k id true (s.requests id))
    → (rs : ℕ → Request) × (disconnect_each rest s ≡ ok (record s { requests = rs }))
      × IsConsistent (record s { requests = rs })
unfolding disconnect_each lookup
disconnect_each-IsConsistent [] s h v sorted torn entries = (s.requests, refl, v)
disconnect_each-IsConsistent ((k, id) ∷ rest) s h v sorted torn entries =
    let mine = entries k id (ground arith) in
    let t = put_request id (cut_off (s.requests id)) s in
    let (rs, e, w) =
      disconnect_each-IsConsistent rest t h (cut_off-IsConsistent s h id v mine.conn_eq torn)
        (Above-Sorted k rest sorted) torn (later mine) in
    (rs, first mine rs e, w)
  where
    later :
        IsEntry s.nrequests h k id true (s.requests id)
        → (j i : ℕ) → lookup j rest ≡ some i
        → IsEntry s.nrequests h j i true (update s.requests id (cut_off (s.requests id)) i)
    later mine j i f =
        let ne : j ≢ k = λ same.
          cc (f, ap (λ n. lookup n rest) same, lookup-Above k k rest sorted (omega arith)) in
        let old = entries j i (ground (arith, ne)) in
        update_cases (λ n r. IsEntry s.nrequests h j n true r) s.requests id
          (cut_off (s.requests id)) i
          (λ same.
            absurd (ne (sym old.msgid_eq ∙ ap (λ n. (s.requests n).msgid) same ∙ mine.msgid_eq)))
          (λ _. old)

    first :
        IsEntry s.nrequests h k id true (s.requests id)
        → (rs : ℕ → Request)
        → disconnect_each rest (put_request id (cut_off (s.requests id)) s)
          ≡ ok (record s { requests = rs })
        → (request_disconnect id s >>= disconnect_each rest) ≡ ok (record s { requests = rs })
    first mine rs e = rw (request_disconnect-eq id s mine.runs mine.clean (mine.piped refl)) e

-- `connDisconnectRequests` on a connection that has just been found broken.
pub disconnect_requests-IsConsistent :
    (s : Server) (h : ℕ) (c : Connection)
    → IsConsistent s
    → h < s.nconnections
    → c.connid ≡ (s.connections h).connid
    → c.pending ≡ (s.connections h).pending
    → c.nstarted ≡ (s.connections h).nstarted
    → c.ncompleted ≡ (s.connections h).ncompleted
    → is_sound (s.connections h) ≡ true
    → is_sound c ≡ false
    → (t : Server) × (disconnect_requests h (put_connection h c s) ≡ ok t)
      × IsConsistent t
      × ((t.connections h).connid ≡ (s.connections h).connid)
      × (t.conns ≡ s.conns)
      × (t.nconnections ≡ s.nconnections)
unfolding disconnect_requests
disconnect_requests-IsConsistent s h c v made same_id same_pending same_started same_completed sound
      torn =
    let w =
      flags-IsConsistent s h c v same_id same_pending same_started same_completed (λ _. sound) in
    let here = update_self s.connections h c in
    let old = v.connection h made in
    let (rs, e, x) =
      disconnect_each-IsConsistent (s.connections h).pending (put_connection h c s) h w
        old.pending_sorted (ap is_sound here ∙ torn)
        (λ k id f.
          subst (λ b. IsEntry s.nrequests h k id b (s.requests id)) sound (old.entries k id f)) in
    let u = record s { requests = rs; connections = update s.connections h c } in
    let pending_eq = ap (λ q. Connection.pending q) here ∙ same_pending in
    (
      destroy_socket h u,
      ap (λ p. disconnect_each p (put_connection h c s) >>= λ t. ok (destroy_socket h t)) pending_eq
          ∙ rw e refl,
      flags-IsConsistent u h _ x refl refl refl refl (λ q. q),
      ap (λ q. Connection.connid q) (update_self u.connections h _)
          ∙ ap (λ q. Connection.connid q) here
          ∙ same_id,
      refl,
      refl,
    )
