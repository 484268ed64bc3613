-- ===== src/Server/Invariant/Settling.antt =====
-- A request of lib/fast_server.js that is taken out of its connection on a valid server, and
-- counted.
use node_fast.Base.{
  ℕ, ◌+◌, ◌<◌, ◌≡◌, ◌≢◌, sym, ap, ◌∙◌, subst, Bool, true, some, if◌then◌else◌, arith,
}
use node_fast.Base.Map.{lookup, lookup-erase, erase-Sorted, length-erase}
use node_fast.Server.State.{Request, Connection, Server, update, put_request, put_connection}
use node_fast.Server.Response.{is_running, is_complete}
use node_fast.Server.Lifecycle.{count_connection}
use node_fast.Server.Invariant.{is_sound, IsEntry, IsConnection, IsHeld, IsConsistent}
use node_fast.Server.Invariant.Updates.{update_cases, update_self, counters-IsConsistent}

-- The server after a request is done, before the connection drains.
abbrev pub cleaned : ℕ → Bool → Request → Server → Server
cleaned id has_failed r s =
    put_connection r.conn (count_connection has_failed r (s.connections r.conn))
      (put_request id r s)

module _ (s : Server) (id : ℕ) (r : Request) (has_failed : Bool) (v : IsConsistent s)
    (made : id < s.nrequests) (runs : is_running (s.requests id).state ≡ true)
    (same_msgid : r.msgid ≡ (s.requests id).msgid) (same_conn : r.conn ≡ (s.requests id).conn)
    (over : is_complete r.state ≡ true) where
  pub own : lookup r.msgid (s.connections r.conn).pending ≡ some id
  own =
      ap (λ k. lookup k (s.connections r.conn).pending) same_msgid
      ∙ ap (λ h. lookup (s.requests id).msgid (s.connections h).pending) same_conn
      ∙ (v.running id made runs).held

  pub conn_made : r.conn < s.nconnections
  conn_made = subst (λ h. h < s.nconnections) (sym same_conn) (v.running id made runs).conn_made

  -- An entry that does not name the request still holds.
  other-IsEntry :
      (h k i : ℕ)
      → k ≢ r.msgid
      → IsEntry s.nrequests h k i (is_sound (s.connections h)) (s.requests i)
      → IsEntry s.nrequests h k i (is_sound (s.connections h)) (update s.requests id r i)
  other-IsEntry h k i ne old =
      update_cases (λ n x. IsEntry s.nrequests h k n (is_sound (s.connections h)) x) s.requests id r
        i
        (λ same.
          absurd (ne (sym old.msgid_eq ∙ ap (λ n. (s.requests n).msgid) same ∙ sym same_msgid)))
        (λ _. old)

  -- So does an entry of another connection.
  away-IsEntry :
      (h k i : ℕ)
      → h ≢ r.conn
      → IsEntry s.nrequests h k i (is_sound (s.connections h)) (s.requests i)
      → IsEntry s.nrequests h k i (is_sound (s.connections h)) (update s.requests id r i)
  away-IsEntry h k i ne old =
      update_cases (λ n x. IsEntry s.nrequests h k n (is_sound (s.connections h)) x) s.requests id r
        i
        (λ same. absurd (ne (sym old.conn_eq ∙ ap (λ n. (s.requests n).conn) same ∙ sym same_conn)))
        (λ _. old)

  abbrev counted_out : ℕ → Connection
  counted_out = update s.connections r.conn (count_connection has_failed r (s.connections r.conn))

  cleaned-IsConnection :
      (h : ℕ)
      → h < s.nconnections
      → IsConnection s.nrequests h
          (update s.requests id r)
          (counted_out h)
          (lookup (counted_out h).connid s.conns)
  cleaned-IsConnection h there =
      update_cases
        (λ j x. IsConnection s.nrequests j (update s.requests id r) x (lookup x.connid s.conns))
        s.connections r.conn (count_connection has_failed r (s.connections r.conn)) h
        (λ _.
          let c = v.connection r.conn conn_made in
          let fewer = length-erase r.msgid id (s.connections r.conn).pending c.pending_sorted own in
          record {
            pending_sorted = erase-Sorted r.msgid _ c.pending_sorted;
            counted = omega (arith, c.counted, fewer);
            active = λ _. c.active (omega (arith, fewer));
            entries = λ k i e.
                let gone = lookup-erase r.msgid k (s.connections r.conn).pending in
                let ne : k ≢ r.msgid = ground (arith, gone) in
                other-IsEntry r.conn k i ne (c.entries k i (ground (arith, gone)));
          })
        (λ ne.
          let c = v.connection h there in
          record {
            pending_sorted = c.pending_sorted;
            counted = c.counted;
            active = c.active;
            entries = λ k i e. away-IsEntry h k i ne (c.entries k i e);
          })

  -- Another request that is running is still held.
  other-IsHeld :
      (i : ℕ)
      → i < s.nrequests
      → is_running (s.requests i).state ≡ true
      → i ≢ id
      → IsHeld s.nconnections i counted_out (s.requests i)
  other-IsHeld i there goes ne =
      let old = v.running i there goes in
      record {
        conn_made = old.conn_made;
        held =
            update_cases (λ h x. lookup (s.requests i).msgid x.pending ≡ some i) s.connections
              r.conn (count_connection has_failed r (s.connections r.conn)) (s.requests i).conn
              (λ same.
                let here =
                  subst (λ h. lookup (s.requests i).msgid (s.connections h).pending ≡ some i) same
                    old.held in
                ground (
                  arith,
                  lookup-erase r.msgid (s.requests i).msgid (s.connections r.conn).pending,
                  own,
                ))
              (λ _. old.held);
      }

  cleaned-IsConsistent : IsConsistent (cleaned id has_failed r s)
  cleaned-IsConsistent = record {
    alloc_ok = v.alloc_ok;
    alloc_min = v.alloc_min;
    alloc_max = v.alloc_max;
    conns_sorted = v.conns_sorted;
    conns_entry = λ k j e.
        let old = v.conns_entry k j e in
        (
          old.0,
          update_cases (λ i x. x.connid ≡ k) s.connections r.conn
              (count_connection has_failed r (s.connections r.conn)) j
              (λ same. subst (λ i. (s.connections i).connid ≡ k) same old.1) (λ _. old.1),
        );
    connection = cleaned-IsConnection;
    running = λ i there goes.
        update_cases
          (λ n x.
            n < s.nrequests → is_running x.state ≡ true → IsHeld s.nconnections n counted_out x)
          s.requests id r i (λ _ _ x. absurd (ground arith)) (λ ne t x. other-IsHeld i t x ne) there
          goes;
  }

  -- The server after the counting.
  abbrev pub settled_state : Server
  settled_state = record (cleaned id has_failed r s) {
    nrequests_completed = s.nrequests_completed + 1;
    nrequests_failed = s.nrequests_failed + (if has_failed then 1 else 0);
  }

  pub settled-IsConsistent : IsConsistent settled_state
  settled-IsConsistent = counters-IsConsistent _ cleaned-IsConsistent _ _ _ _ _ _ _ _ _ _ _ _

  pub settled-active :
      lookup (settled_state.connections r.conn).connid settled_state.conns ≡ some r.conn
  settled-active =
      let c = v.connection r.conn conn_made in
      let fewer = length-erase r.msgid id (s.connections r.conn).pending c.pending_sorted own in
      ap (λ x. lookup x.connid s.conns)
        (update_self s.connections r.conn (count_connection has_failed r (s.connections r.conn)))
      ∙ c.active (omega (arith, fewer))
