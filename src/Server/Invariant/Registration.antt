-- ===== src/Server/Invariant/Registration.antt =====
-- A new request of lib/fast_server.js is registered.
use node_fast.Base.{
  ℕ, suc, ◌+◌, ◌<◌, ◌≡◌, sym, ap, ◌∙◌, subst, inl, inr, Bool, true, false, Bool-cases, none, some,
  is_none, ◌==◌, arith,
}
use node_fast.Base.Map.{lookup, insert, lookup-insert, insert-Sorted, length-insert}
use node_fast.Protocol.{Message}
use node_fast.Server.State.{Request, Connection, Server, update, put_request}
use node_fast.Server.Response.{is_running}
use node_fast.Server.Messages.{register}
use node_fast.Server.Invariant.{is_sound, IsEntry, IsConnection, IsHeld, IsConsistent}
use node_fast.Server.Invariant.Updates.{update_cases, update_self, update-update}

-- The server with a new request `r` for a message.
abbrev pub entered : ℕ → Message → Request → Server → Server
entered h m r s = record (register h m s) { requests = update s.requests s.nrequests r }

-- A write to the new request that is made of what it was.
pub put_entered :
    (h : ℕ) (m : Message) (r : Request) (s : Server) (f : Request → Request)
    → put_request s.nrequests (f (update s.requests s.nrequests r s.nrequests)) (entered h m r s)
      ≡ entered h m (f r) s
put_entered h m r s f =
    ap (λ q. put_request s.nrequests (f q) (entered h m r s)) (update_self s.requests s.nrequests r)
    ∙ ap (λ rs. record (register h m s) { requests = rs })
        (update-update s.requests s.nrequests r (f r))

module _ (s : Server) (h : ℕ) (m : Message) (r : Request) (v : IsConsistent s)
    (made : h < s.nconnections) (here : lookup (s.connections h).connid s.conns ≡ some h)
    (unused : lookup m.msgid (s.connections h).pending ≡ none) (same_msgid : r.msgid ≡ m.msgid)
    (same_conn : r.conn ≡ h) (runs : is_running r.state ≡ true) (clean : is_none r.error ≡ true)
    (piped : r.blackhole ≡ false) where
  abbrev grown : Connection
  grown = record (s.connections h) {
    nstarted = (s.connections h).nstarted + 1;
    pending = insert m.msgid s.nrequests (s.connections h).pending;
  }

  old-IsEntry :
      (j k i : ℕ) (sound : Bool)
      → IsEntry s.nrequests j k i sound (s.requests i)
      → IsEntry (suc s.nrequests) j k i sound (update s.requests s.nrequests r i)
  old-IsEntry j k i sound old =
      update_cases (λ n x. IsEntry (suc s.nrequests) j k n sound x) s.requests s.nrequests r i
        (λ same. absurd (omega (arith, old.made, same)))
        (λ _. record {
          made = omega (arith, old.made);
          msgid_eq = old.msgid_eq;
          conn_eq = old.conn_eq;
          runs = old.runs;
          clean = old.clean;
          piped = old.piped;
        })

  new-IsEntry :
      (sound : Bool)
      → IsEntry
          (suc s.nrequests)
          h
          m.msgid
          s.nrequests
          sound
          (update s.requests s.nrequests r s.nrequests)
  new-IsEntry sound =
      subst (IsEntry (suc s.nrequests) h m.msgid s.nrequests sound)
        (sym (update_self s.requests s.nrequests r))
        (record {
          made = omega arith;
          msgid_eq = same_msgid;
          conn_eq = same_conn;
          runs = runs;
          clean = clean;
          piped = λ _. piped;
        })

  grown-IsConnection :
      IsConnection
        (suc s.nrequests)
        h
        (update s.requests s.nrequests r)
        grown
        (lookup (s.connections h).connid s.conns)
  grown-IsConnection =
      let c = v.connection h made in
      let more_pending = length-insert m.msgid s.nrequests (s.connections h).pending unused in
      record {
        pending_sorted = insert-Sorted m.msgid s.nrequests _ c.pending_sorted;
        counted = omega (arith, c.counted, more_pending);
        active = λ _. here;
        entries = λ k i e.
            let found = lookup-insert m.msgid k s.nrequests (s.connections h).pending in
            elim (Bool-cases (k == m.msgid)) [
              | inr ne ↦ old-IsEntry h k i _ (c.entries k i (ground (arith, found)))
              | inl eq ↦
                  let same : k ≡ m.msgid = ground arith in
                  let new : i ≡ s.nrequests = ground (arith, found) in
                  let rs = update s.requests s.nrequests r in
                  subst (λ x. IsEntry (suc s.nrequests) h x i (is_sound grown) (rs i)) (sym same)
                    (subst (λ y. IsEntry (suc s.nrequests) h m.msgid y (is_sound grown) (rs y))
                      (sym new) (new-IsEntry (is_sound grown)))
            ];
      }

  grown-IsHeld :
      (i : ℕ)
      → i < s.nrequests
      → is_running (s.requests i).state ≡ true
      → IsHeld s.nconnections i (update s.connections h grown) (s.requests i)
  grown-IsHeld i there goes =
      let old = v.running i there goes in
      record {
        conn_made = old.conn_made;
        held =
            update_cases (λ j x. lookup (s.requests i).msgid x.pending ≡ some i) s.connections h
              grown (s.requests i).conn
              (λ same.
                let kept =
                  subst (λ j. lookup (s.requests i).msgid (s.connections j).pending ≡ some i) same
                    old.held in
                ground (
                  arith,
                  lookup-insert m.msgid (s.requests i).msgid s.nrequests (s.connections h).pending,
                  unused,
                ))
              (λ _. old.held);
      }

  new-IsHeld : IsHeld s.nconnections s.nrequests (update s.connections h grown) r
  new-IsHeld = record {
    conn_made = subst (λ j. j < s.nconnections) (sym same_conn) made;
    held =
        let found = lookup-insert m.msgid m.msgid s.nrequests (s.connections h).pending in
        let mine : lookup m.msgid grown.pending ≡ some s.nrequests = ground arith in
        ap (λ j. lookup r.msgid (update s.connections h grown j).pending) same_conn
        ∙ ap (λ c. lookup r.msgid (Connection.pending c)) (update_self s.connections h grown)
        ∙ ap (λ k. lookup k grown.pending) same_msgid
        ∙ mine;
  }

  pub entered-IsConsistent : IsConsistent (entered h m r s)
  entered-IsConsistent = record {
    alloc_ok = v.alloc_ok;
    alloc_min = v.alloc_min;
    alloc_max = v.alloc_max;
    conns_sorted = v.conns_sorted;
    conns_entry = λ k j e.
        let old = v.conns_entry k j e in
        (
          old.0,
          update_cases (λ i x. x.connid ≡ k) s.connections h grown j
              (λ same. subst (λ i. (s.connections i).connid ≡ k) same old.1) (λ _. old.1),
        );
    connection = λ j there.
        update_cases
          (λ i x.
            IsConnection (suc s.nrequests) i (update s.requests s.nrequests r) x
              (lookup x.connid s.conns))
          s.connections h grown j (λ _. grown-IsConnection)
          (λ _.
            let c = v.connection j there in
            record {
              pending_sorted = c.pending_sorted;
              counted = c.counted;
              active = c.active;
              entries = λ k i e. old-IsEntry j k i _ (c.entries k i e);
            });
    running = λ i there goes.
        update_cases
          (λ n x.
            n < suc s.nrequests
            → is_running x.state ≡ true
            → IsHeld s.nconnections n (update s.connections h grown) x)
          s.requests s.nrequests r i (λ _ _ _. new-IsHeld)
          (λ ne t x. grown-IsHeld i (omega arith) x) there goes;
  }
