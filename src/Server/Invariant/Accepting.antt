-- ===== src/Server/Invariant/Accepting.antt =====
-- `connCreate` of lib/fast_server.js on a valid server.
use node_fast.Base.{
  ℕ, suc, ◌<◌, ◌≤◌, ◌≡◌, refl, sym, ap, ◌∙◌, inl, inr, false, Bool-cases, none, some, ◌==◌, length,
  arith, ok, [], Returns,
}
use node_fast.Base.Map.{
  lookup, has_own_property, insert, lookup-insert, insert-Sorted, lookup-empty,
}
use node_fast.Client.Invariant.Registration.{pigeonhole}
use node_fast.Subr.IdAllocator
use node_fast.Subr.IdAllocator.{IdAllocator}
use node_fast.Subr.IdAllocator.Cycle.{first_false}
use node_fast.Subr.IdAllocator.Allocation.{alloc-Fresh}
use node_fast.Subr.SocketAddrs.{Socket, summarize_socket_addrs}
use node_fast.Server.State.{Connection, Server, max_connid, update, new_connection}
use node_fast.Server.Invariant.{IsConnection, IsConsistent}
use node_fast.Server.Invariant.Updates.{update_cases, update_self}
use node_fast.Server.Api.{accept, conn_create}

-- The server with a new connection.
accept-IsConsistent :
    (connid : ℕ) (sock : Socket) (alloc : IdAllocator) (s : Server)
    → IsConsistent s
    → IdAllocator.IsValid alloc
    → alloc.min ≡ s.connallocator.min
    → alloc.max ≡ s.connallocator.max
    → lookup connid s.conns ≡ none
    → IsConsistent (accept connid sock (record s { connallocator = alloc }))
accept-IsConsistent connid sock alloc s v ordered same_min same_max free =
    let c = new_connection connid (summarize_socket_addrs sock) in
    record {
      alloc_ok = ordered;
      alloc_min = same_min ∙ v.alloc_min;
      alloc_max = same_max ∙ v.alloc_max;
      conns_sorted = insert-Sorted connid s.nconnections s.conns v.conns_sorted;
      conns_entry = λ k j e.
          let found = lookup-insert connid k s.nconnections s.conns in
          elim (Bool-cases (k == connid)) [
            | inl eq ↦
                let same : j ≡ s.nconnections = ground (arith, found) in
                let key : k ≡ connid = ground arith in
                (
                  omega (arith, same),
                  ap (λ i. (update s.connections s.nconnections c i).connid) same
                      ∙ ap (λ x. Connection.connid x) (update_self s.connections s.nconnections c)
                      ∙ sym key,
                )
            | inr ne ↦
                let (made, same) = v.conns_entry k j (ground (arith, found)) in
                (
                  omega (arith, made),
                  update_cases (λ i x. i < s.nconnections → x.connid ≡ k) s.connections
                      s.nconnections c j (λ last t. absurd (omega (arith, t))) (λ _ _. same) made,
                )
          ];
      connection = λ j there.
          update_cases
            (λ i x.
              i < suc s.nconnections
              → IsConnection s.nrequests i s.requests x
                  (lookup x.connid (insert connid s.nconnections s.conns)))
            s.connections s.nconnections c j
            (λ _ _. record {
              pending_sorted = tt;
              counted = refl;
              active = λ some_left. absurd (omega arith);
              entries = λ k i e. absurd (cc (e, lookup-empty k));
            })
            (λ ne t.
              let old = v.connection j (omega arith) in
              record {
                pending_sorted = old.pending_sorted;
                counted = old.counted;
                active = λ some_left. ground (
                  arith,
                  lookup-insert connid (s.connections j).connid s.nconnections s.conns,
                  old.active some_left,
                );
                entries = old.entries;
              })
            there;
      running = λ i there goes.
          let old = v.running i there goes in
          record {
            conn_made = omega (arith, old.conn_made);
            held =
                update_cases
                  (λ j x. j < s.nconnections → lookup (s.requests i).msgid x.pending ≡ some i)
                  s.connections s.nconnections c (s.requests i).conn
                  (λ last t. absurd (omega (arith, t))) (λ _ _. old.held) old.conn_made;
          };
    }

conn_create-eq :
    (sock : Socket) (s : Server) (connid : ℕ) (alloc : IdAllocator)
    → IdAllocator.alloc s.connallocator (λ id. has_own_property id s.conns) ≡ ok (connid, alloc)
    → (connid == 0) ≡ false
    → has_own_property connid s.conns ≡ false
    → s.is_closed ≡ false
    → conn_create sock s ≡ ok (accept connid sock (record s { connallocator = alloc }))
unfolding conn_create
conn_create-eq sock s connid alloc got positive free going = rw (got, positive, free, going) refl

-- While not every identifier is taken, one is free.
free_connid :
    (s : Server)
    → IsConsistent s
    → length s.conns < max_connid
    → (id : ℕ) × (1 ≤ id) × (id ≤ max_connid) × (has_own_property id s.conns ≡ false)
free_connid s v room = elim (first_false (λ k. has_own_property (suc k) s.conns) max_connid) [
  | inr (k, lt, e, _) ↦ (suc k, omega arith, omega arith, e)
  | inl all ↦
      absurd (
        omega
          (arith, pigeonhole max_connid s.conns [] v.conns_sorted tt (λ k h. rw (all k h) refl)))
]

pub conn_create-IsConsistent :
    (sock : Socket) (s : Server)
    → IsConsistent s
    → s.is_closed ≡ false
    → length s.conns < max_connid
    → Returns IsConsistent (conn_create sock s)
conn_create-IsConsistent sock s v going room =
    let (id, lo, hi, free_id) = free_connid s v room in
    let ((connid, alloc), got, fresh) =
      alloc-Fresh s.connallocator (λ i. has_own_property i s.conns) v.alloc_ok id
        (omega (arith, v.alloc_min)) (omega (arith, v.alloc_max)) free_id in
    let (free, from_min, to_max, ordered, same_min, same_max) = fresh in
    let absent : lookup connid s.conns ≡ none = ground arith in
    let positive : (connid == 0) ≡ false = ground (arith, v.alloc_min, from_min) in
    (
      _,
      conn_create-eq sock s connid alloc got positive free going,
      accept-IsConsistent connid sock alloc s v ordered same_min same_max absent,
    )
