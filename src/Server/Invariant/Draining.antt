-- ===== src/Server/Invariant/Draining.antt =====
-- `connDrain` and `connTerminate` of lib/fast_server.js on a valid server.
use node_fast.Base.{
  ℕ, ◌<◌, ◌≡◌, refl, sym, ap, ◌∙◌, subst, inl, inr, Bool, true, false, Bool-cases, some, is_none,
  ◌==◌, ltb, if◌then◌else◌, length, arith, ok, ◌∷◌, [], Returns, ◌>>=◌,
}
use node_fast.Base.Map.{Map, lookup, erase, lookup-erase, erase-Sorted}
use node_fast.Server.State.{ConnFault, Connection, Server, put_connection}
use node_fast.Server.Lifecycle.{
  holds, is_empty, disconnect_requests, close_pipeline, run_callbacks, conn_drain, conn_terminate,
}
use node_fast.Server.Invariant.{is_sound, IsConsistent}
use node_fast.Server.Invariant.Updates.{counters-IsConsistent, flags-IsConsistent}
use node_fast.Server.Invariant.Ending.{disconnect_requests-IsConsistent}

-- A connection without requests is removed.
removed-IsConsistent :
    (s : Server) (h : ℕ)
    → IsConsistent s
    → h < s.nconnections
    → (s.connections h).pending ≡ []
    → lookup (s.connections h).connid s.conns ≡ some h
    → IsConsistent (record s { conns = erase (s.connections h).connid s.conns })
removed-IsConsistent s h v made none_left here = record {
  alloc_ok = v.alloc_ok;
  alloc_min = v.alloc_min;
  alloc_max = v.alloc_max;
  conns_sorted = erase-Sorted _ s.conns v.conns_sorted;
  conns_entry =
      λ k j e. ground (arith, lookup-erase (s.connections h).connid k s.conns, v.conns_entry k j);
  connection = λ j there.
      let c = v.connection j there in
      record {
        pending_sorted = c.pending_sorted;
        counted = c.counted;
        active = λ some_left. elim (Bool-cases (j == h)) [
          | inl e ↦
              let same : j ≡ h = ground arith in
              let gone = ap (λ i. (s.connections i).pending) same ∙ none_left in
              absurd (omega (arith, subst (λ p. 0 < length p) gone some_left))
          | inr e ↦ ground (
            arith,
            lookup-erase (s.connections h).connid (s.connections j).connid s.conns,
            c.active some_left,
          )
        ];
        entries = c.entries;
      };
  running = v.running;
}

pub if-IsConsistent :
    (b : Bool) (x y : Server) → IsConsistent x → IsConsistent y → IsConsistent (if b then x else y)
if-IsConsistent true x y v w = v
if-IsConsistent false x y v w = w

run_callbacks-IsConsistent : (s : Server) → IsConsistent s → IsConsistent (run_callbacks s)
run_callbacks-IsConsistent s v =
    if-IsConsistent (is_empty s.conns) _ s (counters-IsConsistent s v _ _ _ _ _ _ _ _ _ _ _ _) v

close_pipeline-IsConsistent :
    (s : Server) (h : ℕ) → IsConsistent s → IsConsistent (close_pipeline h s)
close_pipeline-IsConsistent s h v =
    if-IsConsistent (s.connections h).socket_error _ _
      (flags-IsConsistent s h _ v refl refl refl refl (λ q. q))
      (if-IsConsistent (is_none (s.connections h).server_error) _ s
        (flags-IsConsistent s h _ v refl refl refl refl (λ q. q)) v)

conn_drain-waits :
    (s : Server) (h : ℕ)
    → holds (s.connections h).connid h s.conns ≡ true
    → is_empty (s.connections h).pending ≡ false
    → ltb (s.connections h).ncompleted (s.connections h).nstarted ≡ true
    → conn_drain h s ≡ ok (put_connection h (record (s.connections h) { draining = true }) s)
unfolding conn_drain
conn_drain-waits s h here waiting left = ground arith

conn_drain-ends :
    (s : Server) (h : ℕ)
    → holds (s.connections h).connid h s.conns ≡ true
    → is_empty (s.connections h).pending ≡ true
    → ((s.connections h).nstarted == (s.connections h).ncompleted) ≡ true
    → conn_drain h s
      ≡ ok (
          run_callbacks
            (close_pipeline h (record s { conns = erase (s.connections h).connid s.conns })))
unfolding conn_drain
conn_drain-ends s h here over same = ground arith

is_empty-nil : (p : Map ℕ) → is_empty p ≡ true → p ≡ []
is_empty-nil [] e = refl
is_empty-nil (_ ∷ _) e = cc

is_empty-length : (p : Map ℕ) → is_empty p ≡ false → 0 < length p
is_empty-length [] e = cc
is_empty-length (_ ∷ p) e = omega arith

-- `connDrain` on a connection that is active: it waits for the requests that are left, or removes
-- the connection.
pub conn_drain-IsConsistent :
    (s : Server) (h : ℕ)
    → IsConsistent s
    → h < s.nconnections
    → lookup (s.connections h).connid s.conns ≡ some h
    → Returns IsConsistent (conn_drain h s)
conn_drain-IsConsistent s h v made here =
    let c = v.connection h made in
    let own : holds (s.connections h).connid h s.conns ≡ true = ground arith in
    elim (Bool-cases (is_empty (s.connections h).pending)) [
      | inr e ↦
          let some_left = is_empty-length (s.connections h).pending e in
          let behind : ltb (s.connections h).ncompleted (s.connections h).nstarted ≡ true =
            ground (arith, c.counted) in
          (
            _,
            conn_drain-waits s h own e behind,
            flags-IsConsistent s h _ v refl refl refl refl (λ q. q),
          )
      | inl e ↦
          let gone = is_empty-nil (s.connections h).pending e in
          let zero_left : length (s.connections h).pending ≡ 0 = ap length gone in
          let even : ((s.connections h).nstarted == (s.connections h).ncompleted) ≡ true =
            ground (arith, c.counted) in
          (
            _,
            conn_drain-ends s h own e even,
            run_callbacks-IsConsistent _
                (close_pipeline-IsConsistent _ h (removed-IsConsistent s h v made gone here)),
          )
    ]

-- A connection that is found broken: its requests are cut off, and it drains.
pub tear_down-IsConsistent :
    (s : Server) (h : ℕ) (c : Connection)
    → IsConsistent s
    → h < s.nconnections
    → lookup (s.connections h).connid s.conns ≡ some h
    → c.connid ≡ (s.connections h).connid
    → c.pending ≡ (s.connections h).pending
    → c.nstarted ≡ (s.connections h).nstarted
    → c.ncompleted ≡ (s.connections h).ncompleted
    → is_sound (s.connections h) ≡ true
    → is_sound c ≡ false
    → Returns IsConsistent (disconnect_requests h (put_connection h c s) >>= conn_drain h)
tear_down-IsConsistent s h c v made here e1 e2 e3 e4 sound torn =
    let (t, e, w, same_id, same_conns, same_n) =
      disconnect_requests-IsConsistent s h c v made e1 e2 e3 e4 sound torn in
    let still : lookup (t.connections h).connid t.conns ≡ some h = cc (same_id, same_conns, here) in
    rw e (conn_drain-IsConsistent t h w (subst (λ n. h < n) (sym same_n) made) still)

conn_terminate-later :
    (s : Server) (h : ℕ) (fault : ConnFault)
    → is_sound (s.connections h) ≡ false
    → conn_terminate h fault s ≡ ok s
unfolding conn_terminate
conn_terminate-later s h fault e = ground arith

conn_terminate-first :
    (s : Server) (h : ℕ) (fault : ConnFault)
    → is_sound (s.connections h) ≡ true
    → conn_terminate h fault s ≡ (
        disconnect_requests h
          (put_connection h (record (s.connections h) { server_error = some fault }) s)
        >>= conn_drain h)
unfolding conn_terminate
conn_terminate-first s h fault e = ground arith

-- `connTerminate` on a connection that is active.
pub conn_terminate-IsConsistent :
    (s : Server) (h : ℕ) (fault : ConnFault)
    → IsConsistent s
    → h < s.nconnections
    → lookup (s.connections h).connid s.conns ≡ some h
    → Returns IsConsistent (conn_terminate h fault s)
conn_terminate-IsConsistent s h fault v made here = elim (Bool-cases (is_sound (s.connections h))) [
  | inr e ↦ (s, conn_terminate-later s h fault e, v)
  | inl e ↦
      let (t, f, w) =
        tear_down-IsConsistent s h (record (s.connections h) { server_error = some fault }) v made
          here refl refl refl refl e refl in
      (t, conn_terminate-first s h fault e ∙ f, w)
]
