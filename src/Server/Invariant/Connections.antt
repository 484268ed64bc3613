-- ===== src/Server/Invariant/Connections.antt =====
-- The life of connections in lib/fast_server.js on a valid server: the events of a socket, `onConnsDestroyed` and `close`.
use node_fast.Base.{
  ℕ, ◌≡◌, refl, ap, ◌∙◌, inl, inr, Bool, true, false, Bool-cases, some, Option-cases, is_none,
  if◌then◌else◌, arith, ok, List, ◌∷◌, [], Outcome, Returns, ◌>>=◌,
}
use node_fast.Base.Map.{lookup, keys}
use node_fast.Server.State.{shutting_down, Connection, Server, update, put_connection}
use node_fast.Server.Lifecycle.{holds, is_empty, disconnect_requests, conn_drain}
use node_fast.Server.Invariant.{is_sound, IsConsistent}
use node_fast.Server.Invariant.Updates.{update_self, counters-IsConsistent, flags-IsConsistent}
use node_fast.Server.Invariant.Draining.{
  if-IsConsistent, conn_drain-IsConsistent, tear_down-IsConsistent, conn_terminate-IsConsistent,
}
use node_fast.Server.Api.{
  on_connection_end, on_connection_error, on_conns_destroyed, terminate_each, close,
}
use node_fast.Server.Invariant.Steps.{active}

pub if-Returns :
    (b : Bool) (x y : Outcome Server)
    → Returns IsConsistent x
    → Returns IsConsistent y
    → Returns IsConsistent (if b then x else y)
if-Returns true x y v w = v
if-Returns false x y v w = w

if-true : (b : Bool) (x y : Outcome Server) → b ≡ true → (if b then x else y) ≡ x
if-true b x y e = rw e refl

if-false : (b : Bool) (x y : Outcome Server) → b ≡ false → (if b then x else y) ≡ y
if-false b x y e = rw e refl

on_connection_end-eq :
    (k h : ℕ) (s : Server)
    → holds k h s.conns ≡ true
    → on_connection_end k h s ≡ (
        if (s.connections h).socket_error
        then ok s
        else conn_drain h (put_connection h (record (s.connections h) { is_ended = true }) s))
unfolding on_connection_end
on_connection_end-eq k h s e = rw e refl

pub on_connection_end-IsConsistent :
    (k h : ℕ) (s : Server)
    → IsConsistent s
    → lookup k s.conns ≡ some h
    → Returns IsConsistent (on_connection_end k h s)
on_connection_end-IsConsistent k h s v e =
    let (made, here) = active s k h v e in
    let own : holds k h s.conns ≡ true = ground arith in
    let c = record (s.connections h) { is_ended = true } in
    let still : lookup (update s.connections h c h).connid s.conns ≡ some h =
      ap (λ x. lookup (Connection.connid x) s.conns) (update_self s.connections h c) ∙ here in
    let (t, f, w) =
      if-Returns (s.connections h).socket_error (ok s) (conn_drain h (put_connection h c s))
        (s, refl, v)
        (conn_drain-IsConsistent (put_connection h c s) h
          (flags-IsConsistent s h c v refl refl refl refl (λ q. q)) made still) in
    (t, on_connection_end-eq k h s own ∙ f, w)

on_connection_error-eq :
    (k h : ℕ) (s : Server)
    → holds k h s.conns ≡ true
    → (s.connections h).socket_error ≡ false
    → on_connection_error k h s ≡ (
        if is_none (s.connections h).server_error
        then disconnect_requests h
            (put_connection h (record (s.connections h) { socket_error = true }) s)
          >>= conn_drain h
        else ok (put_connection h (record (s.connections h) { socket_error = true }) s))
unfolding on_connection_error
on_connection_error-eq k h s e f = ground arith

pub on_connection_error-IsConsistent :
    (k h : ℕ) (s : Server)
    → IsConsistent s
    → lookup k s.conns ≡ some h
    → (s.connections h).socket_error ≡ false
    → Returns IsConsistent (on_connection_error k h s)
on_connection_error-IsConsistent k h s v e clean =
    let (made, here) = active s k h v e in
    let own : holds k h s.conns ≡ true = ground arith in
    let c = record (s.connections h) { socket_error = true } in
    let eq = on_connection_error-eq k h s own clean in
    elim (Bool-cases (is_none (s.connections h).server_error)) [
      | inl f ↦
          let torn : is_sound c ≡ false = ground arith in
          let sound : is_sound (s.connections h) ≡ true = ground arith in
          let (t, g, w) = tear_down-IsConsistent s h c v made here refl refl refl refl sound torn in
          (t, eq ∙ if-true _ _ _ f ∙ g, w)
      | inr f ↦
          let torn : is_sound c ≡ false = ground arith in
          (_, eq ∙ if-false _ _ _ f, flags-IsConsistent s h c v refl refl refl refl (λ q. cc))
    ]

pub on_conns_destroyed-IsConsistent :
    (callback : ℕ) (s : Server) → IsConsistent s → IsConsistent (on_conns_destroyed callback s)
unfolding on_conns_destroyed
on_conns_destroyed-IsConsistent callback s v =
    if-IsConsistent (is_empty s.conns) _ _ (counters-IsConsistent s v _ _ _ _ _ _ _ _ _ _ _ _)
      (counters-IsConsistent s v _ _ _ _ _ _ _ _ _ _ _ _)

terminate_each-IsConsistent :
    (ks : List ℕ) (s : Server) → IsConsistent s → Returns IsConsistent (terminate_each ks s)
unfolding terminate_each
terminate_each-IsConsistent [] s v = (s, refl, v)
terminate_each-IsConsistent (k ∷ ks) s v = elim (Option-cases (lookup k s.conns)) [
  | inl absent ↦ rw (absent, terminate_each) (terminate_each-IsConsistent ks s v)
  | inr (h, e) ↦
      let (made, here) = active s k h v e in
      let (t, f, w) = conn_terminate-IsConsistent s h shutting_down v made here in
      let (u, g, x) = terminate_each-IsConsistent ks t w in (u, rw (e, terminate_each, f) g, x)
]

pub close-IsConsistent : (s : Server) → IsConsistent s → Returns IsConsistent (close s)
unfolding close
close-IsConsistent s v = elim (Bool-cases s.is_closed) [
  | inl e ↦ (s, ground arith, v)
  | inr e ↦
      let (t, f, w) =
        terminate_each-IsConsistent (keys s.conns) (record s { is_closed = true })
          (counters-IsConsistent s v _ _ _ _ _ _ _ _ _ _ _ _) in
      (t, ground arith, w)
]
