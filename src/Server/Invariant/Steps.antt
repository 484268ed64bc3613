-- ===== src/Server/Invariant/Steps.antt =====
-- `onMessage` of lib/fast_server.js on a valid server.
use node_fast.Base.{
  ℕ, ◌<◌, ◌≡◌, refl, ap, ◌∙◌, inl, inr, true, false, ◌||◌, Bool-cases, some, Option-cases, ◌==◌,
  arith, Returns,
}
use node_fast.Base.Map.{lookup, has_own_property}
use node_fast.Protocol.{Message, status_data, status_end, status_error}
use node_fast.Protocol.Decoder.WellFormed.{IsWellFormed}
use node_fast.Protocol.Decoder.RoundTrip.{check_data-object}
use node_fast.Server.State.{unexpected_end, duplicate_msgid, Server}
use node_fast.Server.Messages.{dispatch, on_message}
use node_fast.Server.Invariant.{IsConsistent}
use node_fast.Server.Invariant.Updates.{counters-IsConsistent}
use node_fast.Server.Invariant.Draining.{conn_terminate-IsConsistent}
use node_fast.Server.Invariant.Starting.{start_request-IsConsistent}

-- An entry of the table of active connections.
pub active :
    (s : Server) (k h : ℕ)
    → IsConsistent s
    → lookup k s.conns ≡ some h
    → (h < s.nconnections) × (lookup (s.connections h).connid s.conns ≡ some h)
active s k h v e =
    let (made, same) = v.conns_entry k h e in (made, ap (λ j. lookup j s.conns) same ∙ e)

dispatch-IsConsistent :
    (uts connid h : ℕ) (m : Message) (s : Server)
    → IsConsistent s
    → h < s.nconnections
    → lookup (s.connections h).connid s.conns ≡ some h
    → IsWellFormed m
    → Returns IsConsistent (dispatch uts connid h m s)
unfolding dispatch
dispatch-IsConsistent uts connid h m s v made here good =
    elim (Bool-cases (m.status == status_end)) [
      | inl e ↦ rw e (conn_terminate-IsConsistent s h unexpected_end v made here)
      | inr e ↦ rw e (elim (Bool-cases (m.status == status_error)) [
        | inl f ↦ rw f (_, refl, counters-IsConsistent s v _ _ _ _ _ _ _ _ _ _ _ _)
        | inr f ↦
            let g : (m.status == status_data) ≡ true = ground (arith, good.status_ok) in
            rw (f, g)
              (elim (Bool-cases (has_own_property m.msgid (s.connections h).pending)) [
                | inl taken ↦
                    rw taken (conn_terminate-IsConsistent s h (duplicate_msgid m.msgid) v made here)
                | inr fresh ↦ rw fresh (
                    start_request-IsConsistent uts connid h m s v made here (ground arith)
                      (check_data-object m.status m.payload good.data_ok))
              ])
      ])
    ]

pub on_message-IsConsistent :
    (uts connid : ℕ) (m : Message) (s : Server)
    → IsConsistent s
    → 0 < connid
    → IsWellFormed m
    → Returns IsConsistent (on_message uts connid m s)
unfolding on_message
on_message-IsConsistent uts connid m s v positive good =
    let named : (connid == 0) ≡ false = ground arith in
    rw named (elim (Option-cases (lookup connid s.conns)) [
      | inl absent ↦ rw absent (_, refl, counters-IsConsistent s v _ _ _ _ _ _ _ _ _ _ _ _)
      | inr (h, e) ↦
          let (made, here) = active s connid h v e in
          rw e (elim (Bool-cases ((s.connections h).is_ended || (s.connections h).socket_error)) [
            | inl gone ↦ rw gone (_, refl, counters-IsConsistent s v _ _ _ _ _ _ _ _ _ _ _ _)
            | inr open_conn ↦ rw open_conn (dispatch-IsConsistent uts connid h m s v made here good)
          ])
    ])
