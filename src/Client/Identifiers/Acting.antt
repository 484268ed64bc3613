-- ===== src/Client/Identifiers/Acting.antt =====
-- The client's other steps in lib/fast_client.js: none gives an identifier up, and `rpc` sends one
-- message at most, with an identifier that was free and is held now.
use node_fast.Base.{
  ℕ, ◌<◌, ◌≤◌, ap, subst, ◌≡◌, refl, ◌⊎◌, inl, inr, Bool, true, false, List, [], ◌∷◌, ◌++◌, ltb,
  Outcome, ok, Whenever, if-Whenever, branch-Whenever, Whenever-mono, arith,
}
use node_fast.Protocol.{Message, msgid_max, check_data}
use node_fast.Protocol.Decoder.WellFormed.{IsKnown, IsWellFormed}
use node_fast.Client.Request.{
  transport_error, decoder_error, client_detached, timed_out, abandoned_by_user, unexpected_end,
  failed, emit,
}
use node_fast.Client.State.{Client}
use node_fast.Client.Completion.{fatal_error}
use node_fast.Client.Api.{
  RpcArgs, is_req_id_allocated, rpc_message, detach, abandon, on_timeout, on_transport_end,
  on_transport_error, on_decoder_error, run_first, run_immediate, Event, call_rpc, call_detach,
  call_abandon, timer, message, transport_end, transport_failure, decoder_failure, immediate,
  handle,
}
use node_fast.Client.Invariant.{IsValid}
use node_fast.Client.Invariant.Handle.{Allowed}
use node_fast.Client.Invariant.Issue.{IsIssued, rpc-IsIssued}
use node_fast.Client.Identifiers.{
  Keeps, same-Keeps, put-Keeps, request_abandon-Keeps, request_abandon_all-Keeps, fatal_error-Keeps,
}

-- Every identifier that was held is held still, and nothing was sent, or one message with an
-- identifier that was free. It is well formed if the client's version is one of the protocol's,
-- which does not change.
abbrev pub Issues : Client → Client → Type 0
Issues s t =
    ((k : ℕ) → is_req_id_allocated s k ≡ true → is_req_id_allocated t k ≡ true)
    × (t.version ≡ s.version)
    × ((t.outgoing ≡ s.outgoing)
        ⊎ ((m : Message) × (t.outgoing ≡ s.outgoing ++ m ∷ [])
            × (is_req_id_allocated s m.msgid ≡ false)
            × (is_req_id_allocated t m.msgid ≡ true)
            × (IsKnown s.version → IsWellFormed m)))

abbrev pub is_message : Event → Bool
is_message (message m) = true
is_message _ = false

Keeps-Issues : (s t : Client) → Keeps s t → Issues s t
Keeps-Issues s t (same, held) = (held, ap (λ w. w.1) same.0, inl (ap (λ w. w.0) same.0))

detach-Keeps : (s : Client) → Whenever (Keeps s) (detach s)
unfolding detach
detach-Keeps s =
    branch-Whenever (Keeps s) s.detached _ _
      (request_abandon_all-Keeps client_detached (record s { detached = true })) (same-Keeps s)

on_timeout-Keeps : (id : ℕ) (s : Client) → Whenever (Keeps s) (on_timeout id s)
unfolding on_timeout
on_timeout-Keeps id s =
    if-Whenever (Keeps s) (s.heap id).timeout _ (ok s) (request_abandon-Keeps id timed_out s)
      (same-Keeps s)

on_transport_end-Keeps : (s : Client) → Whenever (Keeps s) (on_transport_end s)
unfolding on_transport_end
on_transport_end-Keeps s =
    let t = record s { transport_ended = true } in
    if-Whenever (Keeps s) (ltb s.nrpc_done s.nrpc_started) (fatal_error unexpected_end t) (ok t)
      (fatal_error-Keeps unexpected_end t) (same-Keeps s)

on_transport_error-Keeps : (s : Client) → Whenever (Keeps s) (on_transport_error s)
unfolding on_transport_error
on_transport_error-Keeps s =
    branch-Whenever (Keeps s) s.detached _ _ (fatal_error-Keeps transport_error s) (same-Keeps s)

run_immediate-Keeps : (s : Client) → Keeps s (run_immediate s)
unfolding run_immediate
run_immediate-Keeps s = first s.immediates
  where
    first : (queue : List ℕ) → Keeps s (run_first queue s)
    first [] = same-Keeps s
    first (id ∷ rest) = put-Keeps id (emit (failed (s.heap id).error) (s.heap id)) s refl

rpc_message-IsWellFormed :
    (s : Client) (msgid : ℕ) (args : RpcArgs)
    → msgid ≤ msgid_max
    → IsKnown s.version
    → IsWellFormed (rpc_message s msgid args)
unfolding check_data
rpc_message-IsWellFormed s msgid args small known = record {
  msgid_ok = small;
  status_ok = refl;
  version_ok = known;
  data_ok = refl;
}

rpc-Issues : (args : RpcArgs) (s : Client) (r : ℕ × Client) → IsIssued args s r → Issues s r.1
rpc-Issues args s (id, t) i = (
  i.kept,
  i.same_version,
  elim i.outcome [
    | inl (_, still, sent, _) ↦
        let made : id < t.nrequests = omega (arith, i.handle_eq, i.made) in
        let held = (i.valid.fits id made).registered still in
        inr (
          rpc_message s (t.heap id).msgid args,
          sent,
          i.unused,
          rw held refl,
          rpc_message-IsWellFormed s _ args i.to_max,
        )
    | inr (_, _, same, _) ↦ inl same
  ],
)

-- Every step of a valid client but the reading of a message.
pub acting-Issues :
    (event : Event) (s t : Client)
    → IsValid s
    → Allowed event s
    → is_message event ≡ false
    → handle event s ≡ ok t
    → Issues s t
unfolding handle abandon on_decoder_error
acting-Issues event s t v a quiet e = subst (Whenever (Issues s)) e (acts event a quiet)
  where
    calm : (m : Outcome Client) → Whenever (Keeps s) m → Whenever (Issues s) m
    calm m h = Whenever-mono (Keeps s) (Issues s) m h (Keeps-Issues s)

    acts :
        (event : Event)
        → Allowed event s
        → is_message event ≡ false
        → Whenever (Issues s) (handle event s)
    acts (call_rpc args) (timely, room) q =
        let (r, e, i) = rpc-IsIssued args s v timely room in rw e (rpc-Issues args s r i)
    acts call_detach a q = calm (detach s) (detach-Keeps s)
    acts (call_abandon id) a q = calm _ (request_abandon-Keeps id abandoned_by_user s)
    acts (timer id) a q = calm _ (on_timeout-Keeps id s)
    acts (message m) a q = cc
    acts transport_end a q = calm _ (on_transport_end-Keeps s)
    acts transport_failure a q = calm _ (on_transport_error-Keeps s)
    acts (decoder_failure x) a q = calm _ (fatal_error-Keeps (decoder_error x) s)
    acts immediate a q = calm (ok (run_immediate s)) (run_immediate-Keeps s)
