-- ===== src/Client/Invariant/Rpc.antt =====
-- `rpc` of lib/fast_client.js on a valid client.
use node_fast.Base.{
  ℕ, suc, ◌+◌, ◌≤◌, ◌<◌, ◌≡◌, refl, inl, inr, Bool, true, false, some, [], ◌∷◌, ◌++◌, is_some,
  is_none, length, arith, ok,
}
use node_fast.Protocol.{msgid_max}
use node_fast.Client.Request.{transport_detached}
use node_fast.Client.State.{Client, put}
use node_fast.Client.Api.{RpcArgs, is_req_id_allocated, send, skip}
use node_fast.Client.Invariant.{count-append, IsValid}
use node_fast.Client.Invariant.Updates.{put-IsValid, finish, finish-IsValid}
use node_fast.Client.Invariant.Operations.{request_fail-put, pending-holds, failed-Fits}
use node_fast.Client.Invariant.Messages.{IsServing, pending-not_abandoned}
use node_fast.Subr.IdAllocator.Cycle.{first_false}
use node_fast.Client.Invariant.Registration.{pigeonhole}
use node_fast.Client.Invariant.Shutdown.{flags-IsValid}

-- The state after a request has been failed without being sent.
abbrev pub skipped_state : ℕ → Client → Client
skipped_state id s =
    finish id (record (s.heap id) { skip = true; error = some transport_detached; timeout = false })
      s.abandoned (s.immediates ++ id ∷ []) s

pub skip-eq : (id : ℕ) (s : Client) → IsServing id s → skip id s ≡ ok (skipped_state id s)
skip-eq id s v =
    let clean : is_none (s.heap id).error ≡ true = let p = v.still in ground arith in
    request_fail-put id transport_detached (record (s.heap id) { skip = true }) s clean
      (pending-holds s id v.valid v.made v.still)

pub skipped_state-IsValid : (id : ℕ) (s : Client) → IsServing id s → IsValid (skipped_state id s)
skipped_state-IsValid id s v =
    let fresh = pending-not_abandoned s id v in
    finish-IsValid s id _ s.abandoned _ v.valid v.made v.still refl v.valid.abandoned_sorted
      (λ k j e. ground (arith, fresh, v.valid.abandoned_entry k j e)) (λ k ne. refl)
      (λ j ne. ground (arith, count-append j id s.immediates))
      (failed-Fits s id _ v.valid v.made v.still refl refl refl (λ a. absurd (fresh a)))

timer-IsValid :
    (id : ℕ) (s : Client) (timeout : Bool)
    → IsServing id s
    → IsValid (put id (record (s.heap id) { timeout = timeout }) s)
timer-IsValid id s timeout v = put-IsValid s id _ v.valid refl refl refl (λ h.
    let f = v.valid.fits id h in
    record {
      registered = f.registered;
      running = f.running;
      finishing = f.finishing;
      given_up = f.given_up;
      timed = λ _. v.still;
    })

pub send-IsValid :
    (id msgid : ℕ) (args : RpcArgs) (s : Client) → IsServing id s → IsValid (send id msgid args s)
send-IsValid id msgid args s v =
    flags-IsValid _ (timer-IsValid id s (is_some args.timeout) v) _ _ _ _ _ _

-- While not every identifier is taken, one is free.
pub free_identifier :
    (s : Client)
    → IsValid s
    → length s.pending + length s.abandoned < msgid_max
    → (id : ℕ) × (1 ≤ id) × (id ≤ msgid_max) × (is_req_id_allocated s id ≡ false)
free_identifier s v room = elim (first_false (λ k. is_req_id_allocated s (suc k)) msgid_max) [
  | inr (k, lt, e, _) ↦ (suc k, omega arith, omega arith, e)
  | inl all ↦ absurd (
      omega
        (arith, pigeonhole msgid_max s.pending s.abandoned v.pending_sorted v.abandoned_sorted all))
]
