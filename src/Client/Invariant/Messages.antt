-- ===== src/Client/Invariant/Messages.antt =====
-- `requestEmitData` of lib/fast_client.js, and the end of a request, on a valid client.
use node_fast.Base.{
  ℕ, ◌+◌, ◌<◌, ◌≡◌, refl, sym, ◌∙◌, subst, ◌≢◌, inl, inr, Bool, true, false, Bool-cases, Option,
  List, [], ◌∷◌, ◌++◌, arith, ok, Returns,
}
use node_fast.Json.{Json, null, bool, num, str, arr, obj, get, elements?}
use node_fast.Protocol.{Message}
use node_fast.Client.Request.{
  Request, null_value, is_pending, emit, datum, ended, stream_state-append,
}
use node_fast.Client.State.{Client, put}
use node_fast.Client.Completion.{request_abandon}
use node_fast.Client.Messages.{emit_values, request_emit_data, end_request}
use node_fast.Client.Invariant.{IsValid}
use node_fast.Client.Invariant.Updates.{put-IsValid, finish, finish-IsValid}
use node_fast.Client.Invariant.Operations.{
  update_self, update-update, request_complete-put, request_abandon-IsValid, pending-holds,
}

-- The counters and the last message of a request do not matter to the invariant.
pub note-IsValid :
    (s : Client) (id : ℕ)
    → IsValid s
    → (last : Option Message) (ndata nignored nignored_null : ℕ) (skip : Bool)
    → IsValid (
        put id
          (record (s.heap id) {
            last = last;
            ndata = ndata;
            nignored = nignored;
            nignored_null = nignored_null;
            skip = skip;
          })
          s)
note-IsValid s id v last ndata nignored nignored_null skip =
    put-IsValid s id _ v refl refl refl (λ h.
      let f = v.fits id h in
      record {
        registered = f.registered;
        running = f.running;
        finishing = f.finishing;
        given_up = f.given_up;
        timed = f.timed;
      })

-- A client at work on a request that is pending.
pub record IsServing (id : ℕ) (s : Client) : Type 0 where
  pub valid : IsValid s
  pub made : id < s.nrequests
  pub still : is_pending (s.heap id) ≡ true

pub put-IsServing :
    (s : Client) (id : ℕ) (r : Request)
    → IsServing id s
    → IsValid (put id r s)
    → is_pending r ≡ true
    → IsServing id (put id r s)
put-IsServing s id r v w p = record {
  valid = w;
  made = v.made;
  still = subst (λ x. is_pending x ≡ true) (sym (update_self s.heap id r)) p;
}

emit-IsServing :
    (s : Client) (id : ℕ) (d : Json)
    → IsServing id s
    → IsServing id (put id (emit (datum d) (s.heap id)) s)
emit-IsServing s id d v =
    let f = v.valid.fits id v.made in
    let (opened, unqueued) = f.running v.still in
    let more = stream_state-append (s.heap id).events (datum d) in
    put-IsServing s id _ v
      (put-IsValid s id _ v.valid refl refl refl (λ _. record {
        registered = f.registered;
        running = λ _. (ground arith, unqueued);
        finishing = λ over. cc;
        given_up = f.given_up;
        timed = f.timed;
      }))
      v.still

-- What the loop over the values of a message leaves behind.
abbrev pub Emits : ℕ → Bool × Client → Type 0
Emits id (true, t) = IsServing id t
Emits id (false, t) = IsValid t

abbrev pub ignore_value : ℕ → Client → Client
ignore_value id s = put id (record (s.heap id) { nignored_null = (s.heap id).nignored_null + 1 }) s

ignore-IsServing : (s : Client) (id : ℕ) → IsServing id s → IsServing id (ignore_value id s)
ignore-IsServing s id v = put-IsServing s id _ v (note-IsValid s id v.valid _ _ _ _ _) v.still

pub emit_values-ignored :
    (id : ℕ) (ds : List Json) (s : Client)
    → (s.heap id).ignore_null ≡ true
    → emit_values id (null ∷ ds) s ≡ emit_values id ds (ignore_value id s)
unfolding emit_values
emit_values-ignored id ds s e = ground arith

emit_values-refused :
    (id : ℕ) (ds : List Json) (s t : Client)
    → (s.heap id).ignore_null ≡ false
    → request_abandon id null_value s ≡ ok t
    → emit_values id (null ∷ ds) s ≡ ok (false, t)
unfolding emit_values
emit_values-refused id ds s t e f = ground arith

emit_values-Emits :
    (id : ℕ) (ds : List Json) (s : Client)
    → IsServing id s
    → Returns (Emits id) (emit_values id ds s)
unfolding emit_values
emit_values-Emits id [] s v = ((true, s), refl, v)
emit_values-Emits id (null ∷ ds) s v = elim (Bool-cases (s.heap id).ignore_null) [
  | inl ignore ↦
      let (r, e, x) = emit_values-Emits id ds (ignore_value id s) (ignore-IsServing s id v) in
      (r, emit_values-ignored id ds s ignore ∙ e, x)
  | inr strict ↦
      let (t, e, w) = request_abandon-IsValid s id null_value v.valid v.made in
      ((false, t), emit_values-refused id ds s t strict e, w)
]
emit_values-Emits id (bool b ∷ ds) s v = emit_values-Emits id ds _ (emit-IsServing s id (bool b) v)
emit_values-Emits id (num n ∷ ds) s v = emit_values-Emits id ds _ (emit-IsServing s id (num n) v)
emit_values-Emits id (str t ∷ ds) s v = emit_values-Emits id ds _ (emit-IsServing s id (str t) v)
emit_values-Emits id (arr vs ∷ ds) s v = emit_values-Emits id ds _ (emit-IsServing s id (arr vs) v)
emit_values-Emits id (obj fs ∷ ds) s v = emit_values-Emits id ds _ (emit-IsServing s id (obj fs) v)

pub request_emit_data-Emits :
    (id : ℕ) (m : Message) (s : Client)
    → IsServing id s
    → Returns (Emits id) (request_emit_data id m s)
unfolding request_emit_data
request_emit_data-Emits id m s v =
    let (r, e, x) = emit_values-Emits id (elements? (get "d" m.payload)) s v in (r, rw v.still e, x)

-- The request's stream ends gracefully.
abbrev pub ended_request : Request → Request
ended_request r = record r {
  done_graceful = true;
  timeout = false;
  events = r.events ++ ended ∷ [];
}

abbrev pub ended_state : ℕ → Client → Client
ended_state id s = finish id (ended_request (s.heap id)) s.abandoned s.immediates s

pub end_request-eq :
    (id : ℕ) (s : Client) → IsServing id s → end_request id true s ≡ ok (ended_state id s)
end_request-eq id s v = simp (
  request_complete-put id (record (s.heap id) { done_graceful = true }) s (ground arith)
      (pending-holds s id v.valid v.made v.still),
  update_self s.heap id (record (s.heap id) { done_graceful = true; timeout = false }),
  update-update s.heap id (record (s.heap id) { done_graceful = true; timeout = false }),
)

-- A pending request was never abandoned.
pub pending-not_abandoned : (s : Client) (id : ℕ) → IsServing id s → (s.heap id).abandoned ≢ true
pending-not_abandoned s id v e =
    let (failed, _) = (v.valid.fits id v.made).given_up e in let p = v.still in ground arith

ended_state-IsValid : (s : Client) (id : ℕ) → IsServing id s → IsValid (ended_state id s)
ended_state-IsValid s id v =
    let f = v.valid.fits id v.made in
    let (opened, unqueued) = f.running v.still in
    let last = stream_state-append (s.heap id).events ended in
    let fresh = pending-not_abandoned s id v in
    finish-IsValid s id _ s.abandoned s.immediates v.valid v.made v.still refl
      v.valid.abandoned_sorted (λ k j e. ground (arith, fresh, v.valid.abandoned_entry k j e))
      (λ k ne. refl) (λ j ne. refl)
      (record {
        registered = λ p. cc;
        running = λ p. cc;
        finishing = λ _. inr (ground arith, unqueued);
        given_up = λ a. absurd (fresh a);
        timed = λ t. cc;
      })

pub end_request-IsValid :
    (id : ℕ) (r : Bool × Client) → Emits id r → Returns IsValid (end_request id r.0 r.1)
end_request-IsValid id (true, s) v = (_, end_request-eq id s v, ended_state-IsValid s id v)
end_request-IsValid id (false, s) v = (s, refl, v)
