-- ===== src/Client/Identifiers/Values.antt =====
-- The values of a message in lib/fast_client.js, and the end of a request: which identifiers are
-- given up.
use node_fast.Base.{
  ℕ, ◌+◌, ◌≡◌, refl, ap, ◌∙◌, Bool, true, false, ◌||◌, List, [], ◌∷◌, ◌==◌, Whenever, bind-Whenever,
  assert-Whenever, branch-Whenever, Whenever-mono, arith,
}
use node_fast.Base.Map.{Map, has_own_property, erase, lookup-erase}
use node_fast.Json.{Json, null, bool, num, str, arr, obj, get, elements?}
use node_fast.Protocol.{Message}
use node_fast.Client.Request.{Request, datum, ended, emit, null_value, is_pending}
use node_fast.Client.State.{Client, put}
use node_fast.Client.Completion.{request_complete, request_abandon}
use node_fast.Client.Messages.{emit_values, request_emit_data, end_request}
use node_fast.Client.Api.{is_req_id_allocated}
use node_fast.Client.Invariant.Operations.{update_self}
use node_fast.Client.Identifiers.{
  SameRequests, Keeps, Keeps-trans, same-Keeps, put-Keeps, Frees, put-Same, request_complete-Frees,
  request_abandon-Keeps,
}

-- Identifier `j` alone may be given up.
abbrev pub LosesOnly : ℕ → Client → Client → Type 0
LosesOnly j s t =
    SameRequests s t
    × ((k : ℕ) → is_req_id_allocated s k ≡ true → (k == j) ≡ false → is_req_id_allocated t k ≡ true)

Keeps-LosesOnly : (j : ℕ) (s t : Client) → Keeps s t → LosesOnly j s t
Keeps-LosesOnly j s t (same, held) = (same, λ k h _. held k h)

pub after-LosesOnly : (j : ℕ) (s t u : Client) → Keeps s t → LosesOnly j t u → LosesOnly j s u
after-LosesOnly j s t u ((a, b), c) ((d, e), f) = ((d ∙ a, λ i. e i ∙ b i), λ k h. f k (c k h))

kept_elsewhere :
    (j k : ℕ) (p a : Map ℕ)
    → (has_own_property k p || has_own_property k a) ≡ true
    → (k == j) ≡ false
    → (has_own_property k (erase j p) || has_own_property k a) ≡ true
kept_elsewhere j k p a h ne = ground (arith, lookup-erase j k p)

pub forgotten_elsewhere :
    (j k : ℕ) (p a : Map ℕ)
    → (has_own_property k p || has_own_property k a) ≡ true
    → (k == j) ≡ false
    → (has_own_property k p || has_own_property k (erase j a)) ≡ true
forgotten_elsewhere j k p a h ne = ground (arith, lookup-erase j k a)

pub Frees-LosesOnly : (i j : ℕ) (s t : Client) → Frees i s t → i ≡ j → LosesOnly j s t
Frees-LosesOnly i j s t (same, gone, left) e =
    (same, λ k h ne. rw (gone, left, e) (kept_elsewhere j k s.pending s.abandoned h ne))

emit_one :
    (id : ℕ) (d : Json) (ds : List Json) (s : Client)
    → ((t : Client) → Whenever (λ r. Keeps t r.1) (emit_values id ds t))
    → Whenever (λ r. Keeps s r.1) (emit_values id ds (put id (emit (datum d) (s.heap id)) s))
emit_one id d ds s rest =
    let r = emit (datum d) (s.heap id) in
    Whenever-mono (λ x. Keeps (put id r s) x.1) (λ x. Keeps s x.1) (emit_values id ds (put id r s))
      (rest (put id r s)) (λ x h. Keeps-trans s (put id r s) x.1 (put-Keeps id r s refl) h)

emit_values-Keeps :
    (id : ℕ) (ds : List Json) (s : Client) → Whenever (λ r. Keeps s r.1) (emit_values id ds s)
unfolding emit_values
emit_values-Keeps id [] s = same-Keeps s
emit_values-Keeps id (null ∷ ds) s =
    let r = record (s.heap id) { nignored_null = (s.heap id).nignored_null + 1 } in
    branch-Whenever (λ x. Keeps s x.1) (s.heap id).ignore_null _ _
      (bind-Whenever (Keeps s) (λ x. Keeps s x.1) (request_abandon id null_value s) _
        (request_abandon-Keeps id null_value s) (λ t h. h))
      (Whenever-mono (λ x. Keeps (put id r s) x.1) (λ x. Keeps s x.1)
        (emit_values id ds (put id r s)) (emit_values-Keeps id ds (put id r s))
        (λ x h. Keeps-trans s (put id r s) x.1 (put-Keeps id r s refl) h))
emit_values-Keeps id (bool b ∷ ds) s = emit_one id (bool b) ds s (emit_values-Keeps id ds)
emit_values-Keeps id (num n ∷ ds) s = emit_one id (num n) ds s (emit_values-Keeps id ds)
emit_values-Keeps id (str c ∷ ds) s = emit_one id (str c) ds s (emit_values-Keeps id ds)
emit_values-Keeps id (arr vs ∷ ds) s = emit_one id (arr vs) ds s (emit_values-Keeps id ds)
emit_values-Keeps id (obj fs ∷ ds) s = emit_one id (obj fs) ds s (emit_values-Keeps id ds)

pub request_emit_data-Keeps :
    (id : ℕ) (m : Message) (s : Client) → Whenever (λ r. Keeps s r.1) (request_emit_data id m s)
unfolding request_emit_data
request_emit_data-Keeps id m s =
    assert-Whenever (λ r. Keeps s r.1) (is_pending (s.heap id)) _
      (emit_values-Keeps id (elements? (get "d" m.payload)) s)

pub end_request-LosesOnly :
    (id : ℕ) (b : Bool) (s : Client) → Whenever (LosesOnly (s.heap id).msgid s) (end_request id b s)
end_request-LosesOnly id false s = Keeps-LosesOnly _ s s (same-Keeps s)
end_request-LosesOnly id true s =
    let j = (s.heap id).msgid in
    let r = record (s.heap id) { done_graceful = true } in
    let u = put id r s in
    let here = ap (λ q. Request.msgid q) (update_self s.heap id r) in
    bind-Whenever (Frees (u.heap id).msgid u) (LosesOnly j s) (request_complete id u) _
      (request_complete-Frees id u)
      (λ t f.
        let before =
          after-LosesOnly j s u t (put-Keeps id r s refl) (Frees-LosesOnly _ j u t f here) in
        ((before.0.0, λ i. put-Same id (emit ended (t.heap id)) t refl i ∙ before.0.1 i), before.1))
