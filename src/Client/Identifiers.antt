-- ===== src/Client/Identifiers.antt =====
-- Which message identifiers the client of lib/fast_client.js holds: no operation gives one up but
-- the end of its request.
pub mod Values
pub mod Reading
pub mod Acting
use node_fast.Base.{
  ℕ, ◌+◌, ◌≡◌, refl, sym, ap, ◌∙◌, Bool, true, false, not, ◌&&◌, ◌||◌, none, some, List, [], ◌∷◌,
  ◌++◌, ◌==◌, if◌then◌else◌, is_none, is_some, Outcome, ok, assert, ◌>>=◌, ◌>>◌, Whenever,
  bind-Whenever, assert-Whenever, if-Whenever, branch-Whenever, cases-Whenever, Whenever-mono,
  Option-cases, inl, inr, Bool-cases, ltb, arith,
}
use node_fast.Base.Map.{
  Map, lookup, has_own_property, insert, erase, keys, lookup-insert, lookup-erase,
}
use node_fast.Protocol.{Message}
use node_fast.Client.Request.{Request, Cause, is_pending}
use node_fast.Client.State.{Client, put, update}
use node_fast.Client.Completion.{
  request_complete, request_fail, request_abandon, abandon_property, abandon_properties,
  request_abandon_all, fatal_error, holds, push_recent,
}
use node_fast.Client.Api.{is_req_id_allocated}
use node_fast.Client.Invariant.Operations.{update_self}
use node_fast.Client.Invariant.Updates.{update_cases}

-- What the client has sent, and the version of what it sends.
abbrev pub wire : Client → List Message × ℕ
wire s = (s.outgoing, s.version)

-- The requests keep their identifiers, and nothing is sent.
abbrev pub SameRequests : Client → Client → Type 0
SameRequests s t = (wire t ≡ wire s) × ((i : ℕ) → (t.heap i).msgid ≡ (s.heap i).msgid)

-- Every identifier that was held is held still.
abbrev pub Keeps : Client → Client → Type 0
Keeps s t =
    SameRequests s t × ((k : ℕ) → is_req_id_allocated s k ≡ true → is_req_id_allocated t k ≡ true)

pub Keeps-trans : (s t u : Client) → Keeps s t → Keeps t u → Keeps s u
Keeps-trans s t u ((a, b), c) ((d, e), f) = ((d ∙ a, λ i. e i ∙ b i), λ k h. f k (c k h))

-- The request's identifier alone may be given up.
abbrev pub Frees : ℕ → Client → Client → Type 0
Frees k s t = SameRequests s t × (t.pending ≡ erase k s.pending) × (t.abandoned ≡ s.abandoned)

pub put-Same :
    (id : ℕ) (r : Request) (s : Client)
    → r.msgid ≡ (s.heap id).msgid
    → (i : ℕ) → (update s.heap id r i).msgid ≡ (s.heap i).msgid
put-Same id r s e i =
    update_cases (λ j x. x.msgid ≡ (s.heap j).msgid) s.heap id r i (λ _. e) (λ _. refl)

pub put-Keeps :
    (id : ℕ) (r : Request) (s : Client) → r.msgid ≡ (s.heap id).msgid → Keeps s (put id r s)
put-Keeps id r s e = ((refl, put-Same id r s e), λ k h. h)

pub request_complete-Frees :
    (id : ℕ) (s : Client) → Whenever (Frees (s.heap id).msgid s) (request_complete id s)
unfolding request_complete
request_complete-Frees id s =
    let r = record (s.heap id) { timeout = false } in
    let done : Frees (s.heap id).msgid s (record (put id r s) {
      pending = erase (s.heap id).msgid s.pending;
      nrpc_done = s.nrpc_done + 1;
      recentrpc = push_recent s.nrecent id s.recentrpc;
    }) =
      ((refl, put-Same id r s refl), refl, refl) in
    search (assert-Whenever, done)

-- What is said of a client after a write to a request is said of the client before it.
pub Frees-put :
    (id k j : ℕ) (r : Request) (s t : Client)
    → r.msgid ≡ (s.heap id).msgid
    → Frees j (put id r s) t
    → j ≡ k
    → Frees k s t
Frees-put id k j r s t e ((sent, same), gone, left) f =
    ((sent, λ i. same i ∙ put-Same id r s e i), gone ∙ ap (λ l. erase l s.pending) f, left)

pub request_fail-Frees :
    (id : ℕ) (cause : Cause) (s : Client)
    → Whenever (Frees (s.heap id).msgid s) (request_fail id cause s)
unfolding request_fail
request_fail-Frees id cause s =
    let r = record (s.heap id) { error = some cause } in
    let u = put id r s in
    let here = ap (λ q. Request.msgid q) (update_self s.heap id r) in
    let rest : Whenever (Frees (s.heap id).msgid s)
        (request_complete id u >>= λ t. ok (record t { immediates = t.immediates ++ id ∷ [] })) =
      bind-Whenever (Frees (u.heap id).msgid u) (Frees (s.heap id).msgid s) (request_complete id u)
        _ (request_complete-Frees id u)
        (λ t f.
          let ((sent, same), gone, left) =
            Frees-put id (s.heap id).msgid (u.heap id).msgid r s t refl f here in
          ((sent, same), gone, left)) in
    search (assert-Whenever, rest)

pub same-Keeps : (s : Client) → Keeps s s
same-Keeps s = ((refl, λ i. refl), λ k h. h)

moved :
    (k j id : ℕ) (p a : Map ℕ)
    → (has_own_property j p || has_own_property j a) ≡ true
    → (has_own_property j (erase k p) || has_own_property j (insert k id a)) ≡ true
moved k j id p a h = ground (arith, lookup-erase k j p, lookup-insert k j id a)

-- The request fails, and its identifier is held by the other table.
abandoned-Keeps :
    (id : ℕ) (cause : Cause) (s : Client)
    → Whenever (Keeps s) (
        request_fail id cause (record (put id (record (s.heap id) { abandoned = true }) s) {
          abandoned = insert (s.heap id).msgid id s.abandoned;
        }))
abandoned-Keeps id cause s =
    let k = (s.heap id).msgid in
    let r = record (s.heap id) { abandoned = true } in
    let v = record s { abandoned = insert k id s.abandoned } in
    let u = put id r v in
    let here = ap (λ q. Request.msgid q) (update_self s.heap id r) in
    Whenever-mono (Frees (u.heap id).msgid u) (Keeps s) (request_fail id cause u)
      (request_fail-Frees id cause u)
      (λ t f.
        let (same, gone, left) = Frees-put id k (u.heap id).msgid r v t refl f here in
        (same, λ j h. rw (gone, left) (moved k j id s.pending s.abandoned h)))

pub request_abandon-Keeps :
    (id : ℕ) (cause : Cause) (s : Client) → Whenever (Keeps s) (request_abandon id cause s)
unfolding request_abandon
request_abandon-Keeps id cause s =
    branch-Whenever (Keeps s) (is_pending (s.heap id)) _ _ (same-Keeps s) (
      assert-Whenever (Keeps s) (holds (s.heap id).msgid id s.pending) _
        (abandoned-Keeps id cause s))

abandon_property-Keeps :
    (k : ℕ) (cause : Cause) (s : Client) → Whenever (Keeps s) (abandon_property k cause s)
unfolding abandon_property
abandon_property-Keeps k cause s =
    cases-Whenever (Keeps s) (lookup k s.pending) _ _ (λ _. same-Keeps s)
      (λ id _. assert-Whenever (Keeps s) (is_pending (s.heap id)) _ (
        bind-Whenever (Keeps s) (Keeps s) (request_abandon id cause s) _
          (request_abandon-Keeps id cause s)
          (λ t h. assert-Whenever (Keeps s) (not (has_own_property k t.pending)) (ok t) h)))

abandon_properties-Keeps :
    (ks : List ℕ) (cause : Cause) (s : Client) → Whenever (Keeps s) (abandon_properties ks cause s)
unfolding abandon_properties
abandon_properties-Keeps [] cause s = same-Keeps s
abandon_properties-Keeps (k ∷ ks) cause s =
    bind-Whenever (Keeps s) (Keeps s) (abandon_property k cause s) (abandon_properties ks cause)
      (abandon_property-Keeps k cause s)
      (λ t h.
        Whenever-mono (Keeps t) (Keeps s) (abandon_properties ks cause t)
          (abandon_properties-Keeps ks cause t) (λ u g. Keeps-trans s t u h g))

pub request_abandon_all-Keeps :
    (cause : Cause) (s : Client) → Whenever (Keeps s) (request_abandon_all cause s)
unfolding request_abandon_all
request_abandon_all-Keeps cause s = abandon_properties-Keeps (keys s.pending) cause s

pub fatal_error-Keeps : (cause : Cause) (s : Client) → Whenever (Keeps s) (fatal_error cause s)
unfolding fatal_error
fatal_error-Keeps cause s =
    cases-Whenever (Keeps s) s.error _ _
      (λ _. request_abandon_all-Keeps cause (record s {
        nerrors = s.nerrors + 1;
        error = some cause;
        emitted = s.emitted ++ cause ∷ [];
      }))
      (λ _ _. same-Keeps s)
