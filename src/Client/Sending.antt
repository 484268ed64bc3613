-- ===== src/Client/Sending.antt =====
-- What the client of lib/fast_client.js sends is well formed.
use node_fast.Base.{
  ℕ, ◌≡◌, refl, sym, ap, ◌∙◌, subst, inl, inr, Option, [], ◌∷◌, ok, ok_injective, Returns, Whenever,
}
use node_fast.Protocol.{Message}
use node_fast.Protocol.Decoder.WellFormed.{IsKnown, AllWellFormed, AllWellFormed-append}
use node_fast.Subr.IdAllocator
use node_fast.Client.State.{Client}
use node_fast.Client.State
use node_fast.Client.Api.{Event, message, handle}
use node_fast.Client.Invariant.{IsValid}
use node_fast.Client.Invariant.Handle.{Allowed, Reaches, created, after, Reaches-IsValid}
use node_fast.Client.Identifiers.Reading.{KeepsBut, on_message-KeepsBut}
use node_fast.Client.Identifiers.Acting.{Issues, acting-Issues}

-- Reading sends nothing, and the version stays.
pub read-version :
    (m : Message) (s t : Client)
    → IsValid s
    → handle (message m) s ≡ ok t
    → (t.version ≡ s.version) × (t.outgoing ≡ s.outgoing)
unfolding handle
read-version m s t v e =
    let keeps = subst (Whenever (KeepsBut m s)) e (on_message-KeepsBut m s v) in
    (ap (λ w. w.1) keeps.0.0, ap (λ w. w.0) keeps.0.0)

acted :
    (s t : Client)
    → Issues s t
    → (IsKnown s.version → AllWellFormed s.outgoing)
    → IsKnown t.version
    → AllWellFormed t.outgoing
acted s t (_, version, sent) before known =
    let was = subst IsKnown version known in
    elim sent [
      | inl same ↦ subst AllWellFormed (sym same) (before was)
      | inr (m, one_more, _, _, good) ↦
          subst AllWellFormed (sym one_more)
            (AllWellFormed-append s.outgoing (m ∷ []) (before was) (good was, tt))
    ]

stepped :
    (event : Event) (s t : Client)
    → IsValid s
    → Allowed event s
    → handle event s ≡ ok t
    → (IsKnown s.version → AllWellFormed s.outgoing)
    → IsKnown t.version
    → AllWellFormed t.outgoing
stepped (message m) s t v a e before known =
    let (version, same) = read-version m s t v e in
    subst AllWellFormed (sym same) (before (subst IsKnown version known))
stepped event s t v a e before known = acted s t (acting-Issues event s t v a refl e) before known

created-sent :
    (version : Option ℕ) (nrecent : ℕ)
    → Returns (λ s. s.outgoing ≡ []) (State.create version nrecent)
unfolding State.create IdAllocator.create
created-sent version nrecent = (_, refl, refl)

-- Everything that a client in use has sent, with one of the protocol's versions, is well formed.
pub Reaches-sent : (s : Client) → Reaches s → IsKnown s.version → AllWellFormed s.outgoing
Reaches-sent s (created version nrecent _ e) known =
    let (t, f, nothing) = created-sent version nrecent in
    let same : s.outgoing ≡ [] =
      subst (λ x. Client.outgoing x ≡ []) (ok_injective (sym f ∙ e)) nothing in
    subst AllWellFormed (sym same) tt
Reaches-sent t (after event s _ r a e) known =
    stepped event s t (Reaches-IsValid s r) a e (Reaches-sent s r) known
