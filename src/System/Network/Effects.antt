-- ===== src/System/Network/Effects.antt =====
-- What a step of the client or of the server does to an orderly network.
use node_fast.Base.{
  ℕ, ◌+◌, ◌≤◌, ◌<◌, ◌≡◌, sym, ap, ◌∙◌, subst, inl, inr, true, false, ◌&&◌, Bool-cases, List, [],
  ◌∷◌, ◌++◌, ◌==◌, append-nil, ltb, ltb→lt, arith,
}
use node_fast.Protocol.{Message, is_final}
use node_fast.Client.State.{Client}
use node_fast.Client.Api.{is_req_id_allocated}
use node_fast.Client.Invariant.{IsValid}
use node_fast.Client.Identifiers.Acting.{Issues}
use node_fast.Client.Identifiers.Reading.{KeepsBut}
use node_fast.Server.State.{Server}
use node_fast.Server.Invariant.{IsConsistent}
use node_fast.Server.Effects.{one_if, mentions, finals, serving, as_list, Effect}
use node_fast.System.Network.{Network, news, is_tidy, IsOrderly}
use node_fast.System.Network.Counting.{
  mentions-append, finals-append, finals-mentions, is_tidy-append, is_tidy-other, is_tidy-as_list,
  news-append,
}

-- The server's connection has changed, and messages were taken from the calls for the credit.
pub served-IsOrderly :
    (h : ℕ) (n : Network) (u : Server) (calls : List Message) (credit : ℕ → ℕ)
    → IsOrderly h n
    → IsConsistent u
    → Effect credit (n.server.connections h) (u.connections h)
    → ((k : ℕ) → mentions k n.calls ≡ credit k + mentions k calls)
    → IsOrderly h (record n {
      server = u;
      calls = calls;
      replies = n.replies ++ news (n.server.connections h).outgoing (u.connections h).outgoing;
    })
served-IsOrderly h n u calls credit o v e paid =
    let more_replies = news-append _ _ (as_list e.sent) e.outgoing in
    subst
      (λ ms.
        IsOrderly h
          (record { client = n.client; server = u; calls = calls; replies = n.replies ++ ms }))
      (sym more_replies)
      (record {
        client_valid = o.client_valid;
        server_valid = v;
        once = λ k.
            omega
              (arith, o.once k, e.balanced k, paid k, finals-append k n.replies (as_list e.sent));
        owned = λ k some_left. o.owned k (
            omega (
              arith,
              some_left,
              e.balanced k,
              e.backed k,
              paid k,
              mentions-append k n.replies (as_list e.sent),
            ));
        tidy = λ k. tidied k;
      })
  where
    tidied : (k : ℕ) → is_tidy k (n.replies ++ as_list e.sent) ≡ true
    tidied k = elim (Bool-cases (mentions k (as_list e.sent) == 0)) [
      | inl f ↦ is_tidy-other k n.replies (as_list e.sent) (o.tidy k) (ground arith)
      | inr f ↦
          let some_sent : 0 < mentions k (as_list e.sent) = ground arith in
          is_tidy-append k n.replies (as_list e.sent) (o.tidy k) (is_tidy-as_list k e.sent)
            (omega (arith, o.once k, e.backed k, paid k, some_sent))
    ]

-- Nothing is under way for an identifier that the client does not hold.
unheld :
    (h k : ℕ) (n : Network)
    → IsOrderly h n
    → is_req_id_allocated n.client k ≡ false
    → mentions k n.calls + serving k (n.server.connections h) + mentions k n.replies ≡ 0
unheld h k n o free =
    let total = mentions k n.calls + serving k (n.server.connections h) + mentions k n.replies in
    elim (Bool-cases (ltb 0 total)) [
      | inl e ↦ absurd (cc (o.owned k (ltb→lt 0 total e), free))
      | inr e ↦ ground arith
    ]

issued_once :
    (h k : ℕ) (m : Message) (n : Network)
    → IsOrderly h n
    → is_req_id_allocated n.client m.msgid ≡ false
    → mentions k (n.calls ++ m ∷ []) + serving k (n.server.connections h) + finals k n.replies ≤ 1
issued_once h k m n o fresh = elim (Bool-cases (m.msgid == k)) [
  | inr e ↦
      let more_calls = mentions-append k n.calls (m ∷ []) in
      omega (arith, o.once k, more_calls, ap one_if e)
  | inl e ↦
      let same : m.msgid ≡ k = ground arith in
      let none_yet =
        unheld h k n o (subst (λ j. is_req_id_allocated n.client j ≡ false) same fresh) in
      omega (
        arith,
        none_yet,
        mentions-append k n.calls (m ∷ []),
        finals-mentions k n.replies,
        ap one_if e,
      )
]

issued_owned :
    (h k : ℕ) (m : Message) (n : Network) (t : Client)
    → IsOrderly h n
    → ((k : ℕ) → is_req_id_allocated n.client k ≡ true → is_req_id_allocated t k ≡ true)
    → is_req_id_allocated t m.msgid ≡ true
    → 0 < mentions k (n.calls ++ m ∷ []) + serving k (n.server.connections h) + mentions k n.replies
    → is_req_id_allocated t k ≡ true
issued_owned h k m n t o kept held left = elim (Bool-cases (m.msgid == k)) [
  | inr e ↦
      kept k (o.owned k (omega (arith, left, mentions-append k n.calls (m ∷ []), ap one_if e)))
  | inl e ↦
      let same : m.msgid ≡ k = ground arith in subst (λ j. is_req_id_allocated t j ≡ true) same held
]

-- The client has done something else than reading.
pub acted-IsOrderly :
    (h : ℕ) (n : Network) (t : Client)
    → IsOrderly h n
    → IsValid t
    → Issues n.client t
    → IsOrderly h (record n { client = t; calls = n.calls ++ news n.client.outgoing t.outgoing })
acted-IsOrderly h n t o v (kept, _, sent) = elim sent [
  | inl same ↦
      let nothing =
        news-append n.client.outgoing t.outgoing [] (same ∙ sym (append-nil n.client.outgoing)) in
      subst
        (λ ms.
          IsOrderly h
            (record { client = t; server = n.server; calls = n.calls ++ ms; replies = n.replies }))
        (sym nothing)
        (record {
          client_valid = v;
          server_valid = o.server_valid;
          once = λ k. omega (arith, o.once k, mentions-append k n.calls []);
          owned = λ k left. kept k (o.owned k (omega (arith, left, mentions-append k n.calls [])));
          tidy = o.tidy;
        })
  | inr (m, one_more, fresh, held, _) ↦
      let call = news-append n.client.outgoing t.outgoing (m ∷ []) one_more in
      subst
        (λ ms.
          IsOrderly h
            (record { client = t; server = n.server; calls = n.calls ++ ms; replies = n.replies }))
        (sym call)
        (record {
          client_valid = v;
          server_valid = o.server_valid;
          once = λ k. issued_once h k m n o fresh;
          owned = λ k left. issued_owned h k m n t o kept held left;
          tidy = o.tidy;
        })
]

-- The last message of a request leaves nothing of it.
not_final :
    (k others : ℕ) (m : Message) (rest : List Message)
    → is_tidy k (m ∷ rest) ≡ true
    → others + finals k (m ∷ rest) ≤ 1
    → 0 < others + mentions k rest
    → (k == m.msgid && is_final m) ≡ false
not_final k others m rest order once left = ground arith

-- The client has read the oldest message.
read_owned :
    (h k : ℕ) (m : Message) (rest : List Message) (n : Network) (t : Client)
    → IsOrderly h n
    → n.replies ≡ m ∷ rest
    → KeepsBut m n.client t
    → 0 < mentions k n.calls + serving k (n.server.connections h) + mentions k rest
    → is_req_id_allocated t k ≡ true
read_owned h k m rest n t o first (same, kept) left =
    let order = subst (λ ms. is_tidy k ms ≡ true) first (o.tidy k) in
    kept k (o.owned k (omega (arith, left, ap (mentions k) first))) (
      not_final k (mentions k n.calls + serving k (n.server.connections h)) m rest order
        (omega (arith, o.once k, ap (finals k) first)) left)

pub read-IsOrderly :
    (h : ℕ) (m : Message) (rest : List Message) (n : Network) (t : Client)
    → IsOrderly h n
    → n.replies ≡ m ∷ rest
    → IsValid t
    → KeepsBut m n.client t
    → IsOrderly h (record n { client = t; replies = rest })
read-IsOrderly h m rest n t o first v keeps = record {
  client_valid = v;
  server_valid = o.server_valid;
  once = λ k. omega (arith, o.once k, ap (finals k) first);
  owned = λ k. read_owned h k m rest n t o first keeps;
  tidy =
      λ k. let order = subst (λ ms. is_tidy k ms ≡ true) first (o.tidy k) in ground (arith, order);
}
