-- ===== src/Server/Effects/Answering.antt =====
-- The reply of a handler in lib/fast_server.js, as it changes one connection.
use node_fast.Base.{
  ℕ, ◌+◌, ◌<◌, ◌≤◌, ◌≡◌, refl, sym, subst, inl, inr, Bool, true, false, ◌&&◌, Bool-cases, some,
  ◌==◌, if◌then◌else◌, ok, Whenever, assert-Whenever, if-Whenever, split-Whenever, arith,
}
use node_fast.Base.Map.{Map, has_own_property}
use node_fast.Json.{Json, is_object}
use node_fast.Protocol.{Message, is_final}
use node_fast.Server.State.{Request, Server}
use node_fast.Server.Response.{is_running, write, data_message, encoder_transform, emit}
use node_fast.Server.Api.{context_write, sink}
use node_fast.Server.Invariant.{IsConsistent}
use node_fast.Server.Invariant.Updates.{update_cases}
use node_fast.Server.Effects.{one_if, serving, Effect, still-Effect}

abbrev pub no_credit : ℕ → ℕ
no_credit k = 0

-- What the step does to connection `h`.
abbrev pub Affects : (ℕ → ℕ) → ℕ → Server → Server → Type 0
Affects credit h s t = Effect credit (s.connections h) (t.connections h)

pub same-Affects : (credit : ℕ → ℕ) (h : ℕ) (s : Server) → Affects credit h s s
same-Affects credit h s = still-Effect credit (s.connections h) (s.connections h) refl refl

pub backed_by :
    (j k : ℕ) (p : Map ℕ)
    → has_own_property j p ≡ true
    → one_if (j == k) ≤ one_if (has_own_property k p)
backed_by j k p e = elim (Bool-cases (j == k)) [
  | inr f ↦ rw f (omega arith)
  | inl f ↦
      let same : j ≡ k = ground arith in
      rw (f, subst (λ i. has_own_property i p ≡ true) same e) (omega arith)
]

-- A request that runs is pending with its connection.
pub held :
    (id : ℕ) (s : Server)
    → IsConsistent s
    → id < s.nrequests
    → is_running (s.requests id).state ≡ true
    → has_own_property (s.requests id).msgid (s.connections (s.requests id).conn).pending ≡ true
held id s v made runs = rw ((v.running id made runs).held) refl

write-Affects :
    (h : ℕ) (r : Request) (m : Message) (s : Server)
    → m.msgid ≡ r.msgid
    → is_final m ≡ false
    → has_own_property r.msgid (s.connections r.conn).pending ≡ true
    → Affects no_credit h s (write r.conn m s)
write-Affects h r m s same last own =
    update_cases (λ i x. Effect no_credit (s.connections i) x) s.connections r.conn _ h
      (λ _.
        let p = (s.connections r.conn).pending in
        let mine = subst (λ j. has_own_property j p ≡ true) (sym same) own in
        record {
          sent = some m;
          outgoing = refl;
          backed = λ k. omega (arith, backed_by m.msgid k p mine);
          balanced =
              λ k. quiet_end (m.msgid == k) (is_final m) (serving k (s.connections r.conn)) last;
        })
      (λ _. still-Effect no_credit _ _ refl refl)
  where
    quiet_end : (b c : Bool) (n : ℕ) → c ≡ false → n + (one_if (b && c) + 0) ≤ n + 0
    quiet_end b c n e = ground arith

if-Affects :
    (credit : ℕ → ℕ) (h : ℕ) (b : Bool) (s t u : Server)
    → Affects credit h s t
    → Affects credit h s u
    → Affects credit h s (if b then t else u)
if-Affects credit h true s t u e f = e
if-Affects credit h false s t u e f = f

-- A value that is written.
pub context_write-Affects :
    (uts id h : ℕ) (value : Json) (s : Server)
    → IsConsistent s
    → id < s.nrequests
    → Whenever (Affects no_credit h s) (context_write uts id value s)
unfolding context_write encoder_transform
context_write-Affects uts id h value s v made =
    let r = s.requests id in
    let m = data_message uts r value in
    if-Whenever (Affects no_credit h s) r.blackhole (ok (sink id s)) _ (same-Affects no_credit h s)
      (split-Whenever (Affects no_credit h s) (is_running r.state) _ _
        (λ _. same-Affects no_credit h s)
        (λ runs. assert-Whenever (Affects no_credit h s) (is_object value) (ok (emit r m s)) (
          if-Affects no_credit h r.attached s (write r.conn m s) s
            (write-Affects h r m s refl refl (held id s v made runs))
            (same-Affects no_credit h s))))
