-- ===== src/Server/Effects.antt =====
-- What the steps of lib/fast_server.js do to one connection: the messages that they send on it,
-- and the identifiers that it has pending.
pub mod Still
pub mod Answering
pub mod Ending
pub mod Starting
pub mod Acting
use node_fast.Base.{
  ℕ, ◌+◌, ◌≤◌, ◌≡◌, refl, ap, ◌∙◌, sym, Bool, true, false, ◌&&◌, ◌||◌, Option, none, some, List, [],
  ◌∷◌, ◌++◌, ◌==◌, if◌then◌else◌, is_some, append-nil, arith,
}
use node_fast.Base.Map.{lookup, has_own_property}
use node_fast.Protocol.{Message, is_final}
use node_fast.Server.State.{Connection}

abbrev pub one_if : Bool → ℕ
one_if b = if b then 1 else 0

-- How many of the messages have the identifier, and how many of those end their request.
abbrev pub mentions : ℕ → List Message → ℕ
mentions k [] = 0
mentions k (m ∷ ms) = one_if (m.msgid == k) + mentions k ms

abbrev pub finals : ℕ → List Message → ℕ
finals k [] = 0
finals k (m ∷ ms) = one_if (m.msgid == k && is_final m) + finals k ms

-- Whether the connection has the identifier pending, as a number.
abbrev pub serving : ℕ → Connection → ℕ
serving k c = one_if (has_own_property k c.pending)

abbrev pub as_list : Option Message → List Message
as_list none = []
as_list (some m) = m ∷ []

-- At most one message is sent. An identifier that it has was pending, or there is credit for it,
-- and no more of the identifier is left than there was, the end of its request included.
pub record Effect (credit : ℕ → ℕ) (c d : Connection) : Type 0 where
  pub sent : Option Message
  pub outgoing : d.outgoing ≡ c.outgoing ++ as_list sent
  pub backed : (k : ℕ) → mentions k (as_list sent) ≤ serving k c + credit k
  pub balanced : (k : ℕ) → serving k d + finals k (as_list sent) ≤ serving k c + credit k

-- Nothing is sent, and the same identifiers are pending.
pub still-Effect :
    (credit : ℕ → ℕ) (c d : Connection)
    → d.pending ≡ c.pending
    → d.outgoing ≡ c.outgoing
    → Effect credit c d
still-Effect credit c d e f = record {
  sent = none;
  outgoing = f ∙ sym (append-nil c.outgoing);
  backed = λ k. omega arith;
  balanced = λ k. rw e (omega arith);
}
