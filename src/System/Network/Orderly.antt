-- ===== src/System/Network/Orderly.antt =====
-- What client and server rely on of each other, in every network that steps lead to.
use node_fast.Base.{ℕ, ◌+◌, ◌==◌, ◌≤◌, ◌≡◌, refl, ap, ◌∙◌, Bool, true, not, List, [], ◌∷◌, arith}
use node_fast.Base.Map.{has_own_property, lookup-empty}
use node_fast.Protocol.{Message}
use node_fast.Client.State.{Client}
use node_fast.Client.Api.{is_req_id_allocated}
use node_fast.Client.Invariant.Handle as ClientRuns
use node_fast.Server.State.{Connection, Server}
use node_fast.Server.Invariant.Handle as ServerRuns
use node_fast.Server.Effects.{one_if, mentions, finals, serving}
use node_fast.System.Network.{Network, Runs, joined, then_, IsOrderly}
use node_fast.System.Network.Steps.{Step-IsOrderly}

joined-IsOrderly :
    (h : ℕ) (s : Client) (u : Server)
    → ClientRuns.Reaches s
    → ServerRuns.Reaches u
    → (u.connections h).pending ≡ []
    → IsOrderly h (record { client = s; server = u; calls = []; replies = [] })
joined-IsOrderly h s u r q idle =
    let none_served : (k : ℕ) → serving k (u.connections h) ≡ 0 =
      λ k. ap (λ p. one_if (has_own_property k p)) idle ∙ rw (lookup-empty k) refl in
    record {
      client_valid = ClientRuns.Reaches-IsValid s r;
      server_valid = ServerRuns.Reaches-IsConsistent u q;
      once = λ k. omega (arith, none_served k);
      owned = λ k left. absurd (omega (arith, left, none_served k));
      tidy = λ k. refl;
    }

pub Runs-IsOrderly : {h : ℕ} {n : Network} → Runs h n → IsOrderly h n
Runs-IsOrderly {h = h} (joined s u r q known made idle) = joined-IsOrderly h s u r q idle
Runs-IsOrderly {h = h} (then_ run step) = Step-IsOrderly h step (Runs-IsOrderly run)

-- The client knows the request of the oldest reply.
abbrev pub is_known : Client → List Message → Bool
is_known s [] = true
is_known s (m ∷ ms) = is_req_id_allocated s m.msgid

-- The server serves no request with the identifier of the oldest call.
abbrev pub is_unused : Connection → List Message → Bool
is_unused c [] = true
is_unused c (m ∷ ms) = not (has_own_property m.msgid c.pending)

oldest-is_known :
    (h : ℕ) (n : Network) (ms : List Message)
    → IsOrderly h n
    → n.replies ≡ ms
    → is_known n.client ms ≡ true
oldest-is_known h n [] o e = refl
oldest-is_known h n (m ∷ ms) o e =
    let one_more : mentions m.msgid n.replies ≡ one_if (m.msgid == m.msgid) + mentions m.msgid ms =
      ap (mentions m.msgid) e in
    o.owned m.msgid (ground (arith, one_more))

oldest-is_unused :
    (h : ℕ) (n : Network) (ms : List Message)
    → IsOrderly h n
    → n.calls ≡ ms
    → is_unused (n.server.connections h) ms ≡ true
oldest-is_unused h n [] o e = refl
oldest-is_unused h n (m ∷ ms) o e =
    let one_more : mentions m.msgid n.calls ≡ one_if (m.msgid == m.msgid) + mentions m.msgid ms =
      ap (mentions m.msgid) e in
    ground (arith, o.once m.msgid, one_more)

-- A client of one of the protocol's versions and a server on an open connection, from a connection
-- that has served nothing yet, in any order of calls, timers, messages, handlers' actions,
-- connection events and other connections' messages. Of every message identifier there is at most
-- one call under way, request that the server serves, or last message of a reply under way. So the
-- oldest reply belongs to a request that the client has pending or abandoned, and the client never
-- reports an unknown identifier; and the oldest call has an identifier that the server does not
-- serve, and the server never terminates the connection for a duplicate one.
pub Runs-orderly :
    (h k : ℕ) (n : Network)
    → Runs h n
    → (is_known n.client n.replies ≡ true)
      × (is_unused (n.server.connections h) n.calls ≡ true)
      × (mentions k n.calls + serving k (n.server.connections h) + finals k n.replies ≤ 1)
Runs-orderly h k n run =
    let o = Runs-IsOrderly run in
    (oldest-is_known h n n.replies o refl, oldest-is_unused h n n.calls o refl, o.once k)
