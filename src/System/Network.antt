-- ===== src/System/Network.antt =====
-- A client of lib/fast_client.js and one connection of a server of lib/fast_server.js, joined by
-- two channels that keep the order of the messages.
pub mod Counting
pub mod Effects
pub mod Steps
pub mod Orderly
pub mod Delivery
use node_fast.Base.{
  ℕ, ◌+◌, ◌≤◌, ◌<◌, ◌≡◌, Bool, true, false, not, ◌&&◌, ◌||◌, List, [], ◌∷◌, ◌++◌, ◌==◌, ok, drop,
  length,
}
use node_fast.Base.Map.{has_own_property}
use node_fast.Protocol.{Message, is_final}
use node_fast.Protocol.Decoder.WellFormed.{IsKnown}
use node_fast.Client.State.{Client}
use node_fast.Client.Api.{is_req_id_allocated}
use node_fast.Client.Api as ClientApi
use node_fast.Client.Invariant.{IsValid}
use node_fast.Client.Invariant.Handle as ClientRuns
use node_fast.Client.Identifiers.Acting.{is_message}
use node_fast.Server.State.{Connection, Server}
use node_fast.Server.Api as ServerApi
use node_fast.Server.Invariant.{IsConsistent}
use node_fast.Server.Invariant.Handle as ServerRuns
use node_fast.Server.Effects.{mentions, finals, serving}
use node_fast.Server.Effects.Acting.{Elsewhere}

-- `calls` and `replies` are the messages under way, oldest first.
pub record Network : Type 0 where
  pub client : Client
  pub server : Server
  pub calls : List Message
  pub replies : List Message

-- What was written since the log had the length of `before`.
abbrev pub news : List Message → List Message → List Message
news before log = drop (length before) log

-- One step, for the connection at place `h`. What client and server write goes into the channels
-- at once. Everything else that may happen to a server, on other connections as well, is a step.
pub data Step (h : ℕ) : Network → Network → Type 0 where
  client_acts :
      (event : ClientApi.Event) (n : Network) (t : Client)
      → ClientRuns.Allowed event n.client
      → is_message event ≡ false
      → ClientApi.handle event n.client ≡ ok t
      → Step h n (record n { client = t; calls = n.calls ++ news n.client.outgoing t.outgoing })
  client_reads :
      (m : Message) (rest : List Message) (n : Network) (t : Client)
      → n.replies ≡ m ∷ rest
      → ClientRuns.Allowed (ClientApi.message m) n.client
      → ClientApi.handle (ClientApi.message m) n.client ≡ ok t
      → Step h n (record n { client = t; replies = rest })
  server_acts :
      (event : ServerApi.Event) (n : Network) (u : Server)
      → ServerRuns.Allowed event n.server
      → Elsewhere h event n.server
      → ServerApi.handle event n.server ≡ ok u
      → Step h n (record n {
        server = u;
        replies = n.replies ++ news (n.server.connections h).outgoing (u.connections h).outgoing;
      })
  server_reads :
      (uts : ℕ) (m : Message) (rest : List Message) (n : Network) (u : Server)
      → n.calls ≡ m ∷ rest
      → ServerRuns.Allowed (ServerApi.incoming uts (n.server.connections h).connid m) n.server
      → ServerApi.handle (ServerApi.incoming uts (n.server.connections h).connid m) n.server ≡ ok u
      → Step h n (record n {
        server = u;
        calls = rest;
        replies = n.replies ++ news (n.server.connections h).outgoing (u.connections h).outgoing;
      })

-- The networks that steps lead to, from a connection that has served nothing yet, and a client of
-- one of the protocol's versions.
pub data Runs (h : ℕ) : Network → Type 0 where
  joined :
      (s : Client) (u : Server)
      → ClientRuns.Reaches s
      → ServerRuns.Reaches u
      → IsKnown s.version
      → h < u.nconnections
      → (u.connections h).pending ≡ []
      → Runs h (record { client = s; server = u; calls = []; replies = [] })
  then_ : {n o : Network} → Runs h n → Step h n o → Runs h o

-- After the last message of a request no other message has its identifier.
abbrev pub is_tidy : ℕ → List Message → Bool
is_tidy k [] = true
is_tidy k (m ∷ ms) = (not (m.msgid == k && is_final m) || mentions k ms == 0) && is_tidy k ms

-- Of each identifier there is at most one call under way, request being served, or last message of
-- a reply under way; and while there is one, or any other message of a reply, the client holds the
-- identifier.
pub record IsOrderly (h : ℕ) (n : Network) : Type 0 where
  pub client_valid : IsValid n.client
  pub server_valid : IsConsistent n.server
  pub once :
      (k : ℕ) → mentions k n.calls + serving k (n.server.connections h) + finals k n.replies ≤ 1
  pub owned :
      (k : ℕ)
      → 0 < mentions k n.calls + serving k (n.server.connections h) + mentions k n.replies
      → is_req_id_allocated n.client k ≡ true
  pub tidy : (k : ℕ) → is_tidy k n.replies ≡ true
