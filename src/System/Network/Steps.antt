-- ===== src/System/Network/Steps.antt =====
-- Every step of client, server and channels keeps the network orderly.
use node_fast.Base.{ℕ, ◌≡◌, sym, ap, ◌∙◌, subst, ok, ok_injective, Whenever, arith}
use node_fast.Client.State.{Client}
use node_fast.Client.Api.{is_req_id_allocated}
use node_fast.Client.Api as ClientApi
use node_fast.Client.Invariant.{IsValid}
use node_fast.Client.Invariant.Handle as ClientRuns
use node_fast.Client.Identifiers.Acting.{acting-Issues}
use node_fast.Client.Identifiers.Reading.{KeepsBut, on_message-KeepsBut}
use node_fast.Server.State.{Server}
use node_fast.Server.Api as ServerApi
use node_fast.Server.Invariant.{IsConsistent}
use node_fast.Server.Invariant.Handle as ServerRuns
use node_fast.Server.Effects.{mentions}
use node_fast.Server.Effects.Starting.{on_message-Affects, credit_of}
use node_fast.Server.Effects.Acting.{acting-Affects}
use node_fast.Server.Effects.Answering.{no_credit, Affects}
use node_fast.System.Network.{
  Network, Step, client_acts, client_reads, server_acts, server_reads, IsOrderly,
}
use node_fast.System.Network.Effects.{served-IsOrderly, acted-IsOrderly, read-IsOrderly}

-- A step that returns a valid client, and a valid server.
client_after :
    (event : ClientApi.Event) (s t : Client)
    → IsValid s
    → ClientRuns.Allowed event s
    → ClientApi.handle event s ≡ ok t
    → IsValid t
client_after event s t v a e =
    let (u, f, w) = ClientRuns.handle-IsValid event s v a in
    subst IsValid (ok_injective (sym f ∙ e)) w

server_after :
    (event : ServerApi.Event) (s t : Server)
    → IsConsistent s
    → ServerRuns.Allowed event s
    → ServerApi.handle event s ≡ ok t
    → IsConsistent t
server_after event s t v a e =
    let (u, f, w) = ServerRuns.handle-IsConsistent event s v a in
    subst IsConsistent (ok_injective (sym f ∙ e)) w

-- A step of an orderly network leads to an orderly one.
pub Step-IsOrderly : (h : ℕ) {n o : Network} → Step h n o → IsOrderly h n → IsOrderly h o
unfolding ClientApi.handle ServerApi.handle
Step-IsOrderly h (client_acts event n t a other e) o =
    acted-IsOrderly h n t o (client_after event n.client t o.client_valid a e)
      (acting-Issues event n.client t o.client_valid a other e)
Step-IsOrderly h (client_reads m rest n t first a e) o =
    read-IsOrderly h m rest n t o first
      (client_after (ClientApi.message m) n.client t o.client_valid a e)
      (subst (Whenever (KeepsBut m n.client)) e (on_message-KeepsBut m n.client o.client_valid))
Step-IsOrderly h (server_acts event n u a other e) o =
    served-IsOrderly h n u n.calls no_credit o (server_after event n.server u o.server_valid a e)
      (acting-Affects h event n.server u o.server_valid a other e) (λ k. omega arith)
Step-IsOrderly h (server_reads uts m rest n u first a e) o =
    let k = (n.server.connections h).connid in
    let event = ServerApi.incoming uts k m in
    served-IsOrderly h n u rest (credit_of m) o (server_after event n.server u o.server_valid a e)
      (subst (Whenever (Affects (credit_of m) h n.server)) e
        (on_message-Affects uts k h m n.server))
      (λ j. ap (mentions j) first)
