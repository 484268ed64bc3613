-- ===== src/System/Network/Delivery.antt =====
-- No message is stuck between client and server: both send well-formed messages only.
use node_fast.Base.{
  ℕ, suc, ◌≡◌, refl, sym, ◌∙◌, subst, inl, inr, List, [], ◌∷◌, append-nil, ok, Whenever,
}
use node_fast.Protocol.{Message}
use node_fast.Protocol.Decoder.WellFormed.{
  IsKnown, AllWellFormed, AllWellFormed-append, AllWellFormed-drop,
}
use node_fast.Client.State.{Client}
use node_fast.Client.Api as ClientApi
use node_fast.Client.Invariant.Handle as ClientRuns
use node_fast.Client.Identifiers.Acting.{Issues, acting-Issues}
use node_fast.Client.Sending.{read-version}
use node_fast.Server.State.{Server}
use node_fast.Server.Api as ServerApi
use node_fast.Server.Invariant.Handle as ServerRuns
use node_fast.Server.Proper.{IsProper}
use node_fast.Server.Proper.Steps.{handle-IsProper, Reaches-IsProper}
use node_fast.System.Network.{
  Network, news, Step, client_acts, client_reads, server_acts, server_reads, Runs, joined, then_,
  IsOrderly,
}
use node_fast.System.Network.Counting.{news-append}
use node_fast.System.Network.Orderly.{Runs-IsOrderly}

-- Both sides send well-formed messages, and so are those under way.
record IsFlowing (h : ℕ) (n : Network) : Type 0 where
  known : IsKnown n.client.version
  proper : IsProper (suc h) n.server
  calls_good : AllWellFormed n.calls
  replies_good : AllWellFormed n.replies

issued-AllWellFormed :
    (s t : Client) → IsKnown s.version → Issues s t → AllWellFormed (news s.outgoing t.outgoing)
issued-AllWellFormed s t known (_, _, sent) = elim sent [
  | inl same ↦
      let nothing = news-append s.outgoing t.outgoing [] (same ∙ sym (append-nil s.outgoing)) in
      rw nothing tt
  | inr (m, one_more, _, _, good) ↦
      rw (news-append s.outgoing t.outgoing (m ∷ []) one_more) (good known, tt)
]

-- The server has done something, and its connection has sent well-formed messages.
served-AllWellFormed :
    (h : ℕ) (u : Server) (before : List Message)
    → IsProper (suc h) u
    → AllWellFormed (news before (u.connections h).outgoing)
served-AllWellFormed h u before (_, speaks, made) =
    AllWellFormed-drop _ (u.connections h).outgoing (speaks h made).1

server_step-IsProper :
    (h : ℕ) (event : ServerApi.Event) (s u : Server)
    → IsProper (suc h) s
    → ServerRuns.Allowed event s
    → ServerApi.handle event s ≡ ok u
    → IsProper (suc h) u
server_step-IsProper h event s u p a e =
    subst (Whenever (IsProper (suc h))) e (handle-IsProper event s p a)

Step-IsFlowing :
    (h : ℕ) {n o : Network} → Step h n o → IsOrderly h n → IsFlowing h n → IsFlowing h o
Step-IsFlowing h (client_acts event n t a other e) o f =
    let issues = acting-Issues event n.client t o.client_valid a other e in
    record {
      known = subst IsKnown (sym issues.1) f.known;
      proper = f.proper;
      calls_good =
          AllWellFormed-append n.calls _ f.calls_good
            (issued-AllWellFormed n.client t f.known issues);
      replies_good = f.replies_good;
    }
Step-IsFlowing h (client_reads m rest n t first a e) o f = record {
  known = subst IsKnown (sym (read-version m n.client t o.client_valid e).0) f.known;
  proper = f.proper;
  calls_good = f.calls_good;
  replies_good = (subst AllWellFormed first f.replies_good).1;
}
Step-IsFlowing h (server_acts event n u a other e) o f =
    let p = server_step-IsProper h event n.server u f.proper a e in
    record {
      known = f.known;
      proper = p;
      calls_good = f.calls_good;
      replies_good = AllWellFormed-append n.replies _ f.replies_good (served-AllWellFormed h u _ p);
    }
Step-IsFlowing h (server_reads uts m rest n u first a e) o f =
    let p = server_step-IsProper h _ n.server u f.proper a e in
    record {
      known = f.known;
      proper = p;
      calls_good = (subst AllWellFormed first f.calls_good).1;
      replies_good = AllWellFormed-append n.replies _ f.replies_good (served-AllWellFormed h u _ p);
    }

Runs-IsFlowing : (h : ℕ) (n : Network) → Runs h n → IsFlowing h n
Runs-IsFlowing h _ (joined s u r q known made idle) =
    let (range, speaks, _) = Reaches-IsProper u q in
    record { known = known; proper = (range, speaks, made); calls_good = tt; replies_good = tt }
Runs-IsFlowing h o (then_ {n} run step) =
    Step-IsFlowing h step (Runs-IsOrderly run) (Runs-IsFlowing h n run)

-- The oldest reply, or call, can be read next: that is a step.
abbrev pub ReplyRead : ℕ → Network → List Message → Type 0
ReplyRead h n [] = Unit
ReplyRead h n (m ∷ rest) = (o : Network) × Step h n o × (o.replies ≡ rest)

abbrev pub CallRead : ℕ → Network → List Message → Type 0
CallRead h n [] = Unit
CallRead h n (m ∷ rest) = (o : Network) × Step h n o × (o.calls ≡ rest)

reply_read :
    (h : ℕ) (n : Network) (ms : List Message)
    → IsOrderly h n
    → IsFlowing h n
    → n.replies ≡ ms
    → ReplyRead h n ms
reply_read h n [] o f e = tt
reply_read h n (m ∷ rest) o f e =
    let good = (subst AllWellFormed e f.replies_good).0 in
    let (t, returns, _) =
      ClientRuns.handle-IsValid (ClientApi.message m) n.client o.client_valid good in
    (_, client_reads m rest n t e good returns, refl)

call_read :
    (h : ℕ) (n : Network) (ms : List Message)
    → IsOrderly h n
    → IsFlowing h n
    → n.calls ≡ ms
    → CallRead h n ms
call_read h n [] o f e = tt
call_read h n (m ∷ rest) o f e =
    let good = (subst AllWellFormed e f.calls_good).0 in
    let positive = (f.proper.1 h f.proper.2).0 in
    let k = (n.server.connections h).connid in
    let (u, returns, _) =
      ServerRuns.handle-IsConsistent (ServerApi.incoming 0 k m) n.server o.server_valid
        (positive, good) in
    (_, server_reads 0 m rest n u e (positive, good) returns, refl)

-- A client of one of the protocol's versions and a server, joined by a connection that had served
-- nothing yet, after any steps that may come: the oldest reply under way can be read by the client,
-- and the oldest call by the server, without an exception. So neither channel is ever blocked.
pub Runs-delivers :
    (h : ℕ) (n : Network) → Runs h n → ReplyRead h n n.replies × CallRead h n n.calls
Runs-delivers h n run =
    let o = Runs-IsOrderly run in
    let f = Runs-IsFlowing h n run in
    (reply_read h n n.replies o f refl, call_read h n n.calls o f refl)
