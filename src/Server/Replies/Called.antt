-- ===== src/Server/Replies/Called.antt =====
-- `onMessage` of lib/fast_server.js for the call of a registered method.
use node_fast.Base.{
  ℕ, ◌≡◌, refl, sym, ap, ◌∙◌, subst, String, true, false, ◌||◌, some, none, [], ◌∷◌, ◌++◌, ◌==◌,
  arith, ok, Returns,
}
use node_fast.Base.Map.{lookup}
use node_fast.Json.{Items, is_object}
use node_fast.Protocol.{Message, status_data, status_end, status_error}
use node_fast.Server.State.{Request, Handler, Server, new_request}
use node_fast.Server.Messages.{call_of, register, invoke, start_request, dispatch, on_message}
use node_fast.Server.Invariant.{IsConsistent}
use node_fast.Server.Invariant.Steps.{active}
use node_fast.Server.Invariant.Updates.{update_self, update_cases, counters-IsConsistent}
use node_fast.Server.Invariant.Registration.{entered, put_entered, entered-IsConsistent}
use node_fast.Server.Invariant.Starting.{
  named, started, invoke-entered, start_call-some, start_request-some,
}
use node_fast.Server.Replies.Ending.{IsServed}

-- A message that calls a registered method, with an identifier that is not in use, on a
-- connection that is open.
pub record IsCall (connid h : ℕ) (m : Message) (name : String) (args : Items) (f : Handler)
    (s : Server) : Type 0 where
  pub positive : (connid == 0) ≡ false
  pub found : lookup connid s.conns ≡ some h
  pub running : ((s.connections h).is_ended || (s.connections h).socket_error) ≡ false
  pub is_data : (m.status == status_data) ≡ true
  pub unused : lookup m.msgid (s.connections h).pending ≡ none
  pub object : is_object m.payload ≡ true
  pub call : call_of m.payload ≡ some (name, args)
  pub known : s.handlers name ≡ some f

-- The new request, as its handler finds it.
abbrev pub called : ℕ → Message → String → Items → Request
called h m name args = started name (named name args (new_request h m))

-- The server is valid, the new request runs, its handler was called, and nothing is sent.
pub record IsStarted (h : ℕ) (m : Message) (name : String) (args : Items) (s t : Server)
    : Type 0 where
  pub valid : IsConsistent t
  pub served : IsServed t s.nrequests
  pub request_eq : t.requests s.nrequests ≡ called h m name args
  pub handler_called : t.invoked ≡ s.invoked ++ s.nrequests ∷ []
  pub sent : (j : ℕ) → (t.connections j).outgoing ≡ (s.connections j).outgoing

dispatch-start :
    (uts connid h : ℕ) (m : Message) (name : String) (args : Items) (f : Handler) (s : Server)
    → IsCall connid h m name args f s
    → on_message uts connid m s ≡ start_request uts connid h m s
unfolding on_message dispatch
dispatch-start uts connid h m name args f s c =
    let not_end : (m.status == status_end) ≡ false = let d = c.is_data in ground arith in
    let not_error : (m.status == status_error) ≡ false = let d = c.is_data in ground arith in
    rw (c.positive, c.found, c.running, not_end, not_error, c.is_data, c.unused) refl

-- A call of a registered method on a valid server, with an identifier that is not in use, on a
-- connection that is open: `onMessage` returns, its new request runs with the method and the
-- arguments of the message, the handler is called once, no message is sent on any connection, and
-- the server stays valid.
pub on_message-IsStarted :
    (uts connid h : ℕ) (m : Message) (name : String) (args : Items) (f : Handler) (s : Server)
    → IsConsistent s
    → IsCall connid h m name args f s
    → Returns (IsStarted h m name args s) (on_message uts connid m s)
on_message-IsStarted uts connid h m name args f s v c =
    let (made, here) = active s connid h v c.found in
    let r = called h m name args in
    let t = invoke s.nrequests name f (entered h m (named name args (new_request h m)) s) in
    let e = entered-IsConsistent s h m r v made here c.unused refl refl refl refl refl in
    let same = invoke-entered h m name f (named name args (new_request h m)) s in
    let w : IsConsistent t =
      subst IsConsistent (sym same)
        (counters-IsConsistent (entered h m r s) e _ _ _ _ _ _ _ _ _ _ _ _) in
    let mine : t.requests s.nrequests ≡ r =
      ap (λ u. Server.requests u s.nrequests) same ∙ update_self s.requests s.nrequests r in
    (
      t,
      dispatch-start uts connid h m name args f s c
          ∙ start_request-some uts connid h m s (name, args) c.object c.call
          ∙ start_call-some uts s.nrequests m name args (register h m s) f c.known
          ∙ ap (λ u. ok (invoke s.nrequests name f u))
              (put_entered h m (new_request h m) s (named name args)),
      record {
        valid = w;
        served = record {
          made = omega arith;
          runs = rw mine refl;
          piped = rw mine refl;
          linked = rw mine refl;
        };
        request_eq = mine;
        handler_called = refl;
        sent = λ j.
            update_cases (λ i x. x.outgoing ≡ (s.connections i).outgoing) s.connections h _ j
              (λ _. refl) (λ _. refl);
      },
    )
