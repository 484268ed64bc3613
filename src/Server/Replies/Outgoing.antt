-- ===== src/Server/Replies/Outgoing.antt =====
-- The reply of a handler in lib/fast_server.js, from its first action to the message that ends it.
use node_fast.Base.{
  ℕ, suc, ◌+◌, ◌++◌, ◌≡◌, refl, ap, subst, ◌∙◌, true, false, Bool, ok, if◌then◌else◌, bind-Returns,
  List, [], ◌∷◌, Outcome, ◌>>=◌, Returns, arith, some,
}
use node_fast.Json.{Json, is_object}
use node_fast.Protocol.{Message}
use node_fast.Server.State.{Request, complete, Server, put_request}
use node_fast.Server.Response.{
  data_message, end_message, error_message, is_running, is_complete, encoder_transform,
  encoder_flush,
}
use node_fast.Server.Response
use node_fast.Server.Lifecycle.{is_empty, request_fail}
use node_fast.Server.Invariant.{IsConsistent}
use node_fast.Server.Invariant.Requests.{write-IsConsistent}
use node_fast.Server.Replies.{
  Action, write, finish, fail, set_timeout, set_immediate, take_effect, perform, only_writes,
  is_reply, reply_messages, failure, writes, delivered, answer,
}
use node_fast.Server.Replies.Ending.{
  IsServed, write-IsServed, Answered, after-Sends, context_write-sent, context_end-sent,
  ended-Answered,
}
use node_fast.Server.Replies.Arriving.{
  ending, arrivals-eq, delivered-is_reply, reply_messages-writes,
}
use node_fast.Server.Api.{context_write}
use node_fast.Server.Invariant.Updates.{update_self}
use node_fast.Server.Invariant.Contexts.{note-IsConsistent}

-- An object that comes when the request is complete is dropped.
dropped-Answered :
    (uts j id : ℕ) (value : Json) (ms : List Message) (s t : Server)
    → Answered j id ms s t
    → Returns (Answered j id ms s) (context_write uts id value t)
unfolding context_write encoder_transform
dropped-Answered uts j id value ms s t (v, over, sent, gone) =
    unread (t.requests id).blackhole (is_running (t.requests id).state) _ _ _ (ground arith)
      (noted (t.requests id).ndropped ((t.requests id).nwritten + 1))
      (noted ((t.requests id).ndropped + 1) (t.requests id).nwritten)
  where
    noted :
        (ndropped nwritten : ℕ)
        → Answered j id ms s
            (put_request id (record (t.requests id) { ndropped = ndropped; nwritten = nwritten }) t)
    noted ndropped nwritten = (
      note-IsConsistent t id ndropped nwritten v,
      ap (λ r. is_complete (Request.state r)) (update_self t.requests id _) ∙ over,
      sent,
      gone,
    )

    unread :
        (b c : Bool) (x y : Server) (z : Outcome Server)
        → c ≡ false
        → Answered j id ms s x
        → Answered j id ms s y
        → Returns (Answered j id ms s) (if b then ok x else elim c [ false ↦ ok y | true ↦ z ])
    unread true c x y z e p q = (x, refl, p)
    unread false true x y z e p q = cc
    unread false false x y z e p q = (y, refl, q)

-- Nothing that comes after the failure is sent.
late-Answered :
    (clock : ℕ → ℕ) (n j id : ℕ) (late : List Action) (ms : List Message) (s t : Server)
    → only_writes late ≡ true
    → Answered j id ms s t
    → Returns (Answered j id ms s) (take_effect clock n id late t)
unfolding take_effect
late-Answered clock n j id [] ms s t e w = (t, refl, w)
late-Answered clock n j id (write value ∷ rest) ms s t e w =
    bind-Returns (Answered j id ms s) (Answered j id ms s) (context_write (clock n) id value t) _
      (dropped-Answered (clock n) j id value ms s t w)
      (λ u x. late-Answered clock (suc n) j id rest ms s u e x)
late-Answered clock n j id (finish ∷ rest) ms s t e w = cc
late-Answered clock n j id (fail x ∷ rest) ms s t e w = cc
late-Answered clock n j id (set_timeout x ∷ rest) ms s t e w = cc
late-Answered clock n j id (set_immediate ∷ rest) ms s t e w = cc

nothing_after :
    (clock : ℕ → ℕ) (n j id : ℕ) (rest : List Action) (m : Message) (s : Server)
    (call : Outcome Server)
    → is_empty rest ≡ true
    → Returns (Answered j id (m ∷ []) s) call
    → Returns
        (Answered j id (m ∷ reply_messages clock n (s.requests id) rest) s)
        (call >>= take_effect clock n id rest)
unfolding take_effect
nothing_after clock n j id [] m s call e (t, f, w) = (t, rw f refl, w)
nothing_after clock n j id (_ ∷ _) m s call e h = cc

-- Actions that reach the server in this order.
pub take_effect-Answered :
    (clock : ℕ → ℕ) (n j id : ℕ) (acts : List Action) (s : Server)
    → IsConsistent s
    → IsServed s id
    → is_reply acts ≡ true
    → Returns
        (Answered j id (reply_messages clock n (s.requests id) acts) s)
        (take_effect clock n id acts s)
unfolding take_effect request_fail
take_effect-Answered clock n j id [] s v served good = cc
take_effect-Answered clock n j id (write value ∷ rest) s v served good =
    let object : is_object value ≡ true = ground arith in
    let h = (s.requests id).conn in
    let m = data_message (clock n) (s.requests id) value in
    let (t, e, w) =
      take_effect-Answered clock (suc n) j id rest (Response.write h m s)
        (write-IsConsistent s h m v) (write-IsServed id h m s served) (ground arith) in
    (t, rw (context_write-sent (clock n) id value s served object) e, after-Sends j id m _ s t w)
take_effect-Answered clock n j id (finish ∷ rest) s v served good =
    let (t, e, w) =
      ended-Answered j id (end_message (clock n) (s.requests id))
        (record (s.requests id) { state = complete }) s v served refl refl refl in
    nothing_after clock (suc n) j id rest _ s _ good
      (t, context_end-sent (clock n) id s served ∙ e, w)
take_effect-Answered clock n j id (fail e ∷ rest) s v served good =
    let m = error_message (clock n) (s.requests id) e in
    bind-Returns (Answered j id (m ∷ []) s) (Answered j id (m ∷ []) s) _
      (take_effect clock (suc n) id rest)
      (ended-Answered j id m
        (record (s.requests id) { error = some e; state = complete; attached = false }) s v served
        refl refl refl)
      (λ t w. late-Answered clock (suc n) j id rest (m ∷ []) s t good w)
take_effect-Answered clock n j id (set_timeout ms ∷ rest) s v served good =
    take_effect-Answered clock n j id rest s v served good
take_effect-Answered clock n j id (set_immediate ∷ rest) s v served good =
    take_effect-Answered clock n j id rest s v served good

-- The reply of a handler to a request that runs and whose messages reach its connection, at
-- whatever pace the encoder takes the objects: the server takes every action without an exception
-- and stays valid, the request is complete and no longer pending, and the connection of the
-- request, but no other, has sent a DATA message for each value that has got through, in their
-- order, and then the END, or the ERROR of the failure. When the handler ends its context, all
-- values have got through, and when it fails, some first part of those that it wrote before.
pub perform-Answered :
    (clock pace : ℕ → ℕ) (n j id : ℕ) (acts : List Action) (s : Server)
    → IsConsistent s
    → IsServed s id
    → is_reply acts ≡ true
    → (count : ℕ) × Returns
        (Answered j id (answer clock n (s.requests id) (delivered count acts) (failure acts)) s)
        (perform clock pace n id acts s)
unfolding perform
perform-Answered clock pace n j id acts s v served good =
    let (count, late, e) = arrivals-eq pace acts good in
    let arrived = writes (delivered count acts) ++ ending (failure acts) late in
    let (t, f, w) =
      take_effect-Answered clock n j id arrived s v served
        (delivered-is_reply count late acts good) in
    (
      count,
      (
        t,
        ap (λ l. take_effect clock n id l s) e ∙ f,
        subst (λ ms. Answered j id ms s t)
            (reply_messages-writes clock n (s.requests id) (delivered count acts) late
              (failure acts))
            w,
      ),
    )
