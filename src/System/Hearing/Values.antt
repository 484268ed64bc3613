-- ===== src/System/Hearing/Values.antt =====
-- The values of a reply as the client of lib/fast_client.js takes them.
use node_fast.Base.{
  ℕ, ◌≡◌, refl, sym, ap, ◌∙◌, subst, true, none, List, [], ◌∷◌, ◌++◌, ok, ok_injective,
  append_assoc, arith,
}
use node_fast.Base.Map.{lookup}
use node_fast.Json.{Json, null, is_object}
use node_fast.Protocol.{Message}
use node_fast.Protocol.Decoder.WellFormed.{IsWellFormed}
use node_fast.Client.Request.{
  ServerError, Cause, server_error, StreamEvent, datum, ended, is_pending,
}
use node_fast.Client.Request
use node_fast.Client.State.{Client, put}
use node_fast.Client.Messages.{on_message}
use node_fast.Client.Invariant.{IsValid}
use node_fast.Client.Invariant.Operations.{update_self}
use node_fast.Client.Invariant.Delivery.{on_message-IsValid}
use node_fast.Client.Delivery.Reference.{
  values, data_events, delivered, tolerates, noting, counting, on_message-data,
}
use node_fast.Server.State.{RpcError, Request}
use node_fast.Server.Response.{data_message}
use node_fast.Server.Contract.{response-IsWellFormed}
use node_fast.Server.Replies.{Action, write}
use node_fast.System.Hearing.{told, Hears, IsAwaiting}

object-tolerates :
    (q : Request.Request) (v : Json) → is_object v ≡ true → tolerates q (v ∷ []) ≡ true
object-tolerates q v e = ground arith

object-data_events : (v : Json) → is_object v ≡ true → data_events (v ∷ []) ≡ datum v ∷ []
object-data_events v e = ground arith

-- The client after a value.
abbrev pub given : ℕ → Message → Client → Client
given id m s = put id (delivered (values m) (counting (noting m (s.heap id)))) s

pub given-eq :
    (id uts : ℕ) (r : Request) (v : Json) (s : Client)
    → IsAwaiting id r s
    → is_object v ≡ true
    → on_message (data_message uts r v) s ≡ ok (given id (data_message uts r v) s)
given-eq id uts r v s a object =
    on_message-data id (data_message uts r v) s a.valid a.held refl
      (object-tolerates (s.heap id) v object)

pub no_error : RpcError
no_error = record { name = ""; message = ""; context = null; info = null; ase_errors = none }

pub valid_after :
    (id : ℕ) (r : Request) (m : Message) (s : Client) {t : Client}
    → IsAwaiting id r s
    → on_message m s ≡ ok t
    → IsWellFormed m
    → IsValid t
valid_after id r m s a e good =
    let (u, f, w) = on_message-IsValid s m a.valid good in
    subst IsValid (ok_injective (sym f ∙ e)) w

pub given-IsAwaiting :
    (id uts : ℕ) (r : Request) (v : Json) (s : Client)
    → IsAwaiting id r s
    → is_object v ≡ true
    → IsAwaiting id r (given id (data_message uts r v) s)
given-IsAwaiting id uts r v s a object = record {
  valid =
      valid_after id r (data_message uts r v) s a (given-eq id uts r v s a object)
        (response-IsWellFormed uts r v no_error a.small a.known).0;
  held = a.held;
  small = a.small;
  known = a.known;
}

-- What is heard after a value is heard of the whole.
pub given-Hears :
    (id uts : ℕ) (r : Request) (v : Json) (acts : List Action) (s t : Client)
    → is_object v ≡ true
    → Hears id acts (given id (data_message uts r v) s) t
    → Hears id (write v ∷ acts) s t
given-Hears id uts r v acts s t object h =
    let q = delivered (v ∷ []) (counting (noting (data_message uts r v) (s.heap id))) in
    let here = update_self s.heap id q in
    record {
      valid = h.valid;
      events =
          h.events
          ∙ ap (λ x. Request.Request.events x ++ told acts) here
          ∙ append_assoc (s.heap id).events (data_events (v ∷ [])) (told acts)
          ∙ ap (λ l. (s.heap id).events ++ (l ++ told acts)) (object-data_events v object);
      error = h.error;
      done = h.done;
      gone = ap (λ x. lookup (Request.Request.msgid x) t.pending) (sym here) ∙ h.gone;
      waits = h.waits;
    }
