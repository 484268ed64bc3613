-- ===== src/Server/Contract.antt =====
-- What lib/fast_client.js and lib/fast_server.js rely on in each other's messages.
use text.Mathlib.Text.{◌==◌ as str_eq}
use node_fast.Base.{ℕ, ◌≤◌, ◌≡◌, refl, ◌⊎◌, false, none, some, [], ◌∷◌, arith}
use node_fast.Json.{Json, str, get}
use node_fast.Protocol.{msgid_max, version_1, version_2, check_data}
use node_fast.Protocol.Decoder.WellFormed.{IsWellFormed}
use node_fast.Client.State.{Client}
use node_fast.Client.Messages.{error_of}
use node_fast.Client.Api.{RpcArgs, rpc_message}
use node_fast.Client.Delivery.Reference.{values}
use node_fast.Server.State.{Request, RpcError}
use node_fast.Server.Response.{data_message, end_message, error_message}
use node_fast.Server.Messages.{call_of}

-- The message of a client's `rpc` passes the decoder's checks of a DATA message, and the server
-- finds in it the method and the arguments of the call, unless the method's name is empty.
pub call_of-rpc_message :
    (s : Client) (msgid : ℕ) (args : RpcArgs)
    → str_eq args.rpcmethod "" ≡ false
    → (check_data (rpc_message s msgid args).status (rpc_message s msgid args).payload ≡ none)
      × (call_of (rpc_message s msgid args).payload ≡ some (args.rpcmethod, args.rpcargs))
unfolding check_data
call_of-rpc_message s msgid args e = (refl, rw (call_of, e) refl)

-- The three kinds of message that a request of the server sends are well formed, so that a
-- client's decoder lets them pass, when the message that began the request was in range.
pub response-IsWellFormed :
    (uts : ℕ) (r : Request) (value : Json) (e : RpcError)
    → r.msgid ≤ msgid_max
    → (r.version ≡ version_1) ⊎ (r.version ≡ version_2)
    → IsWellFormed (data_message uts r value)
      × IsWellFormed (end_message uts r)
      × IsWellFormed (error_message uts r e)
unfolding check_data
response-IsWellFormed uts r value e small known = (
  record { msgid_ok = small; status_ok = refl; version_ok = known; data_ok = refl },
  record { msgid_ok = small; status_ok = refl; version_ok = known; data_ok = refl },
  record { msgid_ok = small; status_ok = refl; version_ok = known; data_ok = refl },
)

-- What a client reads in these messages: the value that the handler has written and no other, no
-- value at the end, and of an error its name, message, info, context and `ase_errors`, as the
-- server had them, without a stack.
pub response-read :
    (uts : ℕ) (r : Request) (value : Json) (e : RpcError)
    → (values (data_message uts r value) ≡ value ∷ [])
      × (values (end_message uts r) ≡ [])
      × (error_of (get "d" (error_message uts r e).payload) ≡ record {
        name = some (str e.name);
        message = some (str e.message);
        info = some e.info;
        stack = none;
        context = some e.context;
        ase_errors = e.ase_errors;
      })
response-read uts r value e = (refl, refl, ground arith)
