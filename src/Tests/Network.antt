-- ===== src/Tests/Network.antt =====
-- A network at work: one call has been made, read by the server, and answered with a value.
use node_fast.Base.{◌+◌, ◌≤◌, ◌≡◌, refl, inr, true, [], ◌∷◌, arith}
use node_fast.Base.Map.{lookup, insert}
use node_fast.Json.{arr, nil}
use node_fast.Protocol.{Message, check_data}
use node_fast.Protocol.Decoder.WellFormed.{IsWellFormed}
use node_fast.Subr.IdAllocator
use node_fast.Client.State.{Client}
use node_fast.Client.State
use node_fast.Client.Api.{call_rpc, rpc, rpc_message}
use node_fast.Client.Api as ClientApi
use node_fast.Server.State.{Server}
use node_fast.Server.Response.{encoder_transform}
use node_fast.Server.Messages.{on_message, dispatch, start_request}
use node_fast.Server.Api.{incoming, handler_writes, register_rpc_method, conn_create, context_write}
use node_fast.Server.Api as ServerApi
use node_fast.Server.Effects.{mentions, finals, serving}
use node_fast.System.Network.{Network, Runs, joined, then_, client_acts, server_acts, server_reads}
use node_fast.System.Network.Orderly.{is_known, is_unused, Runs-orderly}
use node_fast.System.Network.Delivery.{ReplyRead, CallRead, Runs-delivers}
use node_fast.Tests.Fixture.{new_client, new_client-Reaches, one_request, echo_args}
use node_fast.Tests.Server.{connected, connected-Reaches}
use node_fast.Tests.Server as Server

abbrev idle : Network
idle = record { client = new_client; server = connected; calls = []; replies = [] }

abbrev pub first_call : Message
first_call = rpc_message new_client 1 echo_args

abbrev called : Network
called = record idle { client = one_request; calls = first_call ∷ [] }

abbrev pub serving_one : Server
serving_one = Server.result (ServerApi.handle (incoming 0 1 first_call) connected)

abbrev pub answering : Server
answering = Server.result (ServerApi.handle (handler_writes 5 0 (arr nil)) serving_one)

abbrev answered : Network
answered = record {
  client = one_request;
  server = answering;
  calls = [];
  replies = (answering.connections 0).outgoing;
}

pub first_call-IsWellFormed : IsWellFormed first_call
unfolding check_data State.create IdAllocator.create
first_call-IsWellFormed = record {
  msgid_ok = omega arith;
  status_ok = refl;
  version_ok = inr refl;
  data_ok = refl;
}

answered-Runs : Runs 0 answered
unfolding ServerApi.create IdAllocator.create ServerApi.handle register_rpc_method conn_create
    IdAllocator.alloc IdAllocator.alloc_loop lookup insert State.create ClientApi.handle rpc
    on_message dispatch start_request context_write encoder_transform
answered-Runs =
    let start : Runs 0 idle =
      joined new_client connected new_client-Reaches connected-Reaches (inr refl) (omega arith)
        refl in
    let made : Runs 0 called =
      then_ start
        (client_acts (call_rpc echo_args) idle one_request (refl, omega arith) refl refl) in
    let read : Runs 0 (record called { server = serving_one; calls = [] }) = then_ made (
      server_reads 0 first_call [] called serving_one refl (omega arith, first_call-IsWellFormed)
        refl) in
    then_ read (
      server_acts (handler_writes 5 0 (arr nil))
        (record called { server = serving_one; calls = [] }) answering (omega arith, refl) tt refl)

Runs-orderly_example :
    (is_known answered.client answered.replies ≡ true)
    × (is_unused (answered.server.connections 0) answered.calls ≡ true)
    × (mentions 1 answered.calls
          + serving 1 (answered.server.connections 0)
          + finals 1 answered.replies
        ≤ 1)
Runs-orderly_example = Runs-orderly 0 1 answered answered-Runs

Runs-delivers_example : ReplyRead 0 answered answered.replies × CallRead 0 answered answered.calls
Runs-delivers_example = Runs-delivers 0 answered answered-Runs
