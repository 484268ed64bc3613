-- ===== src/Tests/Carried.antt =====
-- A call of `echo` and the value that answers it, on the wire.
use text.Mathlib.Text.{◌==◌ as str_eq}
use mathlib.Core.List.{flatten}
use node_fast.Base.{
  ℕ, ◌<◌, ◌≡◌, refl, ap, inr, some, List, [], ◌∷◌, if◌then◌else◌, arith, ◌==◌, length,
}
use node_fast.Base.Map.{lookup, insert}
use node_fast.Json.{Json, arr, nil, get, elements?}
use node_fast.Protocol.{Codec}
use node_fast.Protocol.Decoder.WellFormed.{IsKnown}
use node_fast.Subr.IdAllocator
use node_fast.Client.State
use node_fast.Client.Api.{rpc, rpc_message}
use node_fast.Client.Api as ClientApi
use node_fast.Server.Response.{encoder_transform, data_message}
use node_fast.Server.Messages.{on_message, dispatch, start_request}
use node_fast.Server.Api.{incoming, handler_writes, register_rpc_method, conn_create, context_write}
use node_fast.Server.Api as ServerApi
use node_fast.Server.Invariant.Handle.{Reaches, after}
use node_fast.System.Wire.{AllTransmit, IsCarried, sent-IsCarried}
use node_fast.Tests.Fixture.{one_request, one_request-Reaches}
use node_fast.Tests.Server.{connected, connected-Reaches}
use node_fast.Tests.Network.{first_call, first_call-IsWellFormed, serving_one, answering}

serving_one-Reaches : Reaches serving_one
unfolding ServerApi.create IdAllocator.create ServerApi.handle register_rpc_method conn_create
    IdAllocator.alloc IdAllocator.alloc_loop lookup insert State.create ClientApi.handle rpc
    on_message dispatch start_request
serving_one-Reaches =
    after (incoming 0 1 first_call) connected serving_one connected-Reaches
      (omega arith, first_call-IsWellFormed) refl

answering-Reaches : Reaches answering
unfolding ServerApi.create IdAllocator.create ServerApi.handle register_rpc_method conn_create
    IdAllocator.alloc IdAllocator.alloc_loop lookup insert State.create ClientApi.handle rpc
    on_message dispatch start_request context_write encoder_transform
answering-Reaches =
    after (handler_writes 5 0 (arr nil)) serving_one answering serving_one-Reaches
      (omega arith, refl) refl

abbrev first_value : Json
first_value = (data_message 5 (serving_one.requests 0) (arr nil)).payload

-- Two made-up texts for the two payloads, which differ in whether there are values.
abbrev pair_codec : Codec
pair_codec = record {
  stringify = λ v. elim (elements? (get "d" v)) [ [] ↦ "call" | _ ∷ _ ↦ "value" ];
  parse = λ t. some (if str_eq t "call" then first_call.payload else first_value);
  utf8_write = λ t. if str_eq t "call" then 1 ∷ [] else 2 ∷ 3 ∷ [];
  utf8_read = λ bs. if length bs == 1 then "call" else "value";
  old_crc16 = λ t. 7;
  crc16 = λ t. if str_eq t "call" then 8 else 9;
}

-- Each byte is a chunk of its own.
abbrev bytewise : List ℕ → List (List ℕ)
bytewise [] = []
bytewise (b ∷ bs) = (b ∷ []) ∷ bytewise bs

bytewise-flatten : (bytes : List ℕ) → flatten (bytewise bytes) ≡ bytes
unfolding flatten
bytewise-flatten [] = refl
bytewise-flatten (b ∷ bs) = ap (λ l. b ∷ l) (bytewise-flatten bs)

call-AllTransmit : AllTransmit pair_codec one_request.outgoing
unfolding State.create IdAllocator.create ClientApi.handle rpc IdAllocator.alloc
    IdAllocator.alloc_loop lookup insert
call-AllTransmit = (
  record { utf8 = refl; json = refl; old_crc = omega arith; crc = omega arith; size = omega arith },
  tt,
)

value-AllTransmit : AllTransmit pair_codec (answering.connections 0).outgoing
unfolding ServerApi.create IdAllocator.create ServerApi.handle register_rpc_method conn_create
    IdAllocator.alloc IdAllocator.alloc_loop lookup insert State.create ClientApi.handle rpc
    on_message dispatch start_request context_write encoder_transform
value-AllTransmit = (
  record { utf8 = refl; json = refl; old_crc = omega arith; crc = omega arith; size = omega arith },
  tt,
)

version-IsKnown : IsKnown one_request.version
unfolding State.create IdAllocator.create ClientApi.handle rpc IdAllocator.alloc
    IdAllocator.alloc_loop lookup insert
version-IsKnown = inr refl

there : 0 < answering.nconnections
unfolding ServerApi.create IdAllocator.create ServerApi.handle register_rpc_method conn_create
    IdAllocator.alloc IdAllocator.alloc_loop lookup insert State.create ClientApi.handle rpc
    on_message dispatch start_request context_write encoder_transform
there = omega arith

sent-IsCarried_example :
    IsCarried pair_codec bytewise one_request.outgoing
    × IsCarried pair_codec bytewise (answering.connections 0).outgoing
sent-IsCarried_example =
    sent-IsCarried pair_codec bytewise one_request answering 0 bytewise-flatten one_request-Reaches
      version-IsKnown answering-Reaches there call-AllTransmit value-AllTransmit
