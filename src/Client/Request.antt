-- ===== src/Client/Request.antt =====
-- lib/fast_client_request.js: one RPC request, the caller's handle on it, and the events that its
-- object stream emits.
use node_fast.Base.{
  ℕ, String, Bool, false, not, ◌&&◌, Option, none, List, [], ◌∷◌, is_none, ◌++◌, ◌≡◌, refl,
}
use node_fast.Json.{Json}
use node_fast.Protocol.{Message, ProtocolError}

-- The error that a server sent, as `onMessage` of lib/fast_client.js puts it together again.
pub record ServerError : Type 0 where
  pub name : Option Json
  pub message : Option Json
  pub info : Option Json
  pub stack : Option Json
  pub context : Option Json
  pub ase_errors : Option Json

-- Why a request failed (the cause of its FastRequestError), or what is fatal to the client.
pub data Cause : Type 0 where
  transport_detached client_detached transport_error unexpected_end : Cause
  decoder_error : ProtocolError → Cause
  unknown_msgid : ℕ → Cause
  null_value timed_out abandoned_by_user : Cause
  server_error : ServerError → Cause

-- The events of the request's stream: `data`, `end` and `error`.
pub data StreamEvent : Type 0 where
  datum : Json → StreamEvent
  ended : StreamEvent
  failed : Option Cause → StreamEvent

-- The `frq_` fields. `timeout` tells whether a timer is set; `events` is what the stream has
-- emitted, oldest first.
pub record Request : Type 0 where
  pub msgid : ℕ
  pub rpcmethod : String
  pub rpcargs : Json
  pub ignore_null : Bool
  pub done_graceful : Bool
  pub abandoned : Bool
  pub error : Option Cause
  pub timeout : Bool
  pub skip : Bool
  pub ndata : ℕ
  pub nignored : ℕ
  pub nignored_null : ℕ
  pub last : Option Message
  pub events : List StreamEvent

-- `new FastClientRequest(args)`
abbrev pub create : ℕ → String → Json → Bool → Request
create msgid rpcmethod rpcargs ignore_null = record {
  msgid = msgid;
  rpcmethod = rpcmethod;
  rpcargs = rpcargs;
  ignore_null = ignore_null;
  done_graceful = false;
  abandoned = false;
  error = none;
  timeout = false;
  skip = false;
  ndata = 0;
  nignored = 0;
  nignored_null = 0;
  last = none;
  events = [];
}

-- `requestIsPending`
abbrev pub is_pending : Request → Bool
is_pending r = not r.done_graceful && is_none r.error

abbrev pub emit : StreamEvent → Request → Request
emit e r = record r { events = r.events ++ e ∷ [] }

-- How far a stream has come. After `end` or `error` nothing may follow.
pub data Stream : Type 0 where
  open_ closed broken : Stream

abbrev pub advance : Stream → StreamEvent → Stream
advance open_ (datum _) = open_
advance open_ ended = closed
advance open_ (failed _) = closed
advance closed _ = broken
advance broken _ = broken

abbrev pub stream_from : Stream → List StreamEvent → Stream
stream_from s [] = s
stream_from s (e ∷ es) = stream_from (advance s e) es

abbrev pub stream_state : List StreamEvent → Stream
stream_state = stream_from open_

stream_from-append :
    (s : Stream) (es fs : List StreamEvent)
    → stream_from s (es ++ fs) ≡ stream_from (stream_from s es) fs
stream_from-append s [] fs = refl
stream_from-append s (e ∷ es) fs = stream_from-append (advance s e) es fs

pub stream_state-append :
    (es : List StreamEvent) (e : StreamEvent)
    → stream_state (es ++ e ∷ []) ≡ advance (stream_state es) e
stream_state-append es e = stream_from-append open_ es (e ∷ [])
