-- ===== src/System/Wire.antt =====
-- The messages of lib/fast_client.js and lib/fast_server.js on the wire, through the encoder and
-- the decoder of lib/fast_protocol.js.
use mathlib.Core.List.{flatten}
use node_fast.Base.{ℕ, ◌<◌, ◌≡◌, none, List, [], ◌∷◌, ok}
use node_fast.Protocol.{Codec, Transmits, Message, encode_all}
use node_fast.Protocol.Decoder.{Decoder, create, feed}
use node_fast.Protocol.Decoder.Rounds.{bytes_of}
use node_fast.Protocol.Decoder.RoundTrip.{AllSendable, encode_all-Parses, feed-encode_all}
use node_fast.Protocol.Decoder.WellFormed.{IsKnown, AllWellFormed}
use node_fast.Client.State.{Client}
use node_fast.Client.Invariant.Handle as ClientRuns
use node_fast.Client.Sending.{Reaches-sent}
use node_fast.Server.State.{Server}
use node_fast.Server.Invariant.Handle as ServerRuns
use node_fast.Server.Proper.Steps.{Reaches-IsProper}

-- The codec transmits the payload of each message.
abbrev pub AllTransmit : Codec → List Message → Type 0
AllTransmit c [] = Unit {0}
AllTransmit c (m ∷ ms) = Transmits c m.payload × AllTransmit c ms

-- The encoder takes the messages without an exception, and a new decoder makes them of its bytes
-- again, with nothing else, when they come in the chunks that `cut` makes of them.
abbrev pub IsCarried : Codec → (List ℕ → List (List ℕ)) → List Message → Type 0
IsCarried c cut ms =
    (sent : List (List ℕ)) × (encode_all c ms ≡ ok sent)
    × ((t : Decoder) × (feed c (cut (flatten sent)) create ≡ ok t)
        × (t.pushed ≡ ms)
        × (t.error ≡ none)
        × (bytes_of t.buffer ≡ []))

well_formed-AllSendable :
    (c : Codec) (ms : List Message) → AllWellFormed ms → AllTransmit c ms → AllSendable c ms
well_formed-AllSendable c [] h k = tt
well_formed-AllSendable c (m ∷ ms) (good, rest) (transmits, others) = (
  record {
    msgid_ok = good.msgid_ok;
    status_ok = good.status_ok;
    version_ok = good.version_ok;
    data_ok = good.data_ok;
    transmits = transmits;
  },
  well_formed-AllSendable c ms rest others,
)

well_formed-IsCarried :
    (c : Codec) (cut : List ℕ → List (List ℕ)) (ms : List Message)
    → ((bytes : List ℕ) → flatten (cut bytes) ≡ bytes)
    → AllWellFormed ms
    → AllTransmit c ms
    → IsCarried c cut ms
well_formed-IsCarried c cut ms whole good transmits =
    let sendable = well_formed-AllSendable c ms good transmits in
    let (sent, e, _) = encode_all-Parses c ms sendable in
    (sent, e, feed-encode_all c ms sent (cut (flatten sent)) sendable e (whole (flatten sent)))

-- Everything that a client in use, of one of the protocol's versions, has sent, and everything
-- that a server in use has sent on one of its connections, when the codec transmits the payloads:
-- the encoder takes all the messages without an exception, and a new decoder that gets the bytes,
-- cut into chunks in any way, pushes these messages in this order and nothing else. It reports no
-- error and holds no bytes back.
pub sent-IsCarried :
    (c : Codec) (cut : List ℕ → List (List ℕ)) (s : Client) (u : Server) (h : ℕ)
    → ((bytes : List ℕ) → flatten (cut bytes) ≡ bytes)
    → ClientRuns.Reaches s
    → IsKnown s.version
    → ServerRuns.Reaches u
    → h < u.nconnections
    → AllTransmit c s.outgoing
    → AllTransmit c (u.connections h).outgoing
    → IsCarried c cut s.outgoing × IsCarried c cut (u.connections h).outgoing
sent-IsCarried c cut s u h whole r known q made calls replies = (
  well_formed-IsCarried c cut s.outgoing whole (Reaches-sent s r known) calls,
  well_formed-IsCarried c cut (u.connections h).outgoing whole ((Reaches-IsProper u q).1 h made).1
      replies,
)
