-- ===== src/Server/Proper.antt =====
-- What the server of lib/fast_server.js sends is well formed: its requests have identifiers and
-- versions in range, and its connections have sent well-formed messages.
pub mod Lives
pub mod Answers
pub mod Steps
use node_fast.Base.{ℕ, ◌<◌, ◌≤◌, ◌≡◌, ◌⊎◌, true, false, Bool, if◌then◌else◌, ◌∷◌, [], arith}
use node_fast.Protocol.{Message, msgid_max, version_1, version_2}
use node_fast.Protocol.Decoder.WellFormed.{
  IsKnown, IsWellFormed, AllWellFormed, AllWellFormed-append,
}
use node_fast.Server.State.{Request, Connection, Server, put_request, put_connection}
use node_fast.Server.Response.{write}
use node_fast.Server.Invariant.Updates.{update_cases}

abbrev pub InRange : Request → Type 0
InRange r = (r.msgid ≤ msgid_max) × IsKnown r.version

-- Connections have an identifier that `onMessage` takes.
abbrev pub Speaks : Connection → Type 0
Speaks c = (0 < c.connid) × AllWellFormed c.outgoing

-- The server has made `n` connections at least.
abbrev pub IsProper : ℕ → Server → Type 0
IsProper n s =
    ((id : ℕ) → id < s.nrequests → InRange (s.requests id))
    × ((h : ℕ) → h < s.nconnections → Speaks (s.connections h))
    × (n ≤ s.nconnections)

module _ {n : ℕ} where
  pub put_request-IsProper :
      (id : ℕ) (r : Request) (s : Server)
      → IsProper n s
      → r.msgid ≡ (s.requests id).msgid
      → r.version ≡ (s.requests id).version
      → IsProper n (put_request id r s)
  put_request-IsProper id r s (range, speaks, many) e f = (
    λ i made.
        update_cases (λ j x. j < s.nrequests → InRange x) s.requests id r i
          (λ _ there. let (small, known) = range id there in (rw e small, rw f known))
          (λ _. range i) made,
    speaks,
    many,
  )

  pub put_connection-IsProper :
      (h : ℕ) (c : Connection) (s : Server)
      → IsProper n s
      → c.connid ≡ (s.connections h).connid
      → c.outgoing ≡ (s.connections h).outgoing
      → IsProper n (put_connection h c s)
  put_connection-IsProper h c s (range, speaks, many) e f = (
    range,
    λ i made.
        update_cases (λ j x. j < s.nconnections → Speaks x) s.connections h c i
          (λ _ there. let (positive, good) = speaks h there in (rw e positive, rw f good))
          (λ _. speaks i) made,
    many,
  )

  pub write-IsProper :
      (h : ℕ) (m : Message) (s : Server) → IsProper n s → IsWellFormed m → IsProper n (write h m s)
  write-IsProper h m s (range, speaks, many) good = (
    range,
    λ i made.
        update_cases (λ j x. j < s.nconnections → Speaks x) s.connections h _ i
          (λ _ there.
            let (positive, before) = speaks h there in
            (positive, AllWellFormed-append (s.connections h).outgoing (m ∷ []) before (good, tt)))
          (λ _. speaks i) made,
    many,
  )

  pub if-IsProper :
      (b : Bool) (s t : Server) → IsProper n s → IsProper n t → IsProper n (if b then s else t)
  if-IsProper true s t p q = p
  if-IsProper false s t p q = q
