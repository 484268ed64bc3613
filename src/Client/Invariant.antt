-- ===== src/Client/Invariant.antt =====
-- The invariant of the client of lib/fast_client.js.
pub mod Updates
pub mod Operations
pub mod Shutdown
pub mod Messages
pub mod Delivery
pub mod Registration
pub mod Rpc
pub mod Issue
pub mod Handle
use node_fast.Base.{
  ℕ, zero, suc, ◌+◌, ◌≤◌, ◌<◌, ◌≡◌, refl, ◌⊎◌, Bool, true, false, Option, none, some, List, [], ◌∷◌,
  ◌++◌, ◌==◌, if◌then◌else◌, is_some, length, arith,
}
use node_fast.Base.Map.{lookup, Sorted}
use node_fast.Protocol.{msgid_max}
use node_fast.Subr.IdAllocator
use node_fast.Client.Request.{Request, is_pending, Stream, open_, closed, stream_state}
use node_fast.Client.State.{Client}

-- How often a request stands in the queue of `setImmediate`.
abbrev pub count : ℕ → List ℕ → ℕ
count id [] = 0
count id (x ∷ xs) = (if x == id then 1 else 0) + count id xs

pub count-append :
    (id x : ℕ) (xs : List ℕ) → count id (xs ++ x ∷ []) ≡ count id xs + (if x == id then 1 else 0)
count-append id x [] = omega arith
count-append id x (y ∷ xs) = omega (arith, count-append id x xs)

-- One request, given the entry of its identifier among the pending ones, and how often its `error`
-- event is queued. A pending request is registered and its stream is open. One that is done has
-- closed its stream, or its error is about to be emitted, once.
pub record Fits (id : ℕ) (r : Request) (entry : Option ℕ) (queued : ℕ) : Type 0 where
  pub registered : is_pending r ≡ true → entry ≡ some id
  pub running : is_pending r ≡ true → (stream_state r.events ≡ open_) × (queued ≡ 0)
  pub finishing :
      is_pending r ≡ false
      → ((stream_state r.events ≡ open_) × (queued ≡ 1) × (is_some r.error ≡ true))
        ⊎ ((stream_state r.events ≡ closed) × (queued ≡ 0))
  pub given_up : r.abandoned ≡ true → (is_some r.error ≡ true) × (r.done_graceful ≡ false)
  pub timed : r.timeout ≡ true → is_pending r ≡ true

-- What an entry of the pending table says of the request that it names.
pub record IsPendingEntry (n k id : ℕ) (r : Request) : Type 0 where
  pub made : id < n
  pub msgid_eq : r.msgid ≡ k
  pub still : is_pending r ≡ true

pub record IsAbandonedEntry (n k id : ℕ) (r : Request) : Type 0 where
  pub made : id < n
  pub msgid_eq : r.msgid ≡ k
  pub marked : r.abandoned ≡ true

pub record IsValid (s : Client) : Type 0 where
  pub alloc_ok : IdAllocator.IsValid s.rqidalloc
  pub alloc_min : s.rqidalloc.min ≡ 1
  pub alloc_max : s.rqidalloc.max ≡ msgid_max
  pub pending_sorted : Sorted s.pending
  pub abandoned_sorted : Sorted s.abandoned
  pub counted : s.nrpc_started ≡ s.nrpc_done + length s.pending
  pub recent : length s.recentrpc ≤ s.nrecent
  pub pending_entry :
      (k id : ℕ) → lookup k s.pending ≡ some id → IsPendingEntry s.nrequests k id (s.heap id)
  pub abandoned_entry :
      (k id : ℕ) → lookup k s.abandoned ≡ some id → IsAbandonedEntry s.nrequests k id (s.heap id)
  pub disjoint : (k id : ℕ) → lookup k s.pending ≡ some id → lookup k s.abandoned ≡ none
  pub queued : (id : ℕ) → 0 < count id s.immediates → id < s.nrequests
  pub fits :
      (id : ℕ)
      → id < s.nrequests
      → Fits id (s.heap id) (lookup (s.heap id).msgid s.pending) (count id s.immediates)
