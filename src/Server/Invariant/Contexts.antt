-- ===== src/Server/Invariant/Contexts.antt =====
-- The context of a handler on a valid server of lib/fast_server.js: what is written to it, and its
-- end.
use node_fast.Base.{
  ℕ, ◌+◌, ◌<◌, ◌≡◌, refl, sym, ap, ◌∙◌, subst, inl, inr, Bool, true, false, Bool-cases, some,
  if◌then◌else◌, arith, ok, Returns,
}
use node_fast.Base.Map.{lookup}
use node_fast.Json.{Json, is_object}
use node_fast.Protocol.{Message}
use node_fast.Server.State.{Request, Server, put_request}
use node_fast.Server.Response.{is_running, emit, data_message, encoder_transform, encoder_flush}
use node_fast.Server.Invariant.{is_sound, IsEntry, IsHeld, IsConsistent}
use node_fast.Server.Invariant.Updates.{update_cases}
use node_fast.Server.Invariant.Draining.{if-IsConsistent}
use node_fast.Server.Invariant.Requests.{request_complete-IsConsistent, write-IsConsistent}
use node_fast.Server.Invariant.Connections.{if-Returns}
use node_fast.Server.Api.{context_write, context_end}

-- The counters of a request do not matter to the invariant.
pub note-IsConsistent :
    (s : Server) (id ndropped nwritten : ℕ)
    → IsConsistent s
    → IsConsistent
        (put_request id (record (s.requests id) { ndropped = ndropped; nwritten = nwritten }) s)
note-IsConsistent s id ndropped nwritten v = record {
  alloc_ok = v.alloc_ok;
  alloc_min = v.alloc_min;
  alloc_max = v.alloc_max;
  conns_sorted = v.conns_sorted;
  conns_entry = v.conns_entry;
  connection = λ h there.
      let c = v.connection h there in
      record {
        pending_sorted = c.pending_sorted;
        counted = c.counted;
        active = c.active;
        entries = λ k i e.
            update_cases
              (λ n x.
                lookup k (s.connections h).pending ≡ some n
                → IsEntry s.nrequests h k n (is_sound (s.connections h)) x)
              s.requests id _ i
              (λ _ f.
                let old = c.entries k id f in
                record {
                  made = old.made;
                  msgid_eq = old.msgid_eq;
                  conn_eq = old.conn_eq;
                  runs = old.runs;
                  clean = old.clean;
                  piped = old.piped;
                })
              (λ _ f. c.entries k i f) e;
      };
  running = λ i there goes.
      update_cases
        (λ n x.
          n < s.nrequests → is_running x.state ≡ true → IsHeld s.nconnections n s.connections x)
        s.requests id _ i
        (λ _ t x.
          let old = v.running id t x in record { conn_made = old.conn_made; held = old.held })
        (λ _ t x. v.running i t x) there goes;
}

emit-IsConsistent :
    (r : Request) (m : Message) (s : Server) → IsConsistent s → IsConsistent (emit r m s)
emit-IsConsistent r m s v = if-IsConsistent r.attached _ s (write-IsConsistent s r.conn m v) v

encoder_transform-IsConsistent :
    (uts id : ℕ) (value : Json) (s : Server)
    → IsConsistent s
    → is_object value ≡ true
    → Returns IsConsistent (encoder_transform uts id value s)
unfolding encoder_transform
encoder_transform-IsConsistent uts id value s v object =
    elim (Bool-cases (is_running (s.requests id).state)) [
      | inl e ↦ (
        emit (s.requests id) (data_message uts (s.requests id) value) s,
        ground arith,
        emit-IsConsistent (s.requests id) _ s v,
      )
      | inr e ↦ (_, dropped e, note-IsConsistent s id ((s.requests id).ndropped + 1) _ v)
    ]
  where
    dropped :
        is_running (s.requests id).state ≡ false
        → encoder_transform uts id value s
          ≡ ok (
              put_request id (record (s.requests id) { ndropped = (s.requests id).ndropped + 1 }) s)
    dropped e = ground arith

encoder_flush-IsConsistent :
    (uts id : ℕ) (s : Server) → IsConsistent s → IsConsistent (encoder_flush uts id s)
unfolding encoder_flush
encoder_flush-IsConsistent uts id s v =
    if-IsConsistent (is_running (s.requests id).state) _ s (emit-IsConsistent (s.requests id) _ s v)
      v

pub context_write-IsConsistent :
    (uts id : ℕ) (value : Json) (s : Server)
    → IsConsistent s
    → is_object value ≡ true
    → Returns IsConsistent (context_write uts id value s)
unfolding context_write
context_write-IsConsistent uts id value s v object =
    if-Returns (s.requests id).blackhole _ _
      (_, refl, note-IsConsistent s id _ ((s.requests id).nwritten + 1) v)
      (encoder_transform-IsConsistent uts id value s v object)

-- A valid server with the requests of another.
abbrev Keeps : Server → Server → Type 0
Keeps s t = IsConsistent t × (t.requests ≡ s.requests) × (t.nrequests ≡ s.nrequests)

if-Keeps :
    (s : Server) (b : Bool) (x y : Server) → Keeps s x → Keeps s y → Keeps s (if b then x else y)
if-Keeps s true x y v w = v
if-Keeps s false x y v w = w

flushed-Keeps :
    (uts id : ℕ) (s : Server)
    → IsConsistent s
    → Keeps s (if (s.requests id).blackhole then s else encoder_flush uts id s)
unfolding encoder_flush
flushed-Keeps uts id s v =
    let same : Keeps s s = (v, refl, refl) in
    if-Keeps s (s.requests id).blackhole s _ same (
      if-Keeps s (is_running (s.requests id).state) _ s
        (if-Keeps s (s.requests id).attached _ s (write-IsConsistent s _ _ v, refl, refl) same)
        same)

pub context_end-IsConsistent :
    (uts id : ℕ) (s : Server)
    → IsConsistent s
    → id < s.nrequests
    → is_running (s.requests id).state ≡ true
    → Returns IsConsistent (context_end uts id s)
unfolding context_end
context_end-IsConsistent uts id s v made runs =
    let (w, same, same_n) = flushed-Keeps uts id s v in
    request_complete-IsConsistent _ id w (subst (λ n. id < n) (sym same_n) made)
      (ap (λ rs. is_running (rs id).state) same ∙ runs)
