-- ===== src/Client/Delivery/Reference.antt =====
-- `onMessage` and `requestEmitData` of lib/fast_client.js against a description of what a message
-- does to its request.
use node_fast.Base.{
  ℕ, suc, ◌+◌, ◌≡◌, refl, ap, ◌∙◌, Bool, true, false, ◌||◌, some, List, [], ◌∷◌, ◌++◌, ◌==◌,
  if◌then◌else◌, is_none, append-nil, append_assoc, arith, ok,
}
use node_fast.Base.Map.{lookup}
use node_fast.Json.{Json, null, bool, num, str, arr, obj, get, elements?}
use node_fast.Protocol.{Message, status_data, status_end}
use node_fast.Client.Request.{Request, StreamEvent, datum, is_pending, emit}
use node_fast.Client.State.{Client, update, put}
use node_fast.Client.Messages.{
  emit_values, request_emit_data, deliver_end, deliver_active, deliver, on_message,
}
use node_fast.Client.Invariant.{IsValid}
use node_fast.Client.Invariant.Operations.{update_self, update-update}
use node_fast.Client.Invariant.Messages.{IsServing, pending-not_abandoned, emit_values-ignored}
use node_fast.Client.Invariant.Delivery.{deliver-eq, noted}

-- The values of a message that reach the caller, as events.
abbrev pub data_events : List Json → List StreamEvent
data_events [] = []
data_events (null ∷ ds) = data_events ds
data_events (d ∷ ds) = datum d ∷ data_events ds

abbrev pub nulls : List Json → ℕ
nulls [] = 0
nulls (null ∷ ds) = suc (nulls ds)
nulls (_ ∷ ds) = nulls ds

-- The request after all values of a message: the values that are not null, in order.
abbrev pub delivered : List Json → Request → Request
delivered ds r = record r {
  nignored_null = r.nignored_null + nulls ds;
  events = r.events ++ data_events ds;
}

-- No value of the message makes the client give the request up.
abbrev pub tolerates : Request → List Json → Bool
tolerates r ds = r.ignore_null || nulls ds == 0

-- A write that is made of the value just written.
pub put_modify :
    (id : ℕ) (r : Request) (s : Client) (f : Request → Request)
    → put id (f (update s.heap id r id)) (put id r s) ≡ put id (f r) s
put_modify id r s f =
    ap (λ q. put id (f q) (put id r s)) (update_self s.heap id r)
    ∙ ap (λ h. record s { heap = h }) (update-update s.heap id r (f r))

delivered-datum :
    (r : Request) (n : ℕ) (d : Json) (es : List StreamEvent)
    → ◌≡◌ {A = Request}
        (record r { nignored_null = n; events = (r.events ++ datum d ∷ []) ++ es })
        (record r { nignored_null = n; events = r.events ++ datum d ∷ es })
delivered-datum r n d es =
    ap (λ e. record r { nignored_null = n; events = e }) (append_assoc r.events (datum d ∷ []) es)

emit_datum :
    (id : ℕ) (d : Json) (ds : List Json) (r : Request) (s : Client)
    → emit_values id ds (put id (emit (datum d) r) s)
      ≡ ok (true, put id (delivered ds (emit (datum d) r)) s)
    → emit_values id ds (put id (emit (datum d) (update s.heap id r id)) (put id r s))
      ≡ ok (
        true,
        put id
            (record r {
              nignored_null = r.nignored_null + nulls ds;
              events = r.events ++ datum d ∷ data_events ds;
            })
            s,
      )
emit_datum id d ds r s rest =
    ap (emit_values id ds) (put_modify id r s (emit (datum d)))
    ∙ rest
    ∙ ap (λ q. ok (true, put id q s))
        (delivered-datum r (r.nignored_null + nulls ds) d (data_events ds))

-- The loop over the values has the effect that `delivered` describes.
emit_values-delivered :
    (id : ℕ) (ds : List Json) (r : Request) (s : Client)
    → tolerates r ds ≡ true
    → emit_values id ds (put id r s) ≡ ok (true, put id (delivered ds r) s)
unfolding emit_values
emit_values-delivered id [] r s t =
    let zero_more : r.nignored_null ≡ r.nignored_null + 0 = omega arith in
    cc (zero_more, append-nil r.events)
emit_values-delivered id (null ∷ ds) r s t =
    let next = record r { nignored_null = r.nignored_null + 1 } in
    emit_values-ignored id ds (put id r s)
      (ap (λ q. Request.ignore_null q) (update_self s.heap id r) ∙ ground arith)
    ∙ ap (emit_values id ds)
        (put_modify id r s (λ q. record q { nignored_null = q.nignored_null + 1 }))
    ∙ emit_values-delivered id ds next s (ground arith)
    ∙ ap
        (λ n.
          ok (true, put id (record r { nignored_null = n; events = r.events ++ data_events ds }) s))
        (omega arith)
emit_values-delivered id (bool b ∷ ds) r s t =
    emit_datum id (bool b) ds r s (emit_values-delivered id ds (emit (datum (bool b)) r) s t)
emit_values-delivered id (num n ∷ ds) r s t =
    emit_datum id (num n) ds r s (emit_values-delivered id ds (emit (datum (num n)) r) s t)
emit_values-delivered id (str c ∷ ds) r s t =
    emit_datum id (str c) ds r s (emit_values-delivered id ds (emit (datum (str c)) r) s t)
emit_values-delivered id (arr vs ∷ ds) r s t =
    emit_datum id (arr vs) ds r s (emit_values-delivered id ds (emit (datum (arr vs)) r) s t)
emit_values-delivered id (obj fs ∷ ds) r s t =
    emit_datum id (obj fs) ds r s (emit_values-delivered id ds (emit (datum (obj fs)) r) s t)

-- The values of a message: what its payload has under `d`.
abbrev pub values : Message → List Json
values m = elements? (get "d" m.payload)

pub emit_data-delivered :
    (id : ℕ) (m : Message) (r : Request) (s : Client)
    → is_pending r ≡ true
    → tolerates r (values m) ≡ true
    → request_emit_data id m (put id r s) ≡ ok (true, put id (delivered (values m) r) s)
unfolding request_emit_data
emit_data-delivered id m r s still t =
    let here = ap is_pending (update_self s.heap id r) ∙ still in
    rw here (emit_values-delivered id (values m) r s t)

on_message-pending :
    (id : ℕ) (m : Message) (s : Client)
    → IsServing id s
    → lookup m.msgid s.pending ≡ some id
    → on_message m s ≡ deliver id false m s
unfolding on_message
on_message-pending id m s v e =
    let fresh : (s.heap id).abandoned ≡ false = ground (arith, pending-not_abandoned s id v) in
    ground arith

pub on_message-deliver :
    (id : ℕ) (m : Message) (s : Client)
    → IsServing id s
    → lookup m.msgid s.pending ≡ some id
    → on_message m s ≡ (
        if m.status == status_end
        then deliver_end id false m (noted id m s)
        else deliver_active id m (noted id m s))
on_message-deliver id m s v e =
    let running : (s.heap id).done_graceful ≡ false = let p = v.still in ground arith in
    on_message-pending id m s v e ∙ deliver-eq id false m s running

-- The request of a message, with the message noted as its last.
abbrev pub noting : Message → Request → Request
noting m r = record r { last = some m }

-- One more DATA message is counted.
abbrev pub counting : Request → Request
counting r = record r { ndata = r.ndata + 1 }

pub serving :
    (id : ℕ) (m : Message) (s : Client)
    → IsValid s
    → lookup m.msgid s.pending ≡ some id
    → IsServing id s
serving id m s v e =
    let entry = v.pending_entry m.msgid id e in
    record { valid = v; made = entry.made; still = entry.still }

deliver_active-data :
    (id : ℕ) (m : Message) (r : Request) (s : Client)
    → is_pending r ≡ true
    → (m.status == status_data) ≡ true
    → tolerates r (values m) ≡ true
    → deliver_active id m (put id r s) ≡ ok (put id (delivered (values m) (counting r)) s)
deliver_active-data id m r s still e t =
    let clean : is_none r.error ≡ true = ground arith in
    let alive : is_none (update s.heap id r id).error ≡ true =
      ap (λ q. is_none (Request.error q)) (update_self s.heap id r) ∙ clean in
    rw (alive, e, put_modify id r s counting, emit_data-delivered id m (counting r) s still t) refl

-- A DATA message for a request that is pending on a valid client, with no null among its values
-- unless the request ignores them: the other values reach the caller in order, the nulls are
-- counted, the message is counted and noted, and nothing else changes.
pub on_message-data :
    (id : ℕ) (m : Message) (s : Client)
    → IsValid s
    → lookup m.msgid s.pending ≡ some id
    → (m.status == status_data) ≡ true
    → tolerates (s.heap id) (values m) ≡ true
    → on_message m s ≡ ok (put id (delivered (values m) (counting (noting m (s.heap id)))) s)
on_message-data id m s v e status t =
    let w = serving id m s v e in
    let other : (m.status == status_end) ≡ false = ground arith in
    on_message-deliver id m s w e
    ∙ rw other (deliver_active-data id m (noting m (s.heap id)) s w.still status t)
