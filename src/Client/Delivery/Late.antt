-- ===== src/Client/Delivery/Late.antt =====
-- `onMessage` of lib/fast_client.js for a request that was abandoned: its caller hears no more of
-- it.
use node_fast.Base.{
  ℕ, ◌+◌, ◌≡◌, ap, ◌∙◌, inl, inr, true, Bool-cases, none, some, Option-cases, ◌==◌, if◌then◌else◌,
  arith, ok,
}
use node_fast.Base.Map.{lookup, erase}
use node_fast.Protocol.{Message, status_end}
use node_fast.Client.Request.{Request}
use node_fast.Client.State.{Client, put}
use node_fast.Client.Messages.{deliver, on_message}
use node_fast.Client.Invariant.{IsValid}
use node_fast.Client.Invariant.Operations.{update_self}
use node_fast.Client.Invariant.Delivery.{deliver-eq}
use node_fast.Client.Delivery.Reference.{noting, put_modify}

-- A request is not in both tables.
abandoned-not_pending :
    (id k : ℕ) (s : Client) → IsValid s → lookup k s.abandoned ≡ some id → lookup k s.pending ≡ none
abandoned-not_pending id k s v e = elim (Option-cases (lookup k s.pending)) [
  | inl absent ↦ absent
  | inr (j, there) ↦ absurd (cc (e, v.disjoint k j there))
]

on_message-deliver_abandoned :
    (id : ℕ) (m : Message) (s : Client)
    → lookup m.msgid s.pending ≡ none
    → lookup m.msgid s.abandoned ≡ some id
    → (s.heap id).abandoned ≡ true
    → on_message m s ≡ deliver id true m s
unfolding on_message
on_message-deliver_abandoned id m s absent e mark = ground arith

-- One more message is ignored.
abbrev pub ignoring : Request → Request
ignoring r = record r { nignored = r.nignored + 1 }

-- A message for an abandoned request of a valid client: END forgets the request, and any other message is only
-- noted and counted. No event is emitted, no request ends and no other request changes.
pub on_message-late :
    (id : ℕ) (m : Message) (s : Client)
    → IsValid s
    → lookup m.msgid s.abandoned ≡ some id
    → on_message m s
      ≡ ok (
          if m.status == status_end
          then record (put id (noting m (s.heap id)) s) { abandoned = erase m.msgid s.abandoned }
          else put id (ignoring (noting m (s.heap id))) s)
on_message-late id m s v e =
    let entry = v.abandoned_entry m.msgid id e in
    let (failed, running) = (v.fits id entry.made).given_up entry.marked in
    let here = ap (λ r. Request.msgid r) (update_self s.heap id (noting m (s.heap id))) in
    on_message-deliver_abandoned id m s (abandoned-not_pending id m.msgid s v e) e entry.marked
    ∙ deliver-eq id true m s running
    ∙ elim (Bool-cases (m.status == status_end)) [
      | inl last ↦ rw last (
          ap
            (λ k. ok (record (put id (noting m (s.heap id)) s) { abandoned = erase k s.abandoned }))
            (here ∙ entry.msgid_eq))
      | inr other ↦ rw other (ap ok (put_modify id (noting m (s.heap id)) s ignoring))
    ]
