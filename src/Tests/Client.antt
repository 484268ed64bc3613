-- ===== src/Tests/Client.antt =====
-- The theorems on lib/fast_client.js, at the client of Tests/Fixture.
use node_fast.Base.{
  ◌≡◌, refl, ◌⊎◌, true, false, [], ◌∷◌, ◌++◌, ltb, if◌then◌else◌, ◌==◌, length, ok, Returns,
}
use node_fast.Base.Map.{erase}
use node_fast.Protocol.{status_end}
use node_fast.Client.Request.{
  transport_error, unexpected_end, is_pending, open_, closed, stream_state,
}
use node_fast.Client.State.{put}
use node_fast.Client.Completion.{fatal_error}
use node_fast.Client.Messages.{on_message}
use node_fast.Client.Api.{rpc, detach, on_transport_end, message, handle}
use node_fast.Client.Invariant.{count, IsValid}
use node_fast.Client.Invariant.Handle.{handle-IsValid, Reaches, Reaches-Returns}
use node_fast.Client.Invariant.Updates.{finish}
use node_fast.Client.Invariant.Messages.{ended_request}
use node_fast.Client.Invariant.Issue.{IsIssued, rpc-IsIssued}
use node_fast.Client.Delivery.Reference.{values, delivered, noting, counting, on_message-data}
use node_fast.Client.Delivery.Ending.{failed_by_server, on_message-end, on_message-error}
use node_fast.Client.Delivery.Late.{ignoring, on_message-late}
use node_fast.Client.Streams.{
  IsSettled, Reaches-stream, detach-IsSettled, fatal_error-IsSettled, on_transport_end-pending,
}
use node_fast.Tests.Wire.{data_message, end_message}
use node_fast.Base.{none, true}
use node_fast.Json.{Json}
use node_fast.Client.Request.{datum, ended}
use node_fast.Client.Buffer
use node_fast.Client.Buffer.{listen, on_event, on_data, on_finish, heard, listen-heard}
use node_fast.Tests.Fixture.{
  echo_args, busy, error_message, late_message, busy-Reaches, busy-IsValid, busy_tables, busy_made,
  busy_room, busy_tolerates, data_message-IsWellFormed,
}

handle-IsValid_example : Returns IsValid (handle (message data_message) busy)
handle-IsValid_example =
    handle-IsValid (message data_message) busy busy-IsValid data_message-IsWellFormed

Reaches-Returns_example : Returns Reaches (handle (message data_message) busy)
Reaches-Returns_example =
    Reaches-Returns (message data_message) busy busy-Reaches data_message-IsWellFormed

rpc-IsIssued_example : Returns (IsIssued echo_args busy) (rpc echo_args busy)
rpc-IsIssued_example = rpc-IsIssued echo_args busy busy-IsValid refl busy_room

Reaches-stream_example :
    (stream_state (busy.heap 2).events ≡ open_)
      × ((is_pending (busy.heap 2) ≡ true) × (count 2 busy.immediates ≡ 0)
          ⊎ (is_pending (busy.heap 2) ≡ false) × (count 2 busy.immediates ≡ 1))
    ⊎ (stream_state (busy.heap 2).events ≡ closed)
      × (is_pending (busy.heap 2) ≡ false)
      × (count 2 busy.immediates ≡ 0)
Reaches-stream_example = Reaches-stream busy 2 busy-Reaches busy_made

detach-IsSettled_example : Returns IsSettled (detach busy)
detach-IsSettled_example = detach-IsSettled busy busy-Reaches busy_tables.2

fatal_error-IsSettled_example : Returns IsSettled (fatal_error transport_error busy)
fatal_error-IsSettled_example =
    fatal_error-IsSettled busy transport_error busy-Reaches busy_tables.3

on_transport_end-pending_example : on_transport_end busy ≡ (
    if ltb 0 (length busy.pending)
    then fatal_error unexpected_end (record busy { transport_ended = true })
    else ok (record busy { transport_ended = true }))
on_transport_end-pending_example = on_transport_end-pending busy busy-Reaches

on_message-data_example :
    on_message data_message busy
    ≡ ok (
        put 0 (delivered (values data_message) (counting (noting data_message (busy.heap 0)))) busy)
on_message-data_example =
    on_message-data 0 data_message busy busy-IsValid busy_tables.0 refl
      (busy_tolerates data_message)

on_message-end_example :
    on_message end_message busy
    ≡ ok (
        finish 0
          (ended_request (delivered (values end_message) (noting end_message (busy.heap 0))))
          busy.abandoned
          busy.immediates
          busy)
on_message-end_example =
    on_message-end 0 end_message busy busy-IsValid busy_tables.0 refl (busy_tolerates end_message)

on_message-error_example :
    on_message error_message busy
    ≡ ok (
        finish 0
          (failed_by_server error_message (noting error_message (busy.heap 0)))
          busy.abandoned
          (busy.immediates ++ 0 ∷ [])
          busy)
on_message-error_example = on_message-error 0 error_message busy busy-IsValid busy_tables.0 refl

on_message-late_example :
    on_message late_message busy
    ≡ ok (
        if late_message.status == status_end
        then record (put 2 (noting late_message (busy.heap 2)) busy) {
          abandoned = erase late_message.msgid busy.abandoned;
        }
        else put 2 (ignoring (noting late_message (busy.heap 2))) busy)
on_message-late_example = on_message-late 2 late_message busy busy-IsValid busy_tables.1

listen-heard_example :
    listen (busy.heap 2).events (Buffer.create 1)
    ≡ ok (heard (stream_state (busy.heap 2).events) 1 (busy.heap 2).events)
listen-heard_example = listen-heard busy 2 1 busy-Reaches busy_made

-- Three data, room for two, and the end.
listen_run :
    (c d e : Json)
    → listen (datum c ∷ datum d ∷ datum e ∷ ended ∷ []) (Buffer.create 2)
      ≡ ok (record {
        maxbuffer = 2;
        values = c ∷ d ∷ [];
        ndata = 3;
        done = true;
        callbacks = record { err = none; values = c ∷ d ∷ []; ndata = 3 } ∷ [];
      })
unfolding listen on_event on_data on_finish
listen_run c d e = refl
