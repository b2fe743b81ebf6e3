-- ===== src/Hub/Ack.antt =====
-- `ack_delivery` and `nack_delivery` of hub/ledger.py.
pub mod Replay
use things_team.Base.{
  ℕ, zero, suc, String, Bool, true, false, ◌&&◌, Option, none, some, List, ◌==◌, if◌then◌else◌,
}
use things_team.Base.Table.{find, update}
use things_team.Json.{text, num, obj, end, field}
use things_team.Hub.Schema.{
  RowId, Time, Terminal, Kind, create, complete, cancel, queued, done, Transfer, Delivery, Ledger,
  Principal, Draws, Result, ok, err, ledger_error, not_found,
}
use things_team.Hub.Rows.{
  find_transfer, is_done, has_text, coalesce, echo_kind, event, signal_if, new_delivery, queue_row,
}

-- `{"ok": True}`, or with `already_done`
pub data AckReply : Type 0 where
  acked already_done : AckReply

-- The `SELECT ... WHERE d.id=? AND d.to_member=?`
abbrev pub find_delivery : RowId → RowId → Ledger → Option Delivery
find_delivery i member l = find (λ d. d.id == i && d.to_member == member) l.deliveries

abbrev pub finished : Time → Delivery → Delivery
finished now d = record d { state = done; done_at = some now }

-- `UPDATE deliveries SET state='done', done_at=? WHERE id=?`
unfoldable pub finish_delivery : Time → RowId → Ledger → Ledger
finish_delivery now i l = record l {
  deliveries = update (λ d. d.id == i) (finished now) l.deliveries;
}

abbrev pub applied : Time → String → Transfer → Transfer
applied now dst t = record t { dst_uuid = some dst; applied_at = coalesce t.applied_at now }

unfoldable pub set_applied : Time → String → RowId → Ledger → Ledger
set_applied now dst i l = record l {
  transfers = update (λ t. t.id == i) (applied now dst) l.transfers;
}

abbrev pub resolved : Time → Transfer → Transfer
resolved now t = record t { resolved_at = coalesce t.resolved_at now }

-- `UPDATE transfers SET resolved_at=COALESCE(resolved_at, ?) WHERE id=?`
unfoldable pub resolve_transfer : Time → RowId → Ledger → Ledger
resolve_transfer now i l = record l {
  transfers = update (λ t. t.id == i) (resolved now) l.transfers;
}

abbrev pub some_terminal : Option Terminal → Bool
some_terminal none = false
some_terminal (some _) = true

-- The echo that waited for `dst_uuid`, where the terminal state is set.
unfoldable pub waiting_echo : Draws → Delivery → Option Terminal → List Delivery → List Delivery
waiting_echo s d none ds = ds
waiting_echo s d (some x) ds =
    queue_row (new_delivery s.delivery d.transfer_id (echo_kind x) d.to_member s.now) ds

unfoldable pub queue_waiting_echo : Draws → Delivery → Option Terminal → Ledger → Ledger
queue_waiting_echo s d x l = record l { deliveries = waiting_echo s d x l.deliveries }

unfoldable pub ack_create :
    Draws → Principal → Delivery → Transfer → Option String → Ledger → Result AckReply
ack_create s p d t none l = err ledger_error
ack_create s p d t (some dst) l =
    if has_text (some dst)
    then ok acked (
        signal_if (some_terminal t.terminal) (
          queue_waiting_echo s d t.terminal (
            event "create-applied" (some d.transfer_id) (some p.device_id)
              (some (obj (field "dst_uuid" (text dst) end))) s.event
              (finish_delivery s.now d.id (set_applied s.now dst d.transfer_id l)))))
    else err ledger_error

-- `kind` as the event's detail spells it
abbrev pub kind_name : Kind → String
kind_name create = "create"
kind_name complete = "complete"
kind_name cancel = "cancel"

unfoldable pub ack_terminal : Draws → Principal → Delivery → Ledger → Result AckReply
ack_terminal s p d l = ok acked (
    event "terminal-echoed" (some d.transfer_id) (some p.device_id)
      (some (obj (field "kind" (text (kind_name d.kind)) end))) s.event
      (resolve_transfer s.now d.transfer_id (finish_delivery s.now d.id l)))

unfoldable pub ack_kind :
    Kind → Draws → Principal → Delivery → Transfer → Option String → Ledger → Result AckReply
ack_kind create s p d t dst l = ack_create s p d t dst l
ack_kind _ s p d t dst l = ack_terminal s p d l

unfoldable pub ack_found :
    Draws → Principal → Delivery → Transfer → Option String → Ledger → Result AckReply
ack_found s p d t dst l =
    if is_done d.state then ok already_done l else ack_kind d.kind s p d t dst l

-- A delivery whose transfer is missing is not in the join.
unfoldable pub ack_delivery : Draws → Principal → RowId → Option String → Ledger → Result AckReply
ack_delivery s p delivery_id dst l = elim (find_delivery delivery_id p.member_id l) [
  | none ↦ err not_found
  | some d ↦ elim (find_transfer d.transfer_id l) [
    | none ↦ err not_found
    | some t ↦ ack_found s p d t dst l
  ]
]

-- `s[:n]`, by characters
unfoldable pub clip : ℕ → String → String
clip zero s = ""
clip (suc n) String.[] = ""
clip (suc n) (String.◌∷◌ c s) = String.◌∷◌ c (clip n s)

abbrev pub requeued : String → Delivery → Delivery
requeued error d = record d {
  state = queued;
  leased_by_device = none;
  lease_expires_at = none;
  last_error = some error;
}

unfoldable pub requeue_delivery : String → RowId → Ledger → Ledger
requeue_delivery error i l = record l {
  deliveries = update (λ d. d.id == i) (requeued error) l.deliveries;
}

unfoldable pub nack_delivery : Draws → Principal → RowId → String → Ledger → Result AckReply
nack_delivery s p delivery_id error l = elim (find_delivery delivery_id p.member_id l) [
  | none ↦ err not_found
  | some d ↦
      if is_done d.state
      then ok already_done l
      else ok acked (
          event "delivery-nacked" (some d.transfer_id) (some p.device_id)
            (some (
              obj (field "delivery" (num delivery_id) (field "error" (text (clip 500 error)) end))))
            s.event (requeue_delivery (clip 500 error) delivery_id l))
]
