-- ===== src/Hub/Observe.antt =====
-- `watchlist`, `observe`, `_queue_echo` and `health` of hub/ledger.py.
pub mod Reply
use things_team.Base.{
  ℕ, String, Bool, true, false, not, ◌&&◌, ◌||◌, Option, none, some, List, ◌==◌, str_eq,
  if◌then◌else◌,
}
use things_team.Base.Table.{find, any, select, count, update, delete, join}
use things_team.Json.{Json, text, obj, end, field}
use things_team.Hub.Schema.{
  RowId, Time, Terminal, completed, canceled, create, cancel, DeliveryState, queued, leased, done,
  Transfer, Delivery, Ledger, Principal, Draws, Result, ok, err, ledger_error, not_found,
}
use things_team.Hub.Rows.{
  is_null, eq_kind, find_transfer, is_done, has_text, echo_kind, event, signal_if, new_delivery,
  queue_delivery,
}
use things_team.Hub.Ack.{resolve_transfer}

pub data Role : Type 0 where
  sender recipient : Role

-- `applied` or `created`
pub data Progress : Type 0 where
  applied created : Progress

pub record Watch : Type 0 where
  pub transfer_id : RowId
  pub uuid : String
  pub role : Role
  pub state : Progress

-- `if t["applied_at"]`: neither NULL nor zero
abbrev pub is_applied : Option Time → Bool
is_applied none = false
is_applied (some t) = not (t == 0)

abbrev pub watch_state : Transfer → Progress
watch_state t = if is_applied t.applied_at then applied else created

-- The entry for a row, `none` for a recipient who has no copy yet.
unfoldable pub watch_entry : Principal → Transfer → Option Watch
watch_entry p t =
    if t.from_member == p.member_id
    then some
        (record { transfer_id = t.id; uuid = t.src_uuid; role = sender; state = watch_state t })
    else elim t.dst_uuid [
      | none ↦ none
      | some u ↦
          if has_text (some u)
          then some
              (record { transfer_id = t.id; uuid = u; role = recipient; state = watch_state t })
          else none
    ]

abbrev pub is_party : RowId → Transfer → Bool
is_party member t = t.from_member == member || t.to_member == member

-- The `WHERE` of the watchlist.
abbrev pub is_watched : Principal → Transfer → Bool
is_watched p t =
    t.tenant_id == p.tenant_id
    && is_null t.resolved_at
    && is_null t.terminal
    && is_party p.member_id t

unfoldable pub watchlist : Principal → Ledger → List Watch
watchlist p l = join (watch_entry p) (select (is_watched p) l.transfers)

-- The create delivery is marked as done, and was never handed out.
abbrev pub skipped : Time → Delivery → Delivery
skipped now d = record d {
  state = done;
  done_at = some now;
  last_error = some "skipped: sender resolved before apply";
}

unfoldable pub skip_delivery : Time → RowId → Ledger → Ledger
skip_delivery now i l = record l { deliveries = update (λ d. d.id == i) (skipped now) l.deliveries }

abbrev pub terminal_name : Terminal → String
terminal_name completed = "completed"
terminal_name canceled = "canceled"

-- `SELECT * FROM deliveries WHERE transfer_id=? AND kind='create'`
abbrev pub is_create_of : RowId → Delivery → Bool
is_create_of i d = d.transfer_id == i && eq_kind d.kind create

abbrev pub find_create : RowId → Ledger → Option Delivery
find_create i l = find (is_create_of i) l.deliveries

unfoldable pub skip_create : Draws → RowId → Terminal → RowId → Ledger → Ledger
skip_create s transfer_id state create_id l =
    event "create-skipped-terminal" (some transfer_id) none
      (some (obj (field "terminal" (text (terminal_name state)) end))) s.skip
      (resolve_transfer s.now transfer_id (skip_delivery s.now create_id l))

unfoldable pub insert_echo : Draws → RowId → Terminal → RowId → Ledger → Bool × Ledger
insert_echo s transfer_id state other l =
    (true, queue_delivery (new_delivery s.delivery transfer_id (echo_kind state) other s.now) l)

-- What becomes of the echo to a recipient with no copy, by the state of the create delivery.
unfoldable pub echo_by_create :
    Draws → RowId → Terminal → RowId → RowId → DeliveryState → Ledger → Bool × Ledger
echo_by_create s i state other create_id queued l = (false, skip_create s i state create_id l)
echo_by_create s i state other create_id leased l = (false, l)
echo_by_create s i state other create_id done l = insert_echo s i state other l

abbrev pub is_by : RowId → Option RowId → Bool
is_by m none = false
is_by m (some x) = x == m

-- The party that did not report.
abbrev pub other_party : Transfer → RowId
other_party t = if is_by t.from_member t.terminal_by then t.to_member else t.from_member

unfoldable pub echo_to : Draws → Transfer → Terminal → RowId → Ledger → Bool × Ledger
echo_to s t state other l =
    if other == t.to_member && not (has_text t.dst_uuid)
    then elim (find_create t.id l) [
      | none ↦ insert_echo s t.id state other l
      | some c ↦ echo_by_create s t.id state other c.id c.state l
    ]
    else insert_echo s t.id state other l

-- `_queue_echo` reads the row again. It is called on rows that are there.
unfoldable pub queue_echo : Draws → RowId → Terminal → Ledger → Bool × Ledger
queue_echo s i state l = elim (find_transfer i l) [
  | none ↦ (false, l)
  | some t ↦ echo_to s t state (other_party t) l
]

abbrev pub with_terminal : Terminal → RowId → Transfer → Transfer
with_terminal state member t = record t { terminal = some state; terminal_by = some member }

-- `UPDATE transfers SET terminal=?, terminal_by=? WHERE id=?`
unfoldable pub set_terminal : Terminal → RowId → RowId → Ledger → Ledger
set_terminal state member i l = record l {
  transfers = update (λ t. t.id == i) (with_terminal state member) l.transfers;
}

-- The cancel echoes of a transfer that are not done are withdrawn.
abbrev pub is_open_cancel : RowId → Delivery → Bool
is_open_cancel i d = d.transfer_id == i && eq_kind d.kind cancel && not (is_done d.state)

unfoldable pub withdraw_cancel : RowId → Ledger → Ledger
withdraw_cancel i l = record l { deliveries = delete (is_open_cancel i) l.deliveries }

-- `{"ok": True, "terminal": ..., "already_set": ...}`
pub record Observation : Type 0 where
  pub terminal : Terminal
  pub already_set : Bool

abbrev pub echo_detail : Terminal → String → Json
echo_detail state handle =
    obj (field "state" (text (terminal_name state)) (field "by" (text handle) end))

-- No terminal state is set yet.
unfoldable pub observe_first : Draws → Principal → RowId → Terminal → Ledger → Result Observation
observe_first s p i state l =
    let (signal, l') = queue_echo s i state (
      event "terminal-set" (some i) (some p.device_id) (some (echo_detail state p.handle)) s.event
        (set_terminal state p.member_id i l)) in
    ok (record { terminal = state; already_set = false }) (signal_if signal l')

-- `completed` arrives after `canceled`.
abbrev pub is_done_cancel : RowId → Delivery → Bool
is_done_cancel i d = d.transfer_id == i && eq_kind d.kind cancel && is_done d.state

unfoldable pub upgrade : Draws → Principal → RowId → Ledger → Result Observation
upgrade s p i l =
    if any (is_done_cancel i) l.deliveries
    then ok (record { terminal = canceled; already_set = true })
        (event "terminal-upgrade-refused" (some i) (some p.device_id)
          (some (obj (field "kept" (text "canceled") end))) s.event l)
    else let (signal, l') =
        queue_echo s i completed (withdraw_cancel i (set_terminal completed p.member_id i l)) in
      ok (record { terminal = completed; already_set = false })
        (signal_if signal (
          event "terminal-upgraded" (some i) (some p.device_id)
            (some (obj (field "from" (text "canceled") (field "to" (text "completed") end))))
            s.event l'))

unfoldable pub observe_set :
    Draws → Principal → RowId → Option Terminal → Terminal → Ledger → Result Observation
observe_set s p i none state l = observe_first s p i state l
observe_set s p i (some completed) state l =
    ok (record { terminal = completed; already_set = true }) l
observe_set s p i (some canceled) canceled l =
    ok (record { terminal = canceled; already_set = true }) l
observe_set s p i (some canceled) completed l = upgrade s p i l

-- `state not in TERMINAL_STATES`
abbrev pub parse_terminal : String → Option Terminal
parse_terminal state =
    if str_eq state "completed"
    then some completed
    else if str_eq state "canceled"
    then some canceled
    else none

-- The `SELECT` of `observe`: the member has to be a party to the transfer.
abbrev pub is_observable : Principal → RowId → Transfer → Bool
is_observable p i t = t.id == i && t.tenant_id == p.tenant_id && is_party p.member_id t

unfoldable pub observe : Draws → Principal → RowId → String → Ledger → Result Observation
observe s p i state l = elim (parse_terminal state) [
  | none ↦ err ledger_error
  | some x ↦ elim (find (is_observable p i) l.transfers) [
    | none ↦ err not_found
    | some t ↦ observe_set s p i t.terminal x l
  ]
]

pub record Health : Type 0 where
  pub pending_deliveries : ℕ
  pub open_transfers : ℕ

unfoldable pub health : Ledger → Health
health l = record {
  pending_deliveries = count (λ d. not (is_done d.state)) l.deliveries;
  open_transfers = count (λ t. is_null t.resolved_at) l.transfers;
}
