-- ===== src/Hub/Rows.antt =====
-- The statements of hub/ledger.py that several of its methods make.
use things_team.Base.{
  ◌+◌, String, Bool, true, ◌&&◌, ◌||◌, Option, none, some, List, ◌∷◌, [], ◌++◌, ◌==◌, str_eq,
  if◌then◌else◌,
}
use things_team.Base.Table.{find, any}
use things_team.Json.{Json}
use things_team.Hub.Schema.{
  RowId, Time, Terminal, completed, canceled, Kind, create, complete, cancel, queued, done,
  DeliveryState, Member, Transfer, Delivery, Ledger, Stamp,
}

-- The tests of columns that are enumerations.
abbrev pub eq_terminal : Terminal → Terminal → Bool
eq_terminal completed completed = true
eq_terminal canceled canceled = true
eq_terminal _ _ = Bool.false

abbrev pub eq_kind : Kind → Kind → Bool
eq_kind create create = true
eq_kind complete complete = true
eq_kind cancel cancel = true
eq_kind _ _ = Bool.false

abbrev pub is_done : DeliveryState → Bool
is_done done = true
is_done _ = Bool.false

-- `_ECHO_KIND`
abbrev pub echo_kind : Terminal → Kind
echo_kind completed = complete
echo_kind canceled = cancel

-- `IS NULL`
abbrev pub is_null {ℓ} : {A : Type ℓ} → Option A → Bool
is_null none = true
is_null (some _) = Bool.false

-- `if t["dst_uuid"]`: neither NULL nor empty
abbrev pub has_text : Option String → Bool
has_text none = Bool.false
has_text (some s) = if str_eq s "" then Bool.false else true

-- `COALESCE(column, now)`
abbrev pub coalesce : Option Time → Time → Option Time
coalesce none now = some now
coalesce (some t) _ = some t

-- `SELECT * FROM members WHERE id=?`
abbrev pub find_member : RowId → Ledger → Option Member
find_member i l = find (λ m. m.id == i) l.members

-- `SELECT * FROM transfers WHERE id=?`, which is `get_transfer` too
abbrev pub find_transfer : RowId → Ledger → Option Transfer
find_transfer i l = find (λ t. t.id == i) l.transfers

-- `_event`
unfoldable pub event : String → Option RowId → Option RowId → Option Json → Stamp → Ledger → Ledger
event kind transfer_id device_id detail s l = record l {
  events =
      l.events
      ++ record {
        id = s.id;
        transfer_id = transfer_id;
        device_id = device_id;
        kind = kind;
        detail = detail;
        created_at = s.at;
      }
        ∷ [];
}

-- `_signal_delivery`: one more generation
unfoldable pub signal_delivery : Ledger → Ledger
signal_delivery l = record l { delivery_gen = l.delivery_gen + 1 }

-- `if queued_echo: self._signal_delivery()`
unfoldable pub signal_if : Bool → Ledger → Ledger
signal_if b l = record l { delivery_gen = if b then l.delivery_gen + 1 else l.delivery_gen }

-- A delivery as `INSERT OR IGNORE INTO deliveries` makes it.
abbrev pub new_delivery : RowId → RowId → Kind → RowId → Time → Delivery
new_delivery i transfer_id kind to_member now = record {
  id = i;
  transfer_id = transfer_id;
  kind = kind;
  to_member = to_member;
  state = queued;
  leased_by_device = none;
  lease_expires_at = none;
  attempts = 0;
  last_error = none;
  created_at = now;
  done_at = none;
}

-- The primary key or UNIQUE(transfer_id, kind, to_member) is taken.
abbrev pub collides : Delivery → Delivery → Bool
collides d e =
    e.id == d.id
    || (e.transfer_id == d.transfer_id && eq_kind e.kind d.kind && e.to_member == d.to_member)

-- `INSERT OR IGNORE INTO deliveries`
unfoldable pub queue_row : Delivery → List Delivery → List Delivery
queue_row d ds = if any (collides d) ds then ds else ds ++ d ∷ []

unfoldable pub queue_delivery : Delivery → Ledger → Ledger
queue_delivery d l = record l { deliveries = queue_row d l.deliveries }
