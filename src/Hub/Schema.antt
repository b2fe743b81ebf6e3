-- ===== src/Hub/Schema.antt =====
-- The rows of hub/ledger.py's tables, its errors, and what a call draws from the outside.
use things_team.Base.{ℕ, String, Bool, Option, List}
use things_team.Json.{Json}

-- `_new_id()` makes random uuids. They are only compared, so they are numbers here.
abbrev pub RowId : Type 0
RowId = ℕ

-- `time.time()`, in any unit.
abbrev pub Time : Type 0
Time = ℕ

pub data Terminal : Type 0 where
  completed canceled : Terminal

pub data Kind : Type 0 where
  create complete cancel : Kind

pub data DeliveryState : Type 0 where
  queued leased done : DeliveryState

pub record Tenant : Type 0 where
  pub id : RowId
  pub name : String
  pub created_at : Time

pub record Member : Type 0 where
  pub id : RowId
  pub tenant_id : RowId
  pub handle : String
  pub display_name : String
  pub can_send : Bool
  pub can_receive : Bool
  pub can_admin : Bool
  pub created_at : Time

pub record Device : Type 0 where
  pub id : RowId
  pub member_id : RowId
  pub name : String
  pub token_hash : Option String
  pub created_at : Time
  pub last_seen_at : Option Time
  pub revoked_at : Option Time

pub record Transfer : Type 0 where
  pub id : RowId
  pub tenant_id : RowId
  pub from_member : RowId
  pub to_member : RowId
  pub src_uuid : String
  pub dst_uuid : Option String
  pub rev : ℕ
  pub payload : Json
  pub terminal : Option Terminal
  pub terminal_by : Option RowId
  pub created_at : Time
  pub applied_at : Option Time
  pub resolved_at : Option Time

pub record Delivery : Type 0 where
  pub id : RowId
  pub transfer_id : RowId
  pub kind : Kind
  pub to_member : RowId
  pub state : DeliveryState
  pub leased_by_device : Option RowId
  pub lease_expires_at : Option Time
  pub attempts : ℕ
  pub last_error : Option String
  pub created_at : Time
  pub done_at : Option Time

pub record Event : Type 0 where
  pub id : RowId
  pub transfer_id : Option RowId
  pub device_id : Option RowId
  pub kind : String
  pub detail : Option Json
  pub created_at : Time

-- `delivery_gen` is the generation of the push primitive, kept beside the tables.
pub record Ledger : Type 0 where
  pub tenants : List Tenant
  pub members : List Member
  pub devices : List Device
  pub transfers : List Transfer
  pub deliveries : List Delivery
  pub events : List Event
  pub delivery_gen : ℕ

pub record Principal : Type 0 where
  pub tenant_id : RowId
  pub member_id : RowId
  pub device_id : RowId
  pub handle : String
  pub can_send : Bool
  pub can_receive : Bool
  pub can_admin : Bool

-- The classes of the exceptions, their messages left out; `integrity_error` is
-- `sqlite3.IntegrityError`.
pub data Error : Type 0 where
  ledger_error auth_error forbidden not_found integrity_error : Error

-- The transaction of a call that raises is rolled back, so the new state comes only with a result.
pub data Result {ℓ} (A : Type ℓ) : Type ℓ where
  ok : A → Ledger → Result A
  err : Error → Result A

-- The state after a call.
abbrev pub after {ℓ} : {A : Type ℓ} → Ledger → Result A → Ledger
after l (ok _ l') = l'
after l (err _) = l

-- What one `_event` draws: its id and its time.
pub record Stamp : Type 0 where
  pub id : RowId
  pub at : Time

-- What one call draws from `_new_id()` and `time.time()`, by the statement that uses it.
pub record Draws : Type 0 where
  pub now : Time
  pub row : RowId
  pub delivery : RowId
  pub event : Stamp
  pub skip : Stamp
