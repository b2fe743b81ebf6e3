-- ===== src/Hub/History.antt =====
-- The calls of hub/ledger.py, and the statements on devices of hub/server.py, as the steps of one serial
-- history: each holds the lock, and each is one transaction.
pub mod Reachable
pub mod Evolution
pub mod Transfers
pub mod Signals
pub mod Wakeups
use things_team.Base.{ℕ, String, Option, none, some, []}
use things_team.Json.{Json}
use things_team.Hub.Schema.{RowId, Time, Ledger, Principal, Draws, after}
use things_team.Hub.Accounts.{
  Caps, create_tenant, create_member, create_device, revoke_device, ensure_gateway_device,
  authenticate, new_device, insert_device, rotate_token,
}
use things_team.Hub.Push.{push_transfer}
use things_team.Hub.Lease.{lease_deliveries}
use things_team.Hub.Ack.{ack_delivery, nack_delivery}
use things_team.Hub.Observe.{observe}
use things_team.Hub.Invariant.{Fresh}

-- `_SCHEMA` makes empty tables.
abbrev pub empty : Ledger
empty = record {
  tenants = [];
  members = [];
  devices = [];
  transfers = [];
  deliveries = [];
  events = [];
  delivery_gen = 0;
}

-- The calls that change the tables, each with its arguments and what it draws.
pub data Call : Type 0 where
  tenant : Draws → String → Call
  member : Draws → RowId → String → String → Caps → Call
  device : Draws → String → RowId → String → Call
  revoke : Time → RowId → Call
  gateway : Draws → RowId → String → Call
  provision : Draws → RowId → String → String → Call
  rotate : RowId → String → Call
  login : Time → String → Call
  push : Draws → Principal → String → String → Json → ℕ → Call
  lease : Time → Principal → ℕ → Time → Call
  ack : Draws → Principal → RowId → Option String → Call
  nack : Draws → Principal → RowId → String → Call
  observation : Draws → Principal → RowId → String → Call

-- The uuids drawn for deliveries are new.
abbrev pub DrawsFresh : Call → Ledger → Type 0
DrawsFresh (push s p to_handle src_uuid payload rev) l = Fresh s l
DrawsFresh (ack s p i dst) l = Fresh s l
DrawsFresh (observation s p i state) l = Fresh s l
DrawsFresh _ l = Unit

module _ (normalize hash : String → String) where
  -- The state after a call, an error included.
  unfoldable pub perform : Call → Ledger → Ledger
  perform (tenant s name) l = after l (create_tenant s name l)
  perform (member s t handle name caps) l = after l (create_member normalize s t handle name caps l)
  perform (device s token m name) l = after l (create_device hash s token m name l)
  perform (revoke now i) l = after l (revoke_device now i l)
  perform (gateway s m name) l = after l (ensure_gateway_device s m name l)
  perform (provision s m name token_hash) l =
      after l (insert_device (new_device s m name (some token_hash)) l)
  perform (rotate i token_hash) l = after l (rotate_token i token_hash l)
  perform (login now token) l = after l (authenticate hash now token l)
  perform (push s p to_handle src_uuid payload rev) l =
      after l (push_transfer normalize s p to_handle src_uuid payload rev l)
  perform (lease now p limit seconds) l = after l (lease_deliveries now p limit seconds l)
  perform (ack s p i dst) l = after l (ack_delivery s p i dst l)
  perform (nack s p i error) l = after l (nack_delivery s p i error l)
  perform (observation s p i state) l = after l (observe s p i state l)

  -- What a hub can come to from an empty database.
  pub data Reach : Ledger → Type 0 where
    start : Reach empty
    next : {l : Ledger} → Reach l → (c : Call) → DrawsFresh c l → Reach (perform c l)
