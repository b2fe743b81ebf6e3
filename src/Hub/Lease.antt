-- ===== src/Hub/Lease.antt =====
-- `provenance_tag` and `lease_deliveries` of hub/ledger.py.
pub mod Loop
pub mod Grants
pub mod Exclusion
pub mod Order
pub mod Complete
use Prim.Native.String
use things_team.Base.{
  ℕ, ◌+◌, suc, String, Bool, true, false, not, ◌&&◌, Option, none, some, List, ◌∷◌, [], ◌==◌, leb,
  str_eq, if◌then◌else◌,
}
use things_team.Base.Table.{select, update, join, order_by}
use things_team.Json.{Json}
use things_team.Hub.Schema.{
  RowId, Time, Kind, create, leased, DeliveryState, Member, Transfer, Delivery, Ledger, Principal,
  Result, ok, err, forbidden,
}
use things_team.Hub.Rows.{find_member, find_transfer, is_done, has_text}

-- `_PROVENANCE_EMOJI.get(handle)`
abbrev pub provenance_emoji : String → Option String
provenance_emoji handle =
    if str_eq handle "bradley"
    then some "👨"
    else if str_eq handle "jill"
    then some "👩🏻\u{200d}🦰"
    else none

unfoldable pub provenance_tag : String → String
provenance_tag handle = elim (provenance_emoji handle) [
  | none ↦ String.◌++◌ "from-" handle
  | some emoji ↦ String.◌++◌ "from-" (String.◌++◌ handle (String.◌++◌ " " emoji))
]

-- What an entry says beyond its delivery: the payload with its sender, or the uuid to act on.
pub data Body : Type 0 where
  payload : Json → String → String → Body
  uuid : String → Body

pub record Entry : Type 0 where
  pub id : RowId
  pub transfer_id : RowId
  pub kind : Kind
  pub attempts : ℕ
  pub body : Body

-- A row of the `SELECT` with its two joins.
pub record LeaseRow : Type 0 where
  pub delivery : Delivery
  pub transfer : Transfer
  pub from_handle : String

abbrev pub with_sender : Delivery → Transfer → Option Member → Option LeaseRow
with_sender d t none = none
with_sender d t (some fm) = some (record { delivery = d; transfer = t; from_handle = fm.handle })

abbrev pub with_transfer : Delivery → Ledger → Option Transfer → Option LeaseRow
with_transfer d l none = none
with_transfer d l (some t) = with_sender d t (find_member t.from_member l)

unfoldable pub lease_row : Ledger → Delivery → Option LeaseRow
lease_row l d = with_transfer d l (find_transfer d.transfer_id l)

-- The rows, in the order of `created_at`.
unfoldable pub lease_rows : RowId → Ledger → List LeaseRow
lease_rows member l =
    order_by (λ r. r.delivery.created_at)
      (join (lease_row l)
        (select (λ d. d.to_member == member && not (is_done d.state)) l.deliveries))

-- `(d["lease_expires_at"] or 0) >= now`
abbrev pub expires_after : Option Time → Time → Bool
expires_after none now = leb now 0
expires_after (some t) now = leb now t

-- `d["state"] == "leased"` and the lease has not expired
abbrev pub live_state : DeliveryState → Option Time → Time → Bool
live_state leased e now = expires_after e now
live_state _ e now = false

abbrev pub has_live_lease : Time → Delivery → Bool
has_live_lease now d = live_state d.state d.lease_expires_at now

abbrev pub non_empty : Option String → Option String
non_empty u = if has_text u then u else none

-- The uuid that a terminal delivery acts on: the sender's own copy, or the recipient's, once it
-- exists. (`src_uuid` is NOT NULL.)
abbrev pub uuid_to_act : LeaseRow → Option String
uuid_to_act r =
    if r.delivery.to_member == r.transfer.from_member
    then some r.transfer.src_uuid
    else non_empty r.transfer.dst_uuid

abbrev pub body_of : Kind → LeaseRow → Option Body
body_of create r = some (payload r.transfer.payload r.from_handle (provenance_tag r.from_handle))
body_of _ r = elim (uuid_to_act r) [ none ↦ none | some u ↦ some (uuid u) ]

-- The entry for a row, `none` where the loop goes on to the next row.
unfoldable pub offer : Time → LeaseRow → Option Entry
offer now r = if has_live_lease now r.delivery then none else elim (body_of r.delivery.kind r) [
  | none ↦ none
  | some b ↦ some (record {
    id = r.delivery.id;
    transfer_id = r.transfer.id;
    kind = r.delivery.kind;
    attempts = r.delivery.attempts + 1;
    body = b;
  })
]

abbrev pub leased_to : RowId → Time → Delivery → Delivery
leased_to device expires d = record d {
  state = leased;
  leased_by_device = some device;
  lease_expires_at = some expires;
  attempts = d.attempts + 1;
}

-- The `UPDATE` of the loop.
unfoldable pub mark_leased : RowId → Time → RowId → List Delivery → List Delivery
mark_leased device expires i ds = update (λ d. d.id == i) (leased_to device expires) ds

-- The loop over the rows, which were fetched before it: `n` entries are leased so far. It returns the
-- entries of the rest, and the table.
unfoldable pub lease_loop :
    RowId → Time → Time → ℕ → ℕ → List LeaseRow → List Delivery → List Entry × List Delivery
lease_loop device now expires limit n [] ds = ([], ds)
lease_loop device now expires limit n (r ∷ rs) ds = elim (leb limit n) [
  | true ↦ ([], ds)
  | false ↦ elim (offer now r) [
    | none ↦ lease_loop device now expires limit n rs ds
    | some e ↦
        let (es, ds') =
          lease_loop device now expires limit (suc n) rs (mark_leased device expires e.id ds) in
        (e ∷ es, ds')
  ]
]

unfoldable pub lease_deliveries : Time → Principal → ℕ → Time → Ledger → Result (List Entry)
lease_deliveries now p limit lease_seconds l =
    if not p.can_receive
    then err forbidden
    else let (entries, ds) =
        lease_loop p.device_id now (now + lease_seconds) limit 0 (lease_rows p.member_id l)
          l.deliveries in
      ok entries (record l { deliveries = ds })
