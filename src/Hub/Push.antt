-- ===== src/Hub/Push.antt =====
-- `push_transfer` of hub/ledger.py, with `member_by_handle` and `_transfer_dict`.
pub mod Replay
pub mod Effect
use things_team.Base.{
  ℕ, String, Bool, true, false, not, ◌&&◌, ◌||◌, Option, none, some, ◌∷◌, [], ◌++◌, ◌==◌, str_eq,
  if◌then◌else◌,
}
use things_team.Base.Table.{find, any}
use things_team.Json.{Json, num, text, obj, end, field, is_dict, get, truthy}
use things_team.Hub.Schema.{
  RowId, Time, Terminal, create, Member, Tenant, Transfer, Ledger, Principal, Draws, Result, ok,
  err, ledger_error, forbidden, not_found, integrity_error,
}
use things_team.Hub.Rows.{event, signal_delivery, new_delivery, queue_delivery}

-- `_transfer_dict`, and the key `deduped` that `push_transfer` adds
pub record Receipt : Type 0 where
  pub id : RowId
  pub src_uuid : String
  pub dst_uuid : Option String
  pub rev : ℕ
  pub terminal : Option Terminal
  pub created_at : Time
  pub applied_at : Option Time
  pub resolved_at : Option Time
  pub deduped : Bool

abbrev pub transfer_dict : Transfer → Bool → Receipt
transfer_dict t deduped = record {
  id = t.id;
  src_uuid = t.src_uuid;
  dst_uuid = t.dst_uuid;
  rev = t.rev;
  terminal = t.terminal;
  created_at = t.created_at;
  applied_at = t.applied_at;
  resolved_at = t.resolved_at;
  deduped = deduped;
}

-- `member_by_handle`; `normalize` is Python's `handle.strip().lower()`.
unfoldable pub member_by_handle : (String → String) → RowId → String → Ledger → Option Member
member_by_handle normalize tenant_id handle l =
    find (λ m. m.tenant_id == tenant_id && str_eq m.handle (normalize handle)) l.members

-- UNIQUE(tenant_id, from_member, src_uuid, rev)
abbrev pub same_push : RowId → RowId → String → ℕ → Transfer → Bool
same_push tenant_id from_member src_uuid rev t =
    t.tenant_id == tenant_id
    && t.from_member == from_member
    && str_eq t.src_uuid src_uuid
    && t.rev == rev

-- The row of the first `INSERT`.
abbrev pub new_transfer : Draws → Principal → RowId → String → ℕ → Json → Transfer
new_transfer d p to src_uuid rev payload = record {
  id = d.row;
  tenant_id = p.tenant_id;
  from_member = p.member_id;
  to_member = to;
  src_uuid = src_uuid;
  dst_uuid = none;
  rev = rev;
  payload = payload;
  terminal = none;
  terminal_by = none;
  created_at = d.now;
  applied_at = none;
  resolved_at = none;
}

-- The primary key or UNIQUE(tenant_id, from_member, src_uuid, rev) is taken.
abbrev pub clashes : Transfer → Transfer → Bool
clashes t x = x.id == t.id || same_push t.tenant_id t.from_member t.src_uuid t.rev x

-- What makes the first `INSERT` fail: the primary key, UNIQUE, or a foreign key.
unfoldable pub rejects_transfer : Transfer → Ledger → Bool
rejects_transfer t l =
    any (clashes t) l.transfers
    || not (any (λ (x : Tenant). x.id == t.tenant_id) l.tenants)
    || not (any (λ (m : Member). m.id == t.from_member) l.members)
    || not (any (λ (m : Member). m.id == t.to_member) l.members)

-- From the drawing of `tid` to the commit, and the signal after it.
unfoldable pub insert_push : Draws → Principal → String → Transfer → Ledger → Result Receipt
insert_push d p to_handle t l =
    if rejects_transfer t l
    then err integrity_error
    else ok (transfer_dict t false) (
        signal_delivery (
          event "transfer-pushed" (some t.id) (some p.device_id)
            (some (
              obj (
                field "to" (text to_handle)
                  (field "src_uuid" (text t.src_uuid) (field "rev" (num t.rev) end)))))
            d.event
            (queue_delivery (new_delivery d.delivery t.id create t.to_member d.now)
              (record l { transfers = l.transfers ++ t ∷ [] }))))

-- The replay of a push returns the row that is there.
unfoldable pub push_to :
    Draws → Principal → String → String → Json → ℕ → Member → Ledger → Result Receipt
push_to d p to_handle src_uuid payload rev to l =
    if to.id == p.member_id
    then err ledger_error
    else if not to.can_receive
    then err forbidden
    else elim (find (same_push p.tenant_id p.member_id src_uuid rev) l.transfers) [
      | some existing ↦ ok (transfer_dict existing true) l
      | none ↦ insert_push d p to_handle (new_transfer d p to.id src_uuid rev payload) l
    ]

unfoldable pub push_transfer :
    (String → String) → Draws → Principal → String → String → Json → ℕ → Ledger → Result Receipt
push_transfer normalize d p to_handle src_uuid payload rev l =
    if not p.can_send
    then err forbidden
    else if str_eq src_uuid "" || not (is_dict payload)
    then err ledger_error
    else if not (truthy (get "title" payload))
    then err ledger_error
    else elim (member_by_handle normalize p.tenant_id to_handle l) [
      | none ↦ err not_found
      | some to ↦ push_to d p to_handle src_uuid payload rev to l
    ]
