-- ===== src/Hub/Accounts.antt =====
-- The administration and the authentication of hub/ledger.py. `hash` is `_hash_token`, sha256 in
-- hexadecimal, and `normalize` is Python's `handle.strip().lower()`.
use things_team.Base.{
  String, Bool, false, not, ◌&&◌, ◌||◌, Option, none, some, ◌∷◌, [], ◌++◌, ◌==◌, str_eq,
  if◌then◌else◌,
}
use things_team.Base.Table.{find, any, update}
use things_team.Hub.Schema.{
  RowId, Time, Tenant, Member, Device, Ledger, Principal, Draws, Result, ok, err, ledger_error,
  auth_error, not_found, integrity_error,
}
use things_team.Hub.Rows.{is_null, find_member}

-- UNIQUE(name) of the tenants, and the primary key
unfoldable pub create_tenant : Draws → String → Ledger → Result RowId
create_tenant s name l =
    if any (λ (t : Tenant). t.id == s.row || str_eq t.name name) l.tenants
    then err ledger_error
    else ok s.row (record l {
      tenants = l.tenants ++ record { id = s.row; name = name; created_at = s.now } ∷ [];
    })

-- The three capabilities of a member.
pub record Caps : Type 0 where
  pub can_send : Bool
  pub can_receive : Bool
  pub can_admin : Bool

abbrev pub new_member : Draws → RowId → String → String → Caps → Member
new_member s tenant_id handle display_name caps = record {
  id = s.row;
  tenant_id = tenant_id;
  handle = handle;
  display_name = display_name;
  can_send = caps.can_send;
  can_receive = caps.can_receive;
  can_admin = caps.can_admin;
  created_at = s.now;
}

-- UNIQUE(tenant_id, handle), and the primary key
unfoldable pub insert_member : Member → Ledger → Result RowId
insert_member m l =
    if any
      (λ (x : Member). x.id == m.id || (x.tenant_id == m.tenant_id && str_eq x.handle m.handle))
      l.members
    then err ledger_error
    else ok m.id (record l { members = l.members ++ m ∷ [] })

unfoldable pub create_member :
    (String → String) → Draws → RowId → String → String → Caps → Ledger → Result RowId
create_member normalize s tenant_id handle display_name caps l =
    if str_eq (normalize handle) ""
    then err ledger_error
    else if not (any (λ (t : Tenant). t.id == tenant_id) l.tenants)
    then err not_found
    else insert_member (new_member s tenant_id (normalize handle) display_name caps) l

-- `token_hash=?`: NULL equals nothing.
abbrev pub text_is : String → Option String → Bool
text_is s none = false
text_is s (some t) = str_eq t s

abbrev pub new_device : Draws → RowId → String → Option String → Device
new_device s member_id name token_hash = record {
  id = s.row;
  member_id = member_id;
  name = name;
  token_hash = token_hash;
  created_at = s.now;
  last_seen_at = none;
  revoked_at = none;
}

abbrev pub same_token : Option String → Option String → Bool
same_token none h = false
same_token (some t) h = text_is t h

-- The `INSERT INTO devices`: the primary key, UNIQUE(token_hash), and the foreign key
unfoldable pub insert_device : Device → Ledger → Result RowId
insert_device d l =
    if any (λ (x : Device). x.id == d.id || same_token d.token_hash x.token_hash) l.devices
      || not (any (λ (m : Member). m.id == d.member_id) l.members)
    then err integrity_error
    else ok d.id (record l { devices = l.devices ++ d ∷ [] })

-- `token` is what `secrets.token_urlsafe` drew; it is returned beside the id, and not kept.
unfoldable pub create_device :
    (String → String) → Draws → String → RowId → String → Ledger → Result RowId
create_device hash s token member_id name l = elim (find_member member_id l) [
  | none ↦ err not_found
  | some _ ↦ insert_device (new_device s member_id name (some (hash token))) l
]

abbrev pub is_active : RowId → Device → Bool
is_active i d = d.id == i && is_null d.revoked_at

abbrev pub revoked : Time → Device → Device
revoked now d = record d { revoked_at = some now; token_hash = none }

-- No row was updated: `rowcount == 0`
unfoldable pub revoke_device : Time → RowId → Ledger → Result (Unit {0})
revoke_device now i l =
    if any (is_active i) l.devices
    then ok tt (record l { devices = update (is_active i) (revoked now) l.devices })
    else err not_found

unfoldable pub ensure_gateway_device : Draws → RowId → String → Ledger → Result RowId
ensure_gateway_device s member_id name l =
    elim (find
      (λ (d : Device). d.member_id == member_id && str_eq d.name name && is_null d.revoked_at)
      l.devices) [ some d ↦ ok d.id l | none ↦ insert_device (new_device s member_id name none) l ]

-- The update of `bootstrap` in hub/server.py: UNIQUE(token_hash)
unfoldable pub rotate_token : RowId → String → Ledger → Result (Unit {0})
rotate_token i token_hash l =
    if any (λ (d : Device). not (d.id == i) && text_is token_hash d.token_hash) l.devices
    then err integrity_error
    else ok tt (record l {
      devices = update (λ d. d.id == i) (λ d. record d { token_hash = some token_hash }) l.devices;
    })

abbrev pub principal_of : Member → RowId → Principal
principal_of m device_id = record {
  tenant_id = m.tenant_id;
  member_id = m.id;
  device_id = device_id;
  handle = m.handle;
  can_send = m.can_send;
  can_receive = m.can_receive;
  can_admin = m.can_admin;
}

abbrev pub has_token : String → Device → Bool
has_token h d = text_is h d.token_hash && is_null d.revoked_at

abbrev pub seen : Time → Device → Device
seen now d = record d { last_seen_at = some now }

-- The device's member is there by the foreign key; the join would find nothing otherwise.
unfoldable pub authenticate : (String → String) → Time → String → Ledger → Result Principal
authenticate hash now token l =
    if str_eq token "" then err auth_error else elim (find (has_token (hash token)) l.devices) [
      | none ↦ err auth_error
      | some d ↦ elim (find_member d.member_id l) [
        | none ↦ err auth_error
        | some m ↦
            ok (principal_of m d.id)
              (record l { devices = update (λ (x : Device). x.id == d.id) (seen now) l.devices })
      ]
    ]

unfoldable pub principal_for_member : RowId → RowId → Ledger → Result Principal
principal_for_member member_id device_id l = elim (find_member member_id l) [
  | none ↦ err not_found
  | some m ↦ ok (principal_of m device_id) l
]
