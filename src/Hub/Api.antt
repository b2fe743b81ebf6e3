-- ===== src/Hub/Api.antt =====
-- The routes of hub/api.py.
pub mod Once
pub mod Posts
pub mod LongPoll
mod Tests
use Prim.Native.String
use things_team.Base.{
  ℕ, ◌+◌, String, Bool, true, false, not, ◌&&◌, Option, none, some, List, [], ◌∷◌, ◌==◌, leb,
  str_eq, if◌then◌else◌,
}
use things_team.Base.Table.{find, any}
use things_team.Json.{Json, null, bool, num, text, arr, obj, Fields, end, field, truthy}
use things_team.Json.Access.{find_field}
use things_team.Hub.Schema.{
  RowId, Time, Member, Device, Ledger, Principal, auth_error, forbidden, ledger_error, Result, ok,
  err,
}
use things_team.Hub.Accounts.{
  Caps, create_tenant, create_member, create_device, revoke_device, authenticate,
}
use things_team.Hub.Push.{Receipt, push_transfer}
use things_team.Hub.Lease.{Entry, lease_deliveries}
use things_team.Hub.Ack.{ack_delivery, nack_delivery}
use things_team.Hub.Observe.{watchlist, observe, health}
use things_team.Hub.Http.{
  Body, no_body, unreadable, garbled, parsed, Method, get, post, Number, not_a_number, negative,
  natural, Request, Reply, Moment, Wire, Fault, ledger_fault, bad_json, internal, outside, Step,
  finished, fault, parked, Handler, give, throw, on_ledger, ◌>>=◌, handle, drop_prefix, drop_suffix,
  get_or, dict_of, text_arg,
}
use things_team.Hub.Replies.{
  items_of, ack_json, observation_json, health_json, receipt_json, entry_json, watch_json,
  tenant_json, member_json, device_json,
}

-- What happens in one wait of a long poll: the calls of the others, up to the next lease, its time, and the
-- time that is read after it
pub record Turn : Type 0 where
  pub others : Ledger → Ledger
  pub leased_at : Time
  pub tested_at : Time

abbrev pub Answer : Type 0
Answer = ℕ × Json

abbrev pub not_found_reply : Answer
not_found_reply = (404, obj (field "error" (text "not found") end))

abbrev pub deliveries_json : Wire → List Entry → Json
deliveries_json w es = obj (field "deliveries" (arr (items_of (entry_json w) es)) end)

abbrev pub is_empty {ℓ} : {A : Type ℓ} → List A → Bool
is_empty [] = true
is_empty (x ∷ xs) = false

-- `min(x, n)`
abbrev pub at_most : ℕ → ℕ → ℕ
at_most n x = if leb n x then n else x

-- `int(qs.get(...)[0])`, which raises ValueError
abbrev pub number_or_raise : Option ℕ → Handler ℕ
number_or_raise none = throw internal
number_or_raise (some n) = give n

-- `int(body.get("rev", 1))`
abbrev pub rev_arg : Number → Handler ℕ
rev_arg not_a_number = throw internal
rev_arg negative = throw outside
rev_arg (natural n) = give n

-- The body of `_post` once it is read
abbrev pub json_body : Body → Handler Json
json_body no_body = give (obj end)
json_body unreadable = throw internal
json_body garbled = throw bad_json
json_body (parsed v) = give v

-- `body.get("dst_uuid")`
abbrev pub dst_arg : Json → Handler (Option String)
dst_arg null = give none
dst_arg (text s) = give (some s)
dst_arg _ = throw outside

abbrev pub caps_of : Fields → Caps
caps_of fs = record {
  can_send = truthy (get_or "can_send" (bool true) fs);
  can_receive = truthy (get_or "can_receive" (bool true) fs);
  can_admin = truthy (get_or "can_admin" (bool false) fs);
}

-- `WHERE id=? AND tenant_id=?`
abbrev pub is_own_member : RowId → Principal → Member → Bool
is_own_member i p x = x.id == i && x.tenant_id == p.tenant_id

unfoldable pub own_member : RowId → Principal → Handler Member
own_member i p l = elim (find (is_own_member i p) l.members) [
  | none ↦ fault (ledger_fault ledger_error) l
  | some x ↦ finished x l
]

-- The join of the device with a member of the tenant
abbrev pub is_own_device : RowId → Principal → Ledger → Device → Bool
is_own_device i p l d = d.id == i && any (is_own_member d.member_id p) l.members

unfoldable pub own_device : RowId → Principal → Handler Device
own_device i p l = elim (find (is_own_device i p l) l.devices) [
  | none ↦ fault (ledger_fault ledger_error) l
  | some d ↦ finished d l
]

-- The id between `devices/` and `/revoke`, which may share the slash
abbrev pub revoked_id : String → Option String
revoked_id rest = elim (drop_prefix "devices/" rest) [
  | none ↦ none
  | some tail ↦ elim (drop_suffix "/revoke" rest) [
    | none ↦ none
    | some head ↦ elim (drop_suffix "/revoke" tail) [ none ↦ some "" | some i ↦ some i ]
  ]
]

abbrev pub parameter : Request → String → String → String
parameter r key default = elim (r.query key) [ none ↦ default | some s ↦ s ]

module _ (w : Wire) (m : Moment) where
  abbrev pub token_principal : Option String → Handler Principal
  token_principal none = throw (ledger_fault auth_error)
  token_principal (some token) = on_ledger (authenticate w.hash m.login_at (w.strip token))

  -- `_principal`
  unfoldable pub principal : String → Handler Principal
  principal authorization = token_principal (drop_prefix "Bearer " authorization)

  -- `while not deliveries and time.time() < deadline`: a lease at once, and one after each wait
  unfoldable pub poll_loop :
      Principal → ℕ → Time → List Entry → Time → List Turn → Handler (List Entry)
  poll_loop p limit deadline es now [] l =
      if is_empty es && not (leb deadline now) then parked l else finished es l
  poll_loop p limit deadline es now (t ∷ ts) l =
      let rest : Step (List Entry) =
        (on_ledger (lease_deliveries t.leased_at p limit w.lease_seconds) >>= λ es'.
        poll_loop p limit deadline es' t.tested_at ts)
          (t.others l) in
      if is_empty es && not (leb deadline now) then rest else finished es l

  unfoldable pub poll : Principal → ℕ → Time → List Turn → Handler Answer
  poll p limit wait turns =
      on_ledger (lease_deliveries m.draws.now p limit w.lease_seconds) >>= λ es.
      poll_loop p limit (m.asked_at + wait) es m.tested_at turns >>= λ es.
      give (200, deliveries_json w es)

  unfoldable pub get_deliveries : Request → Principal → List Turn → Handler Answer
  get_deliveries r p turns = number_or_raise (w.int_text (parameter r "limit" "10")) >>= λ limit.
      number_or_raise (w.wait_text (parameter r "wait" "0")) >>= λ wait.
      poll p (at_most 50 limit) (at_most w.max_wait wait) turns

  unfoldable pub get_as : Request → List Turn → Principal → Handler Answer
  get_as r turns p l =
      if str_eq r.path "/v1/deliveries"
      then get_deliveries r p turns l
      else if str_eq r.path "/v1/watch"
      then finished (200, obj (field "watch" (arr (items_of (watch_json w) (watchlist p l))) end)) l
      else finished not_found_reply l

  -- `_get`
  unfoldable pub get_route : Request → List Turn → Handler Answer
  get_route r turns l =
      if str_eq r.path "/v1/health"
      then finished (200, health_json (health l)) l
      else (principal r.authorization >>= get_as r turns) l

  unfoldable pub push_route : Principal → Fields → Handler Answer
  push_route p fs = text_arg (get_or "to" (text "") fs) >>= λ to.
      text_arg (get_or "src_uuid" (text "") fs) >>= λ src_uuid.
      rev_arg (w.int_of (get_or "rev" (num 1) fs)) >>= λ rev.
      on_ledger (push_transfer w.normalize m.draws p to src_uuid (get_or "payload" null fs) rev)
      >>= λ r. give ((if r.deduped then 200 else 201), receipt_json w r)

  unfoldable pub ack_route : Principal → String → Fields → Handler Answer
  ack_route p i fs = dst_arg (get_or "dst_uuid" null fs) >>= λ dst.
      on_ledger (ack_delivery m.draws p (w.row_of i) dst) >>= λ r. give (200, ack_json r)

  -- `nack_delivery` takes `str(error)`.
  unfoldable pub nack_route : Principal → String → Fields → Handler Answer
  nack_route p i fs =
      on_ledger (nack_delivery m.draws p (w.row_of i) (w.str (get_or "error" (text "") fs)))
      >>= λ r. give (200, ack_json r)

  unfoldable pub delivery_route : Principal → String → Json → Handler Answer
  delivery_route p rest body = elim (drop_suffix "/ack" rest) [
    | some i ↦ dict_of body >>= ack_route p i
    | none ↦ elim (drop_suffix "/nack" rest) [
      | some i ↦ dict_of body >>= nack_route p i
      | none ↦ give not_found_reply
    ]
  ]

  unfoldable pub observe_route : Principal → Fields → Handler Answer
  observe_route p fs = text_arg (get_or "transfer_id" (text "") fs) >>= λ i.
      text_arg (get_or "state" (text "") fs) >>= λ state.
      on_ledger (observe m.draws p (w.row_of i) state) >>= λ o. give (200, observation_json o)

  unfoldable pub tenants_route : Fields → Handler Answer
  tenants_route fs = text_arg (get_or "name" (text "") fs) >>= λ name.
      on_ledger (create_tenant m.draws name) >>= λ i. give (201, tenant_json w i name)

  unfoldable pub members_route : Principal → Fields → Handler Answer
  members_route p fs = text_arg (get_or "handle" (text "") fs) >>= λ handle.
      text_arg (get_or "display_name" (get_or "handle" (text "") fs) fs) >>= λ name.
      on_ledger (create_member w.normalize m.draws p.tenant_id handle name (caps_of fs)) >>= λ i.
      give (201, member_json w i p.tenant_id handle name)

  unfoldable pub devices_route : Principal → Fields → Handler Answer
  devices_route p fs = text_arg (get_or "member_id" (text "") fs) >>= λ i.
      own_member (w.row_of i) p >>= λ x. text_arg (get_or "name" (text "device") fs) >>= λ name.
      on_ledger (create_device w.hash m.draws m.token x.id name) >>= λ d.
      give (201, device_json w d x.id name m.token)

  unfoldable pub revoke_route : Principal → String → Handler Answer
  revoke_route p i = own_device (w.row_of i) p >>= λ d.
      on_ledger (revoke_device m.draws.now (w.row_of i)) >>= λ u.
      give (200, obj (field "ok" (bool true) end))

  unfoldable pub admin_route : Principal → String → Json → Handler Answer
  admin_route p rest body =
      if not p.can_admin
      then throw (ledger_fault forbidden)
      else if str_eq rest "tenants"
      then dict_of body >>= tenants_route
      else if str_eq rest "members"
      then dict_of body >>= members_route p
      else if str_eq rest "devices"
      then dict_of body >>= devices_route p
      else elim (revoked_id rest) [ none ↦ give not_found_reply | some i ↦ revoke_route p i ]

  unfoldable pub rest_route : Principal → String → Json → Handler Answer
  rest_route p path body =
      if str_eq path "/v1/observations"
      then dict_of body >>= observe_route p
      else elim (drop_prefix "/v1/admin/" path) [
        | none ↦ give not_found_reply
        | some rest ↦ admin_route p rest body
      ]

  unfoldable pub post_as : String → Principal → Json → Handler Answer
  post_as path p body =
      if str_eq path "/v1/transfers"
      then dict_of body >>= push_route p
      else elim (drop_prefix "/v1/deliveries/" path) [
        | some rest ↦ delivery_route p rest body
        | none ↦ rest_route p path body
      ]

  -- `_post`
  unfoldable pub post_route : Request → Handler Answer
  post_route r =
      principal r.authorization >>= λ p. json_body r.body >>= λ body. post_as r.path p body

  abbrev pub route : Method → Request → List Turn → Handler Answer
  route get r turns = get_route r turns
  route post r turns = post_route r

  -- `do_GET` and `do_POST`
  unfoldable pub serve : Request → List Turn → Ledger → Reply × Ledger
  serve r turns l = handle (route r.method r turns) l
