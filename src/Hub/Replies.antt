-- ===== src/Hub/Replies.antt =====
-- The dicts that the methods of hub/ledger.py return, as hub/api.py sends them.
use things_team.Base.{ℕ, String, Bool, true, false, Option, none, some, List, [], ◌∷◌}
use things_team.Json.{Json, null, bool, num, text, obj, Items, nil, cons, Fields, end, field}
use things_team.Hub.Schema.{RowId, Terminal}
use things_team.Hub.Push.{Receipt}
use things_team.Hub.Lease.{Entry, Body, payload, uuid}
use things_team.Hub.Ack.{AckReply, acked, already_done, kind_name}
use things_team.Hub.Observe.{
  Role, sender, recipient, Progress, applied, created, Watch, terminal_name, Observation, Health,
}
use things_team.Hub.Http.{Wire}

abbrev pub or_none : Option String → Json
or_none none = null
or_none (some s) = text s

abbrev pub number_or_none : Option ℕ → Json
number_or_none none = null
number_or_none (some n) = num n

abbrev pub terminal_or_none : Option Terminal → Json
terminal_or_none none = null
terminal_or_none (some x) = text (terminal_name x)

unfoldable pub items_of {ℓ} : {A : Type ℓ} → (A → Json) → List A → Items
items_of f [] = nil
items_of f (a ∷ as') = cons (f a) (items_of f as')

abbrev pub ack_json : AckReply → Json
ack_json acked = obj (field "ok" (bool true) end)
ack_json already_done = obj (field "ok" (bool true) (field "already_done" (bool true) end))

abbrev set_fields : Bool → Fields
set_fields true = field "already_set" (bool true) end
set_fields false = end

abbrev pub observation_json : Observation → Json
observation_json o = obj (
    field "ok" (bool true)
      (field "terminal" (text (terminal_name o.terminal)) (set_fields o.already_set)))

abbrev pub role_name : Role → String
role_name sender = "sender"
role_name recipient = "recipient"

abbrev pub progress_name : Progress → String
progress_name applied = "applied"
progress_name created = "created"

abbrev pub health_json : Health → Json
health_json h = obj (
    field "ok" (bool true) (
      field "pending_deliveries" (num h.pending_deliveries)
        (field "open_transfers" (num h.open_transfers) end)))

module _ (w : Wire) where
  abbrev pub id_json : RowId → Json
  id_json i = text (w.text_of i)

  abbrev pub receipt_json : Receipt → Json
  receipt_json r = obj (
      field "id" (id_json r.id) (
        field "src_uuid" (text r.src_uuid) (
          field "dst_uuid" (or_none r.dst_uuid) (
            field "rev" (num r.rev) (
              field "terminal" (terminal_or_none r.terminal) (
                field "created_at" (num r.created_at) (
                  field "applied_at" (number_or_none r.applied_at) (
                    field "resolved_at" (number_or_none r.resolved_at)
                      (field "deduped" (bool r.deduped) end)))))))))

  abbrev pub body_fields : Body → Fields
  body_fields (payload j from tag) =
      field "payload" j (field "from" (text from) (field "provenance_tag" (text tag) end))
  body_fields (uuid u) = field "uuid" (text u) end

  unfoldable pub entry_json : Entry → Json
  entry_json e = obj (
      field "id" (id_json e.id) (
        field "transfer_id" (id_json e.transfer_id) (
          field "kind" (text (kind_name e.kind))
            (field "attempts" (num e.attempts) (body_fields e.body)))))

  unfoldable pub watch_json : Watch → Json
  watch_json x = obj (
      field "transfer_id" (id_json x.transfer_id) (
        field "uuid" (text x.uuid) (
          field "role" (text (role_name x.role))
            (field "state" (text (progress_name x.state)) end))))

  abbrev pub tenant_json : RowId → String → Json
  tenant_json i name = obj (field "id" (id_json i) (field "name" (text name) end))

  abbrev pub member_json : RowId → RowId → String → String → Json
  member_json i tenant_id handle display_name = obj (
      field "id" (id_json i) (
        field "tenant_id" (id_json tenant_id) (
          field "handle" (text (w.normalize handle))
            (field "display_name" (text display_name) end))))

  abbrev pub device_json : RowId → RowId → String → String → Json
  device_json i member_id name token = obj (
      field "id" (id_json i) (
        field "member_id" (id_json member_id)
          (field "name" (text name) (field "token" (text token) end))))
