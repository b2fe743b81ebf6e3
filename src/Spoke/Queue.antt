-- ===== src/Spoke/Queue.antt =====
-- The writer of spoke/writer_queue.py, which hands each write to the queue of the gateway and waits
-- until it is applied.
pub mod Created
pub mod Ends
pub mod Posts
mod Tests
use Prim.Native.String
use things_team.Base.{
  ℕ, ◌+◌, String, Bool, true, false, ◌||◌, ◌&&◌, Option, none, some, List, [], ◌∷◌, str_eq,
  if◌then◌else◌,
}
use things_team.Json.{
  Json, null, bool, num, text, arr, obj, Items, nil, cons, Fields, end, field, truthy, get_field,
}
use things_team.Json.Access.{Texts, find_field, or_blank, is_text, dict, field_of, first, iterate}
use things_team.Exec.{Exec, Outcome, outcome, finished, pure, raise, branch, on_option, ◌>>=◌, ◌>>◌}
use things_team.Exec.Until.{loop_until}
use things_team.Hub.Schema.{Time, Terminal, completed, canceled}
use things_team.Spoke.World.{Op, Clock}
use things_team.Spoke.Call.{call, clock_time, clock_sleep}

-- A `urllib.request.Request` with its headers
pub record Request : Type 0 where
  pub method : String
  pub url : String
  pub authorization : String
  pub content_type : Option String
  pub body : Option Json

-- What the writer works with: the provider of its token, `urlopen` with the JSON of the answer, the clock
pub record Gateway {ℓ} (W : Type ℓ) : Type ℓ where
  pub token : Op W String
  pub open_url : Request → Op W Json
  pub clock : Clock W

-- A `QueueWriter`, and the texts of its own exceptions
pub record QueueWriter : Type 0 where
  pub queue_url : String
  pub ack_timeout : Time
  pub poll_interval : Time
  pub agent : String
  pub rejected_text : Json → String
  pub failed_text : Json → Json → String
  pub not_acked_text : Json → Json → String

-- `rstrip("/")`, of the constructor
unfoldable pub rstrip_slash : String → String
rstrip_slash String.[] = ""
rstrip_slash (String.◌∷◌ c s) =
    let rest = rstrip_slash s in
    if str_eq rest "" && str_eq (String.◌∷◌ c String.[]) "/" then "" else String.◌∷◌ c rest

unfoldable pub queue_writer : QueueWriter → QueueWriter
queue_writer q = record q { queue_url = rstrip_slash q.queue_url }

-- `if v: attrs[k] = v`
abbrev pub optional : String → Json → Fields → Fields
optional k v rest = if truthy v then field k v rest else rest

unfoldable pub checklist_items : Items → Items
checklist_items nil = nil
checklist_items (cons t ts) =
    cons
      (obj
        (field "type" (text "checklist-item") (field "attributes" (obj (field "title" t end)) end)))
      (checklist_items ts)

-- `attr` of the update
abbrev pub attribute_of : Terminal → String
attribute_of completed = "completed"
attribute_of canceled = "canceled"

abbrev pub texts_of : List String → Items
texts_of [] = nil
texts_of (g ∷ gs) = cons (text g) (texts_of gs)

abbrev pub create_operation : Fields → Json
create_operation attrs = obj (
    field "type" (text "to-do")
      (field "operation" (text "create") (field "attributes" (obj attrs) end)))

abbrev pub update_operation : String → Fields → Json
update_operation u attrs = obj (
    field "type" (text "to-do") (
      field "operation" (text "update") (field "id" (text u) (field "attributes" (obj attrs) end))))

module _ {ℓ} {S : Type ℓ} (texts : Texts) where
  -- `attrs["checklist-items"]`, where the envelope has a checklist
  unfoldable pub checklist_fields : Json → Exec S Fields
  checklist_fields v =
      branch (truthy v)
        (iterate texts v >>= λ ts. pure (field "checklist-items" (arr (checklist_items ts)) end))
        (pure end)

  -- `attrs` of a create
  unfoldable pub create_attributes : Json → String → Exec S Fields
  create_attributes envelope tag = do
    fs ← dict texts (texts.no_key "title") envelope
    title ← field_of texts "title" fs
    items ← checklist_fields (get_field "checklist" fs)
    pure (
        field "title" title (
          field "notes" (or_blank (get_field "notes" fs)) (
            field "tags" (arr (cons (text tag) nil)) (
              optional "when" (get_field "when" fs)
                (optional "deadline" (get_field "deadline" fs) items)))))

-- What the poll has in hand
abbrev pub status_of : Fields → Json
status_of fs = get_field "status" fs

module _ {ℓ} {W : Type ℓ} (gateway : Gateway W) (texts : Texts) (q : QueueWriter) where
  -- `_request`
  unfoldable pub request : String → String → Option Json → Exec W Json
  request method path body = do
    token ← call gateway.token
    call (
        gateway.open_url (record {
          method = method;
          url = String.◌++◌ q.queue_url path;
          authorization = String.◌++◌ "Bearer " token;
          content_type = elim body [ none ↦ none | some v ↦ some "application/json" ];
          body = body;
        }))

  -- The answer on an operation, by its status: `none` for one that is still waited for
  unfoldable pub settled : Json → Fields → Exec W (Option String)
  settled op_id fs = branch (is_text "applied" (status_of fs)) (pure (some "applied")) (
      branch (is_text "verified" (status_of fs)) (pure (some "verified")) (
        branch (is_text "failed" (status_of fs))
          (raise (q.failed_text op_id (get_field "detail" fs))) (pure none)))

  -- The test of a round of the loop
  unfoldable pub poll_test : Json → Json → Exec W (Option String)
  poll_test op_id rec = dict texts texts.no_get rec >>= settled op_id

  -- The rest of the round: the next record
  unfoldable pub poll_rest : Json → ℕ → Json → Exec W Json
  poll_rest op_id now rec =
      clock_sleep gateway.clock q.poll_interval
      >> request "GET" (String.◌++◌ "/v1/ops/" (texts.str op_id)) none

  unfoldable pub not_acked : Json → Json → Exec W String
  not_acked op_id rec =
      dict texts texts.no_get rec >>= λ fs. raise (q.not_acked_text op_id (status_of fs))

  unfoldable pub poll : ℕ → Json → Time → Json → Exec W String
  poll fuel op_id deadline rec =
      loop_until (clock_time gateway.clock) deadline (not_acked op_id) (poll_test op_id)
        (poll_rest op_id) fuel rec

  -- `_submit_and_wait` from the deadline on
  unfoldable pub await_op : ℕ → Json → Json → Exec W String
  await_op fuel op_id rec = do
    now ← clock_time gateway.clock
    poll fuel op_id (now + q.ack_timeout) rec

  -- `if "error" in rec`
  unfoldable pub accepted : ℕ → Json → Exec W String
  accepted fuel rec = do
    fs ← dict texts (texts.no_key "error") rec
    on_option (find_field "error" fs) (field_of texts "id" fs >>= λ op_id. await_op fuel op_id rec)
        (λ e. raise (q.rejected_text e))

  -- `_submit_and_wait`
  unfoldable pub submit_and_wait : ℕ → Json → Option String → Exec W String
  submit_and_wait fuel operation idem_key = do
    resp ← request "POST" "/v1/ops" (
        some (
          obj (
            field "agent" (text q.agent) (
              field "idempotency_key" (elim idem_key [ none ↦ null | some k ↦ text k ])
                (field "operation" operation end)))))
    fs ← dict texts (texts.no_key "results") resp
    results ← field_of texts "results" fs
    rec ← first texts results
    accepted fuel rec

  -- `create`
  unfoldable pub create : ℕ → Json → String → Option String → Exec W (Unit {0})
  create fuel envelope tag idem_key = do
    attrs ← create_attributes texts envelope tag
    submit_and_wait fuel (create_operation attrs) idem_key
    pure tt

  unfoldable pub set_terminal : ℕ → String → Terminal → Exec W Bool
  set_terminal fuel u state = do
    submit_and_wait fuel (update_operation u (field (attribute_of state) (bool true) end)) (
        some
          (String.◌++◌ "tandem-terminal:" (String.◌++◌ u (String.◌++◌ ":" (attribute_of state)))))
    pure true

  unfoldable pub set_tags : ℕ → String → List String → Exec W Bool
  set_tags fuel u tags = do
    submit_and_wait fuel (update_operation u (field "tags" (arr (texts_of tags)) end)) none
    pure true

  unfoldable pub set_tags_and_terminal : ℕ → String → List String → Terminal → Exec W Bool
  set_tags_and_terminal fuel u tags state = do
    submit_and_wait fuel
        (update_operation u
          (field "tags" (arr (texts_of tags)) (field (attribute_of state) (bool true) end)))
        none
    pure true
