-- ===== src/Spoke/HubHttp.antt =====
-- The client of spoke/hub_http.py: one HTTP request to the hub for each call.
pub mod Pinned
pub mod Served
mod Tests
use Prim.Native.String
use things_team.Base.{ℕ, String, str_eq, if◌then◌else◌, Option, none, some}
use things_team.Json.{Json, text, num, arr, obj, Items, nil, Fields, end, field}
use things_team.Json.Access.{Texts, find_field, dict}
use things_team.Exec.{Exec, Outcome, pure, raise, on_option, branch, ◌>>=◌}
use things_team.Hub.Rows.{has_text}
use things_team.Spoke.World.{Op}
use things_team.Spoke.Call.{call}
use things_team.Spoke.Queue.{Request, rstrip_slash}

-- What the server says to one request: JSON, an error status with its text, or a redirect
pub data Answer : Type 0 where
  answered : Json → Answer
  refused : ℕ → String → Answer
  redirected : ℕ → String → Answer

-- The provider of the token, and one request over the network, which raises if no answer comes
pub record Network {ℓ} (W : Type ℓ) : Type ℓ where
  pub token : Op W String
  pub send : Request → Op W Answer

-- `poll_wait` and numbers as they are written in a URL, and the text of `HubHTTPError`
pub record HttpHubClient : Type 0 where
  pub hub_url : String
  pub poll_wait : String
  pub show : ℕ → String
  pub error_text : ℕ → String → String

unfoldable pub http_hub_client : HttpHubClient → HttpHubClient
http_hub_client h = record h { hub_url = rstrip_slash h.hub_url }

module _ {ℓ} {W : Type ℓ} (network : Network W) (texts : Texts) (h : HttpHubClient) where
  -- The opener with `_NoRedirect`: a redirect is an error like the others, and no request follows it.
  unfoldable pub answer_of : Answer → Exec W Json
  answer_of (answered v) = pure v
  answer_of (refused code body) = raise (h.error_text code body)
  answer_of (redirected code body) = raise (h.error_text code body)

  abbrev pub hub_request : String → String → Option Json → String → Request
  hub_request method path body token = record {
    method = method;
    url = String.◌++◌ h.hub_url path;
    authorization = String.◌++◌ "Bearer " token;
    content_type = elim body [ none ↦ none | some v ↦ some "application/json" ];
    body = body;
  }

  -- `_request`; the timeout is the network's.
  unfoldable pub ask_hub : String → String → Option Json → Exec W Json
  ask_hub method path body = do
    token ← call network.token
    answer ← call (network.send (hub_request method path body token))
    answer_of answer

  -- `resp.get(key, [])`
  unfoldable pub list_of : String → Json → Exec W Json
  list_of key resp =
      dict texts texts.no_get resp >>= λ fs. on_option (find_field key fs) (pure (arr nil)) pure

  abbrev pub push_body : String → String → Json → ℕ → Json
  push_body to src_uuid payload rev = obj (
      field "to" (text to)
        (field "src_uuid" (text src_uuid) (field "payload" payload (field "rev" (num rev) end))))

  unfoldable pub http_push : String → String → Json → ℕ → Exec W Json
  http_push to src_uuid payload rev =
      ask_hub "POST" "/v1/transfers" (some (push_body to src_uuid payload rev))

  unfoldable pub http_deliveries : ℕ → Exec W Json
  http_deliveries limit =
      ask_hub "GET"
        (String.◌++◌ "/v1/deliveries?limit="
          (String.◌++◌ (h.show limit) (String.◌++◌ "&wait=" h.poll_wait)))
        none
      >>= list_of "deliveries"

  abbrev pub ack_body : Option String → Json
  ack_body none = obj end
  ack_body (some u) = if str_eq u "" then obj end else obj (field "dst_uuid" (text u) end)

  unfoldable pub http_ack : String → Option String → Exec W Json
  http_ack delivery_id dst_uuid =
      ask_hub "POST" (String.◌++◌ "/v1/deliveries/" (String.◌++◌ delivery_id "/ack"))
        (some (ack_body dst_uuid))

  unfoldable pub http_nack : String → String → Exec W Json
  http_nack delivery_id error =
      ask_hub "POST" (String.◌++◌ "/v1/deliveries/" (String.◌++◌ delivery_id "/nack"))
        (some (obj (field "error" (text error) end)))

  unfoldable pub http_watch : Exec W Json
  http_watch = ask_hub "GET" "/v1/watch" none >>= list_of "watch"

  unfoldable pub http_observe : String → String → Exec W Json
  http_observe transfer_id state =
      ask_hub "POST" "/v1/observations"
        (some (obj (field "transfer_id" (text transfer_id) (field "state" (text state) end))))

  unfoldable pub http_health : Exec W Json
  http_health = ask_hub "GET" "/v1/health" none
