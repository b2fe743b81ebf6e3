-- ===== src/Spoke/HubHttp/Tests.antt =====
-- A run of the client of spoke/hub_http.py.
use Prim.Native.String
use things_team.Base.{◌≡◌, refl, some, String, List, [], ◌∷◌}
use things_team.Base.Table.{find, update}
use things_team.Hub.Schema.{Ledger, ok, after}
use things_team.Hub.Accounts.{new_device, authenticate}
use things_team.Hub.Direct.{direct_client, direct_push, direct_observe}
use things_team.Hub.Http.{Wire, Moment, natural}
use things_team.Hub.Sample.{draws, same, ann, milk, house, pushed}
use things_team.Spoke.HubHttp.Served.{hub_network, received, push_served, observe_served}
use things_team.Hub.Replies.{receipt_json, observation_json}
use things_team.Json.Access.{Texts}
use things_team.Exec.{returned}
use things_team.Spoke.HubHttp.{http_push, http_observe, redirected, Network, HttpHubClient}
use things_team.Spoke.HubHttp.Pinned.{called, observing, Pinned, requests_pinned}

abbrev texts : Texts
texts = record {
  key_error = λ k. k;
  no_key = λ k v. k;
  no_get = λ v. "no get";
  no_first = λ v. "no first";
  no_items = λ v. "no items";
  str = λ v. "7";
}

-- A network that notes the URLs and answers with a redirect to another host
abbrev elsewhere : Network (List String)
elsewhere = record {
  token = λ w. (returned "key", w);
  send = λ r w. (returned (redirected 302 "http://other/"), r.url ∷ w);
}

abbrev client : HttpHubClient
client = record {
  hub_url = "http://hub";
  poll_wait = "0.0";
  show = λ n. "10";
  error_text = λ code body. "hub returned an error";
}

abbrev AtHub : List String → Type 0
AtHub [] = Unit
AtHub (u ∷ us) = ((path : String) × (u ≡ String.◌++◌ "http://hub" path)) × AtHub us

at_hub : Pinned elsewhere "http://hub" AtHub
at_hub = record { token_keeps = λ w h. h; send_keeps = λ r path e w h. ((path, e), h) }

requests_pinned_example : AtHub (called elsewhere texts client (observing "7" "completed") []).1
requests_pinned_example = requests_pinned texts client at_hub (observing "7" "completed") [] tt

abbrev wire : Wire
wire = record {
  row_of = λ s. 4;
  text_of = λ i. "3";
  int_of = λ v. natural 1;
  int_text = λ s. some 10;
  wait_text = λ s. some 20;
  str = λ v. "";
  strip = same;
  normalize = same;
  hash = same;
  max_wait = 30;
  lease_seconds = 300;
}

abbrev moment : Moment
moment = record {
  login_at = 20;
  draws = draws 20 4 5;
  asked_at = 20;
  tested_at = 20;
  token = "new";
}

-- The house, with a device of ann's
abbrev furnished : Ledger
furnished = record house { devices = new_device (draws 13 20 0) 2 "mac" (some "key") ∷ [] }

abbrev logged_in : Ledger
logged_in = after furnished (authenticate same 20 "key" furnished)

logs_in : authenticate same 20 "key" furnished ≡ ok ann logged_in
unfolding authenticate find update
logs_in = refl

-- Ann has pushed `T1` before, and cancels it now.
abbrev sent_before : Ledger
sent_before = record pushed { devices = furnished.devices }

abbrev logged_in_later : Ledger
logged_in_later = after sent_before (authenticate same 20 "key" sent_before)

logs_in_later : authenticate same 20 "key" sent_before ≡ ok ann logged_in_later
unfolding authenticate find update
logs_in_later = refl

observe_served_example :
    http_observe
      (hub_network wire moment (λ u. "/v1/observations") (λ code. "") "key")
      texts
      client
      "4"
      "canceled"
      sent_before
    ≡ received wire moment
        (λ u. "/v1/observations")
        (λ code. "")
        "key"
        client
        observation_json
        (direct_observe (direct_client ann) (draws 20 4 5) 4 "canceled" logged_in_later)
        logged_in_later
observe_served_example =
    observe_served wire moment (λ u. "/v1/observations") (λ code. "") "key" client texts "4"
      "canceled" ann sent_before logged_in_later refl logs_in_later

push_served_example :
    http_push
      (hub_network wire moment (λ u. "/v1/transfers") (λ code. "") "key")
      texts
      client
      "bob"
      "T1"
      milk
      1
      furnished
    ≡ received wire moment
        (λ u. "/v1/transfers")
        (λ code. "")
        "key"
        client
        (receipt_json wire)
        (direct_push (direct_client ann) same (draws 20 4 5) "bob" "T1" milk 1 logged_in)
        logged_in
push_served_example =
    push_served wire moment (λ u. "/v1/transfers") (λ code. "") "key" client texts "bob" "T1" milk 1
      ann furnished logged_in refl refl logs_in
