-- ===== src/Hub/Api/Tests.antt =====
-- Runs of hub/api.py on a household of an admin and a member.
use things_team.Base.{ℕ, refl, String, true, none, some, ◌∷◌, [], ◌≡◌, ◌+◌, ◌≤◌, List}
use things_team.Base.Table.{find, any, order_by, join, select}
use things_team.Json.{text, obj, end, field}
use things_team.Hub.Schema.{Time, Ledger, Principal}
use things_team.Hub.Accounts.{
  Caps, create_tenant, create_member, create_device, insert_member, insert_device,
}
use things_team.Hub.History.{tenant, member, device, perform, empty}
use things_team.Hub.Http.{
  Method, get, post, Request, Body, no_body, parsed, Moment, Wire, not_a_number, finished,
  ledger_of, on_ledger, ◌>>=◌,
}
use things_team.Hub.Api.{
  Answer, get_deliveries, poll, poll_loop, deliveries_json, at_most, is_empty, Turn, serve,
}
use things_team.Hub.Api.Posts.{Posted, post_settles}
use things_team.Hub.Api.LongPoll.{IsLeased, is_over, get_deliveries-Answers}
use things_team.Hub.Lease.{Entry, lease_deliveries, lease_loop, lease_rows}
use things_team.Hub.Replies.{items_of}
use things_team.Base.Table.Queries.{length}
use things_team.Hub.Sample.{draws, same}

abbrev wire : Wire
wire = record {
  row_of = λ s. 3;
  text_of = λ i. "3";
  int_of = λ v. not_a_number;
  int_text = λ s. some 10;
  wait_text = λ s. some 20;
  str = λ v. "";
  strip = same;
  normalize = same;
  hash = same;
  max_wait = 30;
  lease_seconds = 300;
}

-- A request at `now`.
abbrev moment : Time → Moment
moment now = record {
  login_at = now;
  draws = draws now 40 41;
  asked_at = now;
  tested_at = now;
  token = "new";
}

abbrev request : Method → String → Body → Request
request x path body = record {
  method = x;
  path = path;
  query = λ key. none;
  authorization = "Bearer key";
  body = body;
}

abbrev admin_caps : Caps
admin_caps = record { can_send = true; can_receive = true; can_admin = true }

abbrev tenanted : Ledger
tenanted = perform same same (tenant (draws 10 1 0) "home") empty

abbrev populated : Ledger
populated = perform same same (member (draws 11 2 0) 1 "ann" "ann" admin_caps) tenanted

-- The admin `ann` and her device with the token `key`
abbrev furnished : Ledger
furnished = perform same same (device (draws 12 20 0) "key" 2 "mac") populated

abbrev new_member : Request
new_member = request post "/v1/admin/members" (parsed (obj (field "handle" (text "bob") end)))

post_settles_example :
    let (reply, l') = serve wire (moment 20) new_member [] furnished in
    Posted wire (moment 20) new_member furnished reply l'
post_settles_example = post_settles wire (moment 20) new_member [] furnished refl

-- While the request waits, another member is made.
abbrev turn : Turn
turn = record {
  others = perform same same (member (draws 31 3 0) 1 "bob" "bob" admin_caps);
  leased_at = 32;
  tested_at = 50;
}

abbrev long_poll : Request
long_poll = request get "/v1/deliveries" no_body

abbrev admin : Principal
admin = record {
  tenant_id = 1;
  member_id = 2;
  device_id = 20;
  handle = "ann";
  can_send = true;
  can_receive = true;
  can_admin = true;
}

abbrev nothing : Answer
nothing = (200, deliveries_json wire [])

-- Nothing comes in the 20 seconds that the request waits.
abbrev waited : Ledger
waited = ledger_of (get_deliveries wire (moment 30) long_poll admin (turn ∷ []) furnished)

waits :
    get_deliveries wire (moment 30) long_poll admin (turn ∷ []) furnished ≡ finished nothing waited
unfolding get_deliveries poll poll_loop on_ledger ◌>>=◌ perform create_device find any create_member
    create_tenant insert_member insert_device lease_deliveries lease_loop lease_rows order_by join
    items_of select
waits = refl

get_deliveries-Answers_example :
    (es : List Entry) × (wait : Time) × (nothing ≡ (200, deliveries_json wire es))
    × (some 20 ≡ some wait)
    × (limit : ℕ) × IsLeased admin limit 300 es waited
    × (limit ≤ 50)
    × (length es ≤ 50)
    × (is_empty es ≡ true → is_over (30 + at_most 30 wait) 30 (turn ∷ []) ≡ true)
get_deliveries-Answers_example =
    get_deliveries-Answers wire (moment 30) long_poll admin (turn ∷ []) furnished waited nothing
      waits
