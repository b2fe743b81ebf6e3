-- ===== src/Hub/Sample.antt =====
-- A household of two members, `ann` and `bob`, as the tests have it.
use things_team.Base.{String, true, false, some, ◌∷◌, []}
use things_team.Json.{Json, text, num, obj, end, field}
use things_team.Hub.Schema.{RowId, Time, create, Member, Transfer, Ledger, Principal, Draws}
use things_team.Hub.Rows.{new_delivery}
use things_team.Hub.Accounts.{Caps}
use things_team.Hub.Push.{new_transfer}

-- The draws of a call at `now`.
abbrev pub draws : Time → RowId → RowId → Draws
draws now row delivery = record {
  now = now;
  row = row;
  delivery = delivery;
  event = record { id = row; at = now };
  skip = record { id = row; at = now };
}

abbrev pub all_caps : Caps
all_caps = record { can_send = true; can_receive = true; can_admin = false }

-- `strip` and `lower` leave the handles of these runs as they are, and so a hash may be the identity.
abbrev pub same : String → String
same s = s

abbrev pub person : RowId → String → Time → Member
person i handle at = record {
  id = i;
  tenant_id = 1;
  handle = handle;
  display_name = handle;
  can_send = true;
  can_receive = true;
  can_admin = false;
  created_at = at;
}

abbrev pub speaker : RowId → RowId → String → Principal
speaker i device handle = record {
  tenant_id = 1;
  member_id = i;
  device_id = device;
  handle = handle;
  can_send = true;
  can_receive = true;
  can_admin = false;
}

abbrev pub ann : Principal
ann = speaker 2 20 "ann"

abbrev pub bob : Principal
bob = speaker 3 30 "bob"

abbrev pub milk : Json
milk = obj (field "title" (text "milk") end)

abbrev pub house : Ledger
house = record {
  tenants = record { id = 1; name = "home"; created_at = 10 } ∷ [];
  members = person 2 "ann" 11 ∷ person 3 "bob" 12 ∷ [];
  devices = [];
  transfers = [];
  deliveries = [];
  events = [];
  delivery_gen = 0;
}

abbrev pub asked : Transfer
asked = new_transfer (draws 20 4 5) ann 3 "T1" 1 milk

-- After ann has pushed `T1` to bob.
abbrev pub pushed : Ledger
pushed = record house {
  transfers = asked ∷ [];
  deliveries = new_delivery 5 4 create 3 20 ∷ [];
  events =
      record {
        id = 4;
        transfer_id = some 4;
        device_id = some 20;
        kind = "transfer-pushed";
        detail = some (
            obj (field "to" (text "bob") (field "src_uuid" (text "T1") (field "rev" (num 1) end))));
        created_at = 20;
      }
      ∷ [];
  delivery_gen = 1;
}
