-- ===== src/Spoke/Fake.antt =====
-- A world for the tests: the hub's ledger behind a direct client, and a Things database with a clock that
-- moves only when the spoke sleeps.
use Prim.Native.String
use things_team.Base.{
  ◌+◌, String, Bool, true, false, not, ◌&&◌, Option, none, some, List, ◌∷◌, [], ◌++◌, str_eq,
  if◌then◌else◌,
}
use things_team.Base.Table.{find, any, update}
use things_team.Json.{Json}
use things_team.Exec.{Reply, returned, failed}
use things_team.Hub.Schema.{
  RowId, Time, Terminal, completed, canceled, Ledger, Principal, Draws, Result, ok, err, after,
}
use things_team.Hub.Sample.{draws, same}
use things_team.Hub.Observe.{terminal_name}
use things_team.Hub.Push.{Receipt}
use things_team.Hub.Direct.{
  direct_client, direct_push, direct_deliveries, direct_ack, direct_nack, direct_watch,
  direct_observe,
}
use things_team.Spoke.World.{
  TaskStatus, open_task, completed_task, canceled_task, World, Reader, Writer, HubClient,
}
use things_team.Spoke.Inbound.{Settings, title_of}

pub record Task : Type 0 where
  pub uuid : String
  pub title : String
  pub tags : List String
  pub status : TaskStatus

pub record Fake : Type 0 where
  pub time : Time
  pub serial : RowId
  pub ledger : Ledger
  pub tasks : List Task
  pub fired : List RowId

abbrev pub task_status : Terminal → TaskStatus
task_status completed = completed_task
task_status canceled = canceled_task

abbrev pub answer {ℓ} : {A : Type ℓ} → Result A → Reply A
answer (ok a l) = returned a
answer (err e) = failed "refused"

abbrev pub answer_unit {ℓ} : {A : Type ℓ} → Result A → Reply (Unit {0})
answer_unit (ok a l) = returned tt
answer_unit (err e) = failed "refused"

abbrev pub pushed_id : Result Receipt → Option RowId
pushed_id (ok r l) = some r.id
pushed_id (err e) = none

-- The ledger after a call, and fresh ids for the next.
abbrev pub moved {ℓ} : {A : Type ℓ} → Fake → Result A → Fake
moved w r = record w { serial = w.serial + 2; ledger = after w.ledger r }

abbrev pub drawn : Fake → Draws
drawn w = draws w.time w.serial (w.serial + 1)

abbrev pub client_of : Principal → HubClient Fake
client_of p = record {
  push_transfer = λ to u j rev w.
      let r = direct_push (direct_client p) same (drawn w) to u j rev w.ledger in
      (pushed_id r, moved w r);
  deliveries =
      λ n w. let r = direct_deliveries (direct_client p) w.time n w.ledger in (answer r, moved w r);
  ack = λ i o w.
      let r = direct_ack (direct_client p) (drawn w) i o w.ledger in (answer_unit r, moved w r);
  nack = λ i e w.
      let r = direct_nack (direct_client p) (drawn w) i e w.ledger in (answer_unit r, moved w r);
  watch = λ w. (returned (direct_watch (direct_client p) w.ledger), w);
  observe = λ i x w.
      let r = direct_observe (direct_client p) (drawn w) i (terminal_name x) w.ledger in
      (answer_unit r, moved w r);
}

abbrev pub has_uuid : String → Task → Bool
has_uuid u t = str_eq t.uuid u

abbrev pub reader_of : Reader Fake
reader_of = record {
  refresh = λ w. (returned tt, w);
  outbound_candidates = λ ts w. (returned [], w);
  status = λ u w. (
    returned (elim (find (has_uuid u) w.tasks) [
      | none ↦ none
      | some t ↦ some (record { status = t.status; trashed = false })
    ]),
    w,
  );
  correlate = λ title start tag us w. (
    returned
        (elim (find
          (λ (t : Task).
            str_eq t.title title && any (str_eq tag) t.tags && not (any (str_eq t.uuid) us))
          w.tasks) [ none ↦ none | some t ↦ some t.uuid ]),
    w,
  );
  tags_of = λ u w.
      (returned (elim (find (has_uuid u) w.tasks) [ none ↦ none | some t ↦ some t.tags ]), w);
}

abbrev pub title_or_empty : Option String → String
title_or_empty none = ""
title_or_empty (some t) = t

abbrev pub new_task : Json → String → Task
new_task j tag = record {
  uuid = String.◌++◌ "new-" (title_or_empty (title_of j));
  title = title_or_empty (title_of j);
  tags = tag ∷ [];
  status = open_task;
}

-- A writer whose `create` fails, unless it `works`, and whose retag is not verified in time, unless it `verifies`.
abbrev pub writer_of : Bool → Bool → Writer Fake
writer_of works verifies = record {
  create = λ j tag i w. (
    if works then returned tt else failed "applier failed op",
    record w {
      fired = w.fired ++ i ∷ [];
      tasks = if works then w.tasks ++ new_task j tag ∷ [] else w.tasks;
    },
  );
  set_terminal = λ u x w. (
    returned true,
    record w { tasks = update (has_uuid u) (λ t. record t { status = task_status x }) w.tasks },
  );
  set_tags_and_terminal = λ u gs x w. (
    returned verifies,
    record w {
      tasks = update (has_uuid u) (λ t. record t { tags = gs; status = task_status x }) w.tasks;
    },
  );
}

abbrev pub fake_world : Principal → Bool → Bool → World Fake
fake_world p works verifies = record {
  reader = reader_of;
  writer = writer_of works verifies;
  hub = client_of p;
  clock = record { now = λ w. (w.time, w); sleep = λ t w. record w { time = w.time + t } };
}

abbrev pub settings : Settings
settings = record {
  correlate_timeout = 2;
  correlate_interval = 1;
  skew = 120;
  timeout_text = λ t. "correlation timeout";
  unverified_text = λ u. "terminal apply not verified";
}
