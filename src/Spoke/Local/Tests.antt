-- ===== src/Spoke/Local/Tests.antt =====
-- Runs of the writer of spoke/writer_local.py.
use Prim.Native.String
use things_team.Base.{
  str_eq, ◌+◌, ◌≡◌, refl, String, Bool, true, false, Option, none, some, [], ◌∷◌, arith,
  if◌then◌else◌,
}
use things_team.Base.Table.{any}
use things_team.Json.Access.{Texts}
use things_team.Exec.{finished, returned, pure, raise, branch, on_option, attempt, ◌>>=◌, ◌>>◌}
use things_team.Exec.Ends.{is_unfinished}
use things_team.Exec.Until.{loop_until, round_until}
use things_team.Hub.Schema.{Time, completed}
use things_team.Spoke.World.{open_task, completed_task}
use things_team.Spoke.Call.{call, clock_time, clock_sleep}
use things_team.Spoke.Focus.{
  Mac, LocalSettings, LocalWriter, opened, inner, remember, good_front, stolen_at, split_quotes,
  read_front, frontmost_name, activate_app, time_now, residue, capture, restore, settle_test,
  settle_rest, settle_loop, settle_and_watch,
}
use things_team.Spoke.Local.{
  things_url, run_open, after_open, open_watched, open_json, verify_test, verify_rest, verify_loop,
  verify, check_state, check_tags, check_both, set_tags_and_terminal, set_terminal,
}
use things_team.Spoke.Local.Checked.{
  Showed, Both, set_terminal_verified, set_tags_and_terminal_verified,
}
use things_team.Spoke.Local.Front.{is_other, IsGood, Spares, things_never_activated}
use things_team.Spoke.Local.Passes.{Passes}
use things_team.Spoke.Local.Ends.{ending, written, local_writing_ends}

-- A Mac with one todo, which Things takes the focus to write and the mirror shows one tick later
pub record Desk : Type 0 where
  pub time : Time
  pub front : String
  pub written_at : Option Time
  pub activated : String

abbrev texts : Texts
texts = record {
  key_error = λ k. k;
  no_key = λ k v. k;
  no_get = λ v. "no get";
  no_first = λ v. "no first";
  no_items = λ v. "no items";
  str = λ v. "7";
}

abbrev is_written : Desk → Bool
is_written w = elim w.written_at [ none ↦ false | some t ↦ true ]

abbrev mac : Mac Desk
mac = record {
  front = λ w. (returned w.front, w);
  app_name = λ a w. (returned (String.◌++◌ "\"LSDisplayName\"=\"" (String.◌++◌ a "\"")), w);
  activate = λ a w. (returned tt, record w { front = a; activated = a });
  open_url = λ u w. (opened, record w { front = "Things"; written_at = some w.time });
  token = λ w. (returned "key", w);
  reader = record {
    refresh = λ w. (returned tt, w);
    outbound_candidates = λ ts w. (returned [], w);
    status = λ u w. (
      returned (
          some (record {
            status = if is_written w then completed_task else open_task;
            trashed = false;
          })),
      w,
    );
    correlate = λ a b c d w. (returned none, w);
    tags_of = λ u w. (returned (some ("b" ∷ "a" ∷ [])), w);
  };
  clock = record { now = λ w. (w.time, w); sleep = λ t w. record w { time = w.time + t } };
}

abbrev settings : LocalSettings
settings = record {
  settle_time = 3;
  sample_interval = 2;
  steal_recency = 60;
  verify_timeout = 4;
  verify_interval = 1;
  strip = λ s. s;
  dumps = λ v. "[]";
  quote = λ s. s;
  exit_text = λ n. "exit";
  timeout_text = "timeout";
}

abbrev start : LocalWriter Desk
start = record {
  last_good_front = none;
  last_steal = 0;
  world = record { time = 100; front = "Finder"; written_at = none; activated = "" };
}

-- The focus was given back, and the loops took their time.
abbrev end_state : LocalWriter Desk
end_state = record {
  last_good_front = some "Finder";
  last_steal = 100;
  world = record { time = 103; front = "Finder"; written_at = some 100; activated = "Finder" };
}

passes : Passes mac
passes = record {
  at = λ w. w.time;
  ticks = record {
    now_reads = λ w. omega arith;
    now_passes = λ w. omega arith;
    sleep_passes = λ t w. omega arith;
  };
  front_passes = λ w. omega arith;
  app_passes = λ a w. omega arith;
  activate_passes = λ a w. omega arith;
  refresh_passes = λ w. omega arith;
  status_passes = λ u w. omega arith;
  tags_passes = λ u w. omega arith;
}

local_writing_ends_example :
    is_unfinished (written mac texts settings 5 (ending "T1" completed) start).0 ≡ false
local_writing_ends_example =
    local_writing_ends mac passes texts settings 4 (omega arith) (omega arith) (omega arith)
      (omega arith) (ending "T1" completed) start

completed_run : set_terminal mac texts settings 5 "T1" completed start ≡ (finished true, end_state)
unfolding set_terminal open_json open_watched after_open run_open things_url capture frontmost_name
    read_front split_quotes activate_app time_now residue restore settle_test settle_rest
    settle_loop settle_and_watch verify verify_loop verify_test verify_rest check_state inner
    remember good_front stolen_at call clock_time clock_sleep pure raise branch on_option attempt
    ◌>>=◌ ◌>>◌ loop_until round_until
completed_run = refl

set_terminal_verified_example : Showed mac "T1" completed end_state
set_terminal_verified_example =
    set_terminal_verified mac texts settings 5 "T1" completed start end_state completed_run

both_run :
    set_tags_and_terminal mac texts settings 5 "T1" ("a" ∷ "b" ∷ []) completed start
    ≡ (finished true, end_state)
unfolding set_tags_and_terminal open_json open_watched after_open run_open things_url capture
    frontmost_name read_front split_quotes activate_app time_now residue restore settle_test
    settle_rest settle_loop settle_and_watch verify verify_loop verify_test verify_rest check_both
    check_state check_tags any inner remember good_front stolen_at call clock_time clock_sleep pure
    raise branch on_option attempt ◌>>=◌ ◌>>◌ loop_until round_until
both_run = refl

set_tags_and_terminal_verified_example :
    Both mac texts settings "T1" ("a" ∷ "b" ∷ []) completed end_state
set_tags_and_terminal_verified_example =
    set_tags_and_terminal_verified mac texts settings 5 "T1" ("a" ∷ "b" ∷ []) completed start
      end_state both_run

-- Things was not the last application that was activated.
abbrev Spared : Desk → Type 0
Spared w = str_eq w.activated "Things" ≡ false

activate_spares :
    (name : String)
    → is_other (some name) ≡ true
    → (w : Desk) → Spared w
    → str_eq name "Things" ≡ false
activate_spares name e w h = ground arith

spares : Spares mac Spared
spares = record {
  front_spares = λ w h. h;
  app_spares = λ a w h. h;
  activate_spares = activate_spares;
  open_spares = λ u w h. h;
  token_spares = λ w h. h;
  refresh_spares = λ w h. h;
  status_spares = λ u w h. h;
  tags_spares = λ u w h. h;
  now_spares = λ w h. h;
  sleep_spares = λ t w h. h;
}

things_never_activated_example :
    let s' = (written mac texts settings 5 (ending "T1" completed) start).1 in
    IsGood s' × (str_eq s'.world.activated "Things" ≡ false)
things_never_activated_example =
    things_never_activated spares texts settings 5 (ending "T1" completed) start tt refl
