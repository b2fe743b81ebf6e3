-- ===== src/Spoke/Runs.antt =====
-- Runs of the ticks of spoke/core.py against the ledger of hub/ledger.py.
use things_team.Base.{
  ◌≡◌, refl, ◌+◌, ◌≤◌, Bool, true, false, some, List, ◌∷◌, [], ◌++◌, arith, ◌==◌, if◌then◌else◌,
}
use things_team.Base.Table.{find, any, update, count, select, delete, join, order_by, insert_by}
use things_team.Exec.Ends.{is_unfinished}
use things_team.Exec.{finished, pure, raise, attempt, branch, on_option, ◌>>=◌, ◌>>◌}
use things_team.Hub.Schema.{RowId, completed, Principal, Transfer, Delivery}
use things_team.Hub.Sample.{ann, bob, same, pushed}
use mathlib.Core.List.{map}
use things_team.Hub.Direct.{
  direct_deliveries, direct_ack, direct_nack, direct_watch, direct_observe,
}
use things_team.Hub.Lease.{
  lease_deliveries, lease_loop, lease_rows, lease_row, offer, mark_leased, provenance_tag,
}
use things_team.Hub.Ack.{
  ack_delivery, ack_found, ack_kind, ack_create, set_applied, finish_delivery, queue_waiting_echo,
  waiting_echo, nack_delivery, requeue_delivery, clip,
}
use things_team.Hub.Rows.{event, signal_if, queue_delivery, queue_row}
use things_team.Hub.Observe.{
  health, watchlist, watch_entry, observe, observe_set, observe_first, set_terminal, queue_echo,
  echo_to, echo_by_create, insert_echo,
}
use things_team.Spoke.Outbound.{all_triggers}
use things_team.Spoke.State.{
  is_retagged, last_observed, mark_observed, mark_retagged, journal_intent, journal_close,
  journaled_dst_uuids, replace, SpokeState, journal_open,
}
use things_team.Spoke.Main.{Cadence}
use things_team.Spoke.Tick.{
  tick_local, outbound_phase, outbound_asked, tick_inbound, Phase, whole, local_only, inbound_only,
  phase, run_phases,
}
use things_team.Spoke.Watch.{
  observe_and_retag, watch_all, watch_one, react, report, retag_if_applied, retag_sender_copy,
  retagged_tags,
}
use things_team.Spoke.World.{ask, time_of, pause, recall, note, Spoke, open_task, completed_task}
use things_team.Spoke.Inbound.{
  apply_all, apply_one, apply_kind, apply_create, apply_payload, begin, fire, titled, title_of,
  title_field, settle, correlate, correlate_loop, correlate_round, resume, inbound,
}
use things_team.Spoke.Inbound.Fired.{Tally, FiredOnce}
use things_team.Spoke.Inbound.Ends.{Passes}
use things_team.Spoke.Tick.Once.{fires_once}
use things_team.Spoke.Tick.Ends.{inbound_finishes, tick_ends}
use things_team.Spoke.Fake.{Fake, Task, fake_world, settings}

abbrev empty_memory : SpokeState
empty_memory = record { sent_cache = []; journal = []; retagged = []; observed = [] }

-- Bob's spoke, with the push of ann in the ledger.
abbrev bobs : Spoke Fake
bobs = record {
  memory = empty_memory;
  world = record { time = 30; serial = 100; ledger = pushed; tasks = []; fired = [] };
}

count-append :
    (k i : RowId) (is : List RowId)
    → count (λ j. j == k) (is ++ i ∷ []) ≡ count (λ j. j == k) is + (if i == k then 1 else 0)
unfolding count
count-append k i [] = ground arith
count-append k i (j ∷ is) = ground (arith, count-append k i is)

abbrev tally : (p : Principal) (works verifies : Bool) → Tally (fake_world p works verifies)
tally p works verifies = record {
  fired = λ w k. count (λ i. i == k) w.fired;
  create_counts = λ j tag i w k. count-append k i w.fired;
  refresh_quiet = λ w k. refl;
  candidates_quiet = λ ts w k. refl;
  status_quiet = λ u w k. refl;
  correlate_quiet = λ t s g us w k. refl;
  tags_quiet = λ u w k. refl;
  terminal_quiet = λ u x w k. refl;
  retag_quiet = λ u gs x w k. refl;
  push_quiet = λ to u j rev w k. refl;
  deliveries_quiet = λ n w k. refl;
  ack_quiet = λ i o w k. refl;
  nack_quiet = λ i e w k. refl;
  watch_quiet = λ w k. refl;
  observe_quiet = λ i x w k. refl;
  now_quiet = λ w k. refl;
  sleep_quiet = λ t w k. refl;
}

abbrev passes : (p : Principal) (works verifies : Bool) → Passes (fake_world p works verifies)
passes p works verifies = record {
  at = λ w. w.time;
  now_reads = λ w. omega arith;
  now_passes = λ w. omega arith;
  sleep_passes = λ t w. omega arith;
  refresh_passes = λ w. omega arith;
  correlate_passes = λ t s g us w. omega arith;
}

bobs-FiredOnce : FiredOnce (tally bob true true) bobs
unfolding FiredOnce journal_open count find
bobs-FiredOnce k = omega arith

fires_once_example :
    (tally bob true true).fired
      (run_phases
        (fake_world bob true true)
        settings
        same
        (λ ts. [])
        (λ w c. 0)
        []
        3
        (inbound_only ∷ whole ∷ inbound_only ∷ [])
        bobs).world
      5
    ≤ 1
fires_once_example =
    fires_once (tally bob true true) same [] settings (λ ts. []) (λ w c. 0) 3
      (inbound_only ∷ whole ∷ inbound_only ∷ []) bobs 5 bobs-FiredOnce

inbound_finishes_example : (inbound (fake_world bob false true) settings 3 bobs).0 ≡ finished tt
inbound_finishes_example =
    inbound_finishes (fake_world bob false true) settings (passes bob false true) 2 (omega arith)
      (omega arith) bobs

abbrev cadence : Cadence
cadence = record { tick_seconds = 5; poll_wait = 0 }

tick_ends_example :
    is_unfinished
      (phase (fake_world bob false true) settings same (λ ts. []) (λ w c. 0) [] 3 whole bobs).0
    ≡ false
tick_ends_example =
    tick_ends (fake_world bob false true) settings (passes bob false true) 2 (omega arith)
      (omega arith) same (λ ts. []) (λ w c. 0) [] whole bobs

-- The inbound phase of bob's spoke, with a writer that works or not.
runs : Bool → List Phase → Spoke Fake → Spoke Fake
runs works xs s =
    run_phases (fake_world bob works true) settings same (λ ts. []) (λ w c. 0) [] 3 xs s

-- A create is applied and acked, and the transfer knows the copy.
handed_over :
    let s = runs true (inbound_only ∷ []) bobs in
    (map (λ (t : Task). t.uuid) s.world.tasks ≡ "new-milk" ∷ [])
    × (map (λ (t : Transfer). t.dst_uuid) s.world.ledger.transfers ≡ some "new-milk" ∷ [])
    × (health s.world.ledger ≡ record { pending_deliveries = 0; open_transfers = 1 })
unfolding runs run_phases phase tick_inbound inbound apply_all apply_one apply_kind apply_create
    apply_payload begin fire titled title_of title_field settle correlate correlate_loop
    correlate_round resume journal_open journal_intent journal_close journaled_dst_uuids replace
    pure raise attempt branch on_option ◌>>=◌ ◌>>◌ ask time_of pause recall note direct_deliveries
    direct_ack direct_nack lease_deliveries lease_loop lease_rows lease_row offer mark_leased
    provenance_tag ack_delivery ack_found ack_kind ack_create set_applied finish_delivery
    queue_waiting_echo waiting_echo event signal_if nack_delivery requeue_delivery clip health find
    any select count update delete join order_by insert_by
handed_over = (refl, refl, refl)

-- Where the first write fails, the create is never fired again, though the writer works by then: its journal entry
-- is open, no copy is ever found, and the delivery goes back to the hub at each tick.
never_again :
    let s = runs true (inbound_only ∷ inbound_only ∷ []) (runs false (inbound_only ∷ []) bobs) in
    (s.world.fired ≡ 5 ∷ [])
    × (map (λ (t : Task). t.uuid) s.world.tasks ≡ [])
    × (map (λ (d : Delivery). d.last_error) s.world.ledger.deliveries
        ≡ some "correlation timeout" ∷ [])
    × (map (λ (d : Delivery). d.attempts) s.world.ledger.deliveries ≡ 3 ∷ [])
unfolding runs run_phases phase tick_inbound inbound apply_all apply_one apply_kind apply_create
    apply_payload begin fire titled title_of title_field settle correlate correlate_loop
    correlate_round resume journal_open journal_intent journal_close journaled_dst_uuids replace
    pure raise attempt branch on_option ◌>>=◌ ◌>>◌ ask time_of pause recall note direct_deliveries
    direct_ack direct_nack lease_deliveries lease_loop lease_rows lease_row offer mark_leased
    provenance_tag ack_delivery ack_found ack_kind ack_create set_applied finish_delivery
    queue_waiting_echo waiting_echo event signal_if nack_delivery requeue_delivery clip health find
    any select count update delete join order_by insert_by
never_again = (refl, refl, refl, refl)

-- Ann's spoke after bob's copy is there, her own todo still open.
handed : Fake
handed = (runs true (inbound_only ∷ []) bobs).world

anns : Spoke Fake
anns = record {
  memory = empty_memory;
  world = record handed {
    tasks = record { uuid = "T1"; title = "milk"; tags = []; status = open_task } ∷ handed.tasks;
  };
}

-- Where her retag is written but not verified in time, her spoke takes its own completion for hers at the next
-- tick and reports it, and so the hub has bob's copy, which is open, completed.
own_completion_reported :
    let s =
      run_phases
        (fake_world ann true false)
        settings
        same
        (λ ts. [])
        (λ w c. 0)
        []
        3
        (local_only ∷ local_only ∷ [])
        anns in
    (map (λ (t : Transfer). t.terminal) s.world.ledger.transfers ≡ some completed ∷ [])
    × (map (λ (t : Transfer). t.terminal_by) s.world.ledger.transfers ≡ some 2 ∷ [])
    × (map (λ (d : Delivery). d.to_member) s.world.ledger.deliveries ≡ 3 ∷ 3 ∷ [])
    × (health s.world.ledger ≡ record { pending_deliveries = 1; open_transfers = 1 })
    × (map (λ (t : Task). t.status) s.world.tasks ≡ completed_task ∷ open_task ∷ [])
unfolding runs run_phases phase tick_inbound inbound apply_all apply_one apply_kind apply_create
    apply_payload begin fire titled title_of title_field settle correlate correlate_loop
    correlate_round resume journal_open journal_intent journal_close journaled_dst_uuids replace
    pure raise attempt branch on_option ◌>>=◌ ◌>>◌ ask time_of pause recall note direct_deliveries
    direct_ack direct_nack lease_deliveries lease_loop lease_rows lease_row offer mark_leased
    provenance_tag ack_delivery ack_found ack_kind ack_create set_applied finish_delivery
    queue_waiting_echo waiting_echo event signal_if nack_delivery requeue_delivery clip health find
    any select count update delete join order_by insert_by handed anns tick_local outbound_phase
    outbound_asked all_triggers observe_and_retag watch_all watch_one react report retag_if_applied
    retag_sender_copy retagged_tags is_retagged last_observed mark_observed mark_retagged
    direct_watch direct_observe watchlist watch_entry observe observe_set observe_first set_terminal
    queue_echo echo_to echo_by_create insert_echo queue_delivery queue_row
own_completion_reported = (refl, refl, refl, refl, refl)
