-- ===== src/Hub/Tests.antt =====
-- Runs of hub/ledger.py on the sample household.
use things_team.Base.{◌≡◌, refl, ◌≤◌, true, false, some, [], arith, ◌==◌}
use things_team.Base.Table.{find, any, update, count, delete, select, join, order_by, insert_by}
use things_team.Base.Table.Laws.{All}
use things_team.Base.Table.Queries.{length}
use things_team.Json.{get, get_field}
use things_team.Hub.Schema.{
  canceled, RowId, Member, Transfer, Delivery, Ledger, Principal, ok, after,
}
use things_team.Hub.Rows.{
  find_transfer, find_member, event, signal_delivery, signal_if, queue_row, queue_delivery,
}
use things_team.Hub.Accounts.{create_tenant, create_member, insert_member}
use things_team.Hub.Push.{
  transfer_dict, new_transfer, member_by_handle, rejects_transfer, insert_push, push_to,
  push_transfer,
}
use things_team.Hub.Push.Replay.{push_replay}
use things_team.Hub.Lease.Grants.{entries, lease_deliveries-limit}
use things_team.Hub.Lease.Exclusion.{lease_exclusive}
use things_team.Hub.Lease.Order.{IsOrdered, lease-IsOrdered}
use things_team.Hub.Lease.Complete.{lease_complete, no_loss}
use things_team.Hub.History.Evolution.{Evolves}
use things_team.Hub.History.Transfers.{transfer-Evolves}
use things_team.Hub.Push.Effect.{is_queued_create, push_effect}
use things_team.Hub.Lease.{
  lease_deliveries, has_live_lease, lease_loop, lease_rows, lease_row, offer,
}
use things_team.Hub.Ack.{
  already_done, acked, ack_delivery, ack_found, ack_kind, ack_create, set_applied, finish_delivery,
  waiting_echo, queue_waiting_echo, resolve_transfer,
}
use things_team.Hub.Ack.Replay.{ack_replay}
use things_team.Hub.Observe.{
  Observation, observe, observe_set, observe_first, upgrade, queue_echo, echo_to, echo_by_create,
  insert_echo, skip_create, skip_delivery, set_terminal, withdraw_cancel, health,
}
use things_team.Hub.Observe.Reply.{HasTerminal, observe_decides}
use things_team.Hub.History.Wakeups.{perform_signals}
use things_team.Hub.Invariant.{IsValid}
use things_team.Hub.History.{Call, perform, Reach, start, next}
use things_team.Hub.History.Reachable.{reachable-IsValid}
use things_team.Hub.Sample.{
  draws, all_caps, same, person, speaker, ann, bob, milk, house, asked, pushed,
}

pushes :
    push_transfer same (draws 20 4 5) ann "bob" "T1" milk 1 house
    ≡ ok (transfer_dict asked false) pushed
unfolding push_transfer push_to insert_push member_by_handle rejects_transfer queue_delivery
    queue_row event signal_delivery find any get get_field
pushes = refl

house-Reach : Reach same same house
unfolding perform create_tenant create_member insert_member any
house-Reach =
    next
      (next (next start (Call.tenant (draws 10 1 0) "home") tt)
        (Call.member (draws 11 2 0) 1 "ann" "ann" all_caps) tt)
      (Call.member (draws 12 3 0) 1 "bob" "bob" all_caps) tt

pushed-Reach : Reach same same pushed
unfolding perform push_transfer push_to insert_push member_by_handle rejects_transfer queue_delivery
    queue_row event signal_delivery find any get get_field
pushed-Reach = next house-Reach (Call.push (draws 20 4 5) ann "bob" "T1" milk 1) refl

-- After bob has acked the delivery of it.
abbrev served : Ledger
served = after pushed (ack_delivery (draws 30 6 7) bob 5 (some "B1") pushed)

acks : ack_delivery (draws 30 6 7) bob 5 (some "B1") pushed ≡ ok acked served
unfolding ack_delivery ack_found ack_kind ack_create set_applied finish_delivery waiting_echo
    queue_waiting_echo event signal_if find update
acks = refl

-- Any reader of the queue of a member of the house.
abbrev reader : RowId → Principal
reader m = speaker m 30 "phone"

pushed-IsValid : IsValid pushed
pushed-IsValid = reachable-IsValid same same pushed-Reach

pushed-idle : All (λ d. has_live_lease 25 d ≡ false) pushed.deliveries
pushed-idle = ground arith

asked_found : find_transfer 4 pushed ≡ some asked
unfolding find
asked_found = refl

ann_found : find_member 2 pushed ≡ some (person 2 "ann" 11)
unfolding find
ann_found = refl

reachable-IsValid_example : IsValid pushed
reachable-IsValid_example = reachable-IsValid same same pushed-Reach

no_loss_example :
    (d : Delivery) × (d.transfer_id ≡ 4)
    × (any (λ e. e.id == d.id) (entries (lease_deliveries 25 (reader d.to_member) 10 300 pushed))
        ≡ true)
no_loss_example =
    no_loss same same 25 reader 10 300 4 pushed-Reach asked_found refl ann_found (λ m. (refl, refl))
      (omega arith) pushed-idle

transfer-Evolves_example :
    (t : Transfer) × (find_transfer 4
        (perform same same (Call.observation (draws 30 6 7) ann 4 "canceled") pushed)
      ≡ some t)
    × Evolves asked t
transfer-Evolves_example =
    transfer-Evolves same same pushed-Reach (Call.observation (draws 30 6 7) ann 4 "canceled") 4
      asked_found

lease_exclusive_example :
    let first = lease_deliveries 25 bob 10 300 pushed in
    let second = lease_deliveries 325 bob 10 300 (after pushed first) in
    All (λ e. All (λ e'. (e'.id == e.id) ≡ false) (entries second)) (entries first)
lease_exclusive_example =
    lease_exclusive 25 325 bob bob 10 10 300 300 pushed pushed-IsValid (omega arith)

lease-IsOrdered_example : All (IsOrdered 3 pushed) (entries (lease_deliveries 25 bob 10 300 pushed))
lease-IsOrdered_example = lease-IsOrdered 25 bob 10 300 pushed pushed-IsValid

lease_complete_example :
    any (λ e. e.id == 5) (entries (lease_deliveries 25 bob 10 300 pushed)) ≡ true
unfolding find
lease_complete_example =
    lease_complete 25 bob 10 300 pushed (λ d. d.id == 5) pushed-IsValid refl (omega arith) refl refl
      asked_found ann_found refl refl

lease_deliveries-limit_example : length (entries (lease_deliveries 25 bob 1 300 pushed)) ≤ 1
lease_deliveries-limit_example = lease_deliveries-limit 25 bob 1 300 pushed

push_replay_example :
    push_transfer same (draws 40 6 7) ann "bob" "T1" milk 1 pushed
    ≡ ok (record (transfer_dict asked false) { deduped = true }) pushed
push_replay_example =
    push_replay same (draws 20 4 5) (draws 40 6 7) ann "bob" "T1" milk 1 house pushed
      (transfer_dict asked false) pushes

push_effect_example :
    (to : Member) × (member_by_handle same 1 "bob" house ≡ some to)
    × (find_transfer 4 pushed ≡ some (new_transfer (draws 20 4 5) ann to.id "T1" 1 milk))
    × (any (is_queued_create 4 to.id) pushed.deliveries ≡ true)
    × (pushed.delivery_gen ≡ 1)
unfolding any
push_effect_example =
    push_effect (draws 20 4 5) ann house (reachable-IsValid same same house-Reach) refl "bob" "T1"
      milk 1 same pushes refl

ack_replay_example : ack_delivery (draws 50 8 9) bob 5 (some "B2") served ≡ ok already_done served
ack_replay_example =
    ack_replay (draws 30 6 7) (draws 50 8 9) bob bob 5 (some "B1") (some "B2") pushed acks refl

observe_decides_example :
    (o : Observation) × (l' : Ledger) × (observe (draws 30 6 7) ann 4 "canceled" pushed ≡ ok o l')
    × (o.terminal ≡ canceled)
    × HasTerminal 4 o.terminal l'.transfers
unfolding find
observe_decides_example =
    observe_decides (draws 30 6 7) ann 4 "canceled" pushed pushed-IsValid refl refl

abbrev push_milk : Call
push_milk = Call.push (draws 20 4 5) ann "bob" "T1" milk 1

perform_signals_example : (perform same same push_milk house).delivery_gen ≡ 1
unfolding any perform push_transfer push_to insert_push member_by_handle rejects_transfer
    queue_delivery queue_row event signal_delivery find get get_field
perform_signals_example = perform_signals same same push_milk house 5 refl refl

-- Ann cancels before bob's spoke has polled, and so the create delivery is skipped; then she completes
-- her own copy.
abbrev revoked_early : Ledger
revoked_early = after pushed (observe (draws 30 6 7) ann 4 "canceled" pushed)

abbrev completed_late : Ledger
completed_late = after revoked_early (observe (draws 40 8 9) ann 4 "completed" revoked_early)

-- The echo to bob stays pending, but is not handed out to him, who has no copy.
upgrade_after_skip :
    (health revoked_early ≡ record { pending_deliveries = 0; open_transfers = 0 })
    × (health completed_late ≡ record { pending_deliveries = 1; open_transfers = 0 })
    × (entries (lease_deliveries 50 bob 10 300 completed_late) ≡ [])
unfolding health observe observe_set observe_first upgrade queue_echo echo_to echo_by_create
    insert_echo skip_create skip_delivery set_terminal withdraw_cancel resolve_transfer
    queue_delivery queue_row event signal_if find any update delete count lease_deliveries
    lease_loop lease_rows lease_row offer select join order_by insert_by
upgrade_after_skip = (refl, refl, refl)
