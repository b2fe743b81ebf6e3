-- ===== src/Hub/History/Wakeups.antt =====
-- A new delivery is signalled: `observe` and its echoes, and all calls together.
use things_team.Base.{
  ◌≡◌, refl, ◌+◌, String, true, false, not, ◌&&◌, Option, none, some, arith, inl, inr, ◌==◌,
  Bool-cases, Option-cases,
}
use things_team.Base.Table.{find, any}
use things_team.Base.Table.Exists.{any-delete-false}
use things_team.Hub.Schema.{
  RowId, Terminal, completed, canceled, queued, leased, done, DeliveryState, Transfer, Ledger,
  Principal, Draws, after,
}
use things_team.Hub.Rows.{has_text, find_transfer, event, signal_if, queue_delivery}
use things_team.Hub.Ack.{resolve_transfer}
use things_team.Hub.Observe.{
  find_create, other_party, echo_detail, skipped, skip_delivery, skip_create, insert_echo,
  echo_by_create, echo_to, queue_echo, set_terminal, withdraw_cancel, is_open_cancel, observe_first,
  upgrade, observe_set, parse_terminal, is_observable, is_done_cancel, observe,
}
use things_team.Hub.History.{Call, push, lease, ack, nack, observation, perform}
use things_team.Hub.History.Reachable.{perform-SameTables}
use things_team.Hub.History.Signals.{
  has_id, Signals, same-Signals, update-Signals, lease-Signals, push-Signals, ack-Signals,
  nack-Signals,
}

-- An echo with the signal that it asks for.
module _ (k : RowId) (s : Draws) (i : RowId) (x : Terminal) (other : RowId) (l : Ledger) where
  insert_echo-Signals :
      Signals k l (signal_if (insert_echo s i x other l).0 (insert_echo s i x other l).1)
  unfolding Signals insert_echo signal_if queue_delivery
  insert_echo-Signals = inr refl

  echo_by_create-Signals :
      (c : RowId) (st : DeliveryState)
      → let (b, l') = echo_by_create s i x other c st l in Signals k l (signal_if b l')
  unfolding echo_by_create skip_create skip_delivery resolve_transfer event signal_if
  echo_by_create-Signals c queued =
      update-Signals k (λ d. d.id == c) (skipped s.now) l _ (λ d. refl) refl
  echo_by_create-Signals c leased = same-Signals k l _ refl
  echo_by_create-Signals c done = insert_echo-Signals

echo_to-Signals :
    (k : RowId) (s : Draws) (t : Transfer) (x : Terminal) (other : RowId) (l : Ledger)
    → let (b, l') = echo_to s t x other l in Signals k l (signal_if b l')
unfolding echo_to
echo_to-Signals k s t x other l =
    elim (Bool-cases (other == t.to_member && not (has_text t.dst_uuid))) [
      | inr copy ↦ rw copy (insert_echo-Signals k s t.id x other l)
      | inl no_copy ↦ elim (Option-cases (find_create t.id l)) [
        | inl missing ↦ rw (no_copy, missing) (insert_echo-Signals k s t.id x other l)
        | inr (c, found) ↦
            rw (no_copy, found) (echo_by_create-Signals k s t.id x other l c.id c.state)
      ]
    ]

queue_echo-Signals :
    (k : RowId) (s : Draws) (i : RowId) (x : Terminal) (l : Ledger)
    → let (b, l') = queue_echo s i x l in Signals k l (signal_if b l')
unfolding queue_echo signal_if
queue_echo-Signals k s i x l = elim (Option-cases (find_transfer i l)) [
  | inl missing ↦ rw (missing, queue_echo) (same-Signals k l l refl)
  | inr (t, found) ↦ rw (found, queue_echo) (echo_to-Signals k s t x (other_party t) l)
]

module _ (k : RowId) (s : Draws) (p : Principal) (i : RowId) (l : Ledger) where
  -- The deliveries that the upgrade withdraws are not new either.
  after_withdrawal :
      (l' : Ledger)
      → Signals k (withdraw_cancel i (set_terminal completed p.member_id i l)) l'
      → Signals k l l'
  unfolding Signals withdraw_cancel set_terminal
  after_withdrawal l' (inl none_new) =
      inl (λ e. none_new (any-delete-false (has_id k) (is_open_cancel i) l.deliveries e))
  after_withdrawal l' (inr woken_up) = inr woken_up

  observe_set-Signals :
      (o : Option Terminal) (x : Terminal) → Signals k l (after l (observe_set s p i o x l))
  unfolding Signals observe_set observe_first upgrade set_terminal event signal_if
  observe_set-Signals none x = queue_echo-Signals k s i x (
      event "terminal-set" (some i) (some p.device_id) (some (echo_detail x p.handle)) s.event
        (set_terminal x p.member_id i l))
  observe_set-Signals (some completed) x = same-Signals k l l refl
  observe_set-Signals (some canceled) canceled = same-Signals k l l refl
  observe_set-Signals (some canceled) completed =
      elim (Bool-cases (any (is_done_cancel i) l.deliveries)) [
        | inl late ↦ rw (late, after) (same-Signals k l l refl)
        | inr early ↦
            let l1 = withdraw_cancel i (set_terminal completed p.member_id i l) in
            let (b, l2) = queue_echo s i completed l1 in
            rw (early, after)
              (after_withdrawal (signal_if b l2) (queue_echo-Signals k s i completed l1))
      ]

  observe-Signals : (state : String) → Signals k l (after l (observe s p i state l))
  unfolding observe
  observe-Signals state = elim (Option-cases (parse_terminal state)) [
    | inl unknown ↦ rw (unknown, after) (same-Signals k l l refl)
    | inr (x, known) ↦ elim (Option-cases (find (is_observable p i) l.transfers)) [
      | inl absent ↦ rw (known, absent, after) (same-Signals k l l refl)
      | inr (t, h) ↦ rw (known, h, after) (observe_set-Signals t.terminal x)
    ]
  ]

perform-Signals :
    (normalize hash : String → String) (c : Call) (l : Ledger) (k : RowId)
    → Signals k l (perform normalize hash c l)
unfolding perform
perform-Signals normalize hash (push s p to_handle src_uuid payload rev) l k =
    push-Signals k s p l normalize to_handle src_uuid payload rev
perform-Signals normalize hash (lease now p limit seconds) l k =
    lease-Signals k now p limit seconds l
perform-Signals normalize hash (ack s p i dst) l k = ack-Signals k s p l i dst
perform-Signals normalize hash (nack s p i error) l k = nack-Signals k s p l i error
perform-Signals normalize hash (observation s p i state) l k = observe-Signals k s p i l state
perform-Signals normalize hash c l k =
    same-Signals k l _ (perform-SameTables normalize hash c l refl).1

-- Whatever the call, on whatever ledger, a delivery `k` that was not there before it is there after
-- it only if the call has moved the generation on by one, which `wait_for_delivery` waits for.
pub perform_signals :
    (normalize hash : String → String) (c : Call) (l : Ledger) (k : RowId)
    → any (λ d. d.id == k) l.deliveries ≡ false
    → any (λ d. d.id == k) (perform normalize hash c l).deliveries ≡ true
    → (perform normalize hash c l).delivery_gen ≡ l.delivery_gen + 1
unfolding Signals
perform_signals normalize hash c l k old new = elim (perform-Signals normalize hash c l k) [
  | inl none_new ↦ absurd (ground (arith, none_new old))
  | inr woken_up ↦ woken_up
]
