-- ===== src/Hub/Invariant/Ack.antt =====
-- `ack_delivery` and `nack_delivery` keep the invariant.
use things_team.Base.{◌≡◌, refl, String, Bool, true, false, Option, none, some, List, arith, ◌==◌}
use things_team.Base.Table.{find, any, update}
use things_team.Base.Table.Laws.{All, All-map, All-update, All-both, All-find, patch}
use things_team.Base.Table.Exists.{any-update_mono}
use things_team.Base.Table.Distinct.{Distinct, Distinct-update}
use things_team.Hub.Schema.{RowId, Time, Terminal, create, Transfer, Delivery, Draws}
use things_team.Hub.Rows.{new_delivery, echo_kind, eq_kind, is_done, has_text, collides}
use things_team.Hub.Ack.{finished, resolved, applied, requeued, waiting_echo}
use things_team.Hub.Push.{clashes}
use things_team.Hub.Observe.{is_create_of}
use things_team.Hub.Invariant.{transfer_in, fits, Fit, is_waiting, is_deliverable, Tables}
use things_team.Hub.Invariant.Frame.{
  Changes-update, Changes-refl, Elsewhere, FitAfter, Tables-step, transfer-id,
}
use things_team.Hub.Invariant.Deliveries.{
  only_row, Elsewhere-update, Elsewhere-queue, Elsewhere-trans, queue_row-All, queue_row-Distinct,
  queue_row-served, echo-FitAfter, echo_kind-ne-create, fresh-update, created-update, queue_row-any,
}

-- An echo is acked: its row is done, and its transfer resolved.
terminal_row :
    (i : RowId) (t : Transfer) (ts : List Transfer) (now : Time) (d e : Delivery)
    → d.transfer_id ≡ i
    → FitAfter i t ts e
    → (collides d e ≡ true → e ≡ d)
    → eq_kind d.kind create ≡ false
    → FitAfter i (resolved now t) ts (patch (λ (x : Delivery). x.id == d.id) (finished now) e)
unfolding FitAfter
terminal_row i t ts now d e di f only k = ground arith

-- A create is acked: its row is done, and its transfer has a copy.
create_row :
    (i : RowId) (t : Transfer) (ts : List Transfer) (now : Time) (dst : String) (d e : Delivery)
    → d.transfer_id ≡ i
    → d.to_member ≡ t.to_member
    → FitAfter i t ts e
    → (collides d e ≡ true → e ≡ d)
    → eq_kind d.kind create ≡ true
    → has_text (some dst) ≡ true
    → FitAfter i (applied now dst t) ts (patch (λ (x : Delivery). x.id == d.id) (finished now) e)
unfolding FitAfter
create_row i t ts now dst d e di to f only k text = ground arith

module _ (i : RowId) (t : Transfer) (ts : List Transfer) (ds : List Delivery) (v : Tables ts ds)
    (found : transfer_in i ts ≡ some t) where
  -- The deliveries fit before the change.
  pub FitAfter-refl : All (FitAfter i t ts) ds
  unfolding FitAfter
  FitAfter-refl =
      All-map (Fit ts) (FitAfter i t ts) ds
        (λ e f. rw (← Changes-refl i t ts found e.transfer_id) f) v.fit

  module _ (p : Delivery → Bool) {d : Delivery} (hd : find p ds ≡ some d)
      (di : d.transfer_id ≡ i) where
    rows : All (λ e. FitAfter i t ts e × (collides d e ≡ true → e ≡ d)) ds
    rows = All-both _ _ ds FitAfter-refl (only_row p ds v.distinct hd)

    pub FitAt-found : fits (some t) d ≡ true
    unfolding FitAfter
    FitAt-found = ground (arith, All-find (FitAfter i t ts) p ds FitAfter-refl hd)

    Elsewhere-finish :
        (now : Time) → Elsewhere i ds (update (λ (x : Delivery). x.id == d.id) (finished now) ds)
    Elsewhere-finish now =
        Elsewhere-update i (λ x. x.id == d.id) (finished now) ds (λ e. refl)
          (All-map _ _ ds (λ e r pe. ground (arith, r.1)) rows)

    created-finish :
        (now : Time)
        → any (is_create_of t.id) (update (λ (x : Delivery). x.id == d.id) (finished now) ds) ≡ true
    created-finish now = created-update t.id _ _ ds (λ e. refl) (v.serves i t found).created

    pub terminal-Tables :
        (now : Time)
        → eq_kind d.kind create ≡ false
        → Tables
            (update (λ (x : Transfer). x.id == i) (resolved now) ts)
            (update (λ (x : Delivery). x.id == d.id) (finished now) ds)
    terminal-Tables now k =
        Tables-step i (resolved now t) ts _ ds _ v
          (Changes-update i (resolved now) ts (λ x. refl) found)
          (Distinct-update clashes _ _ ts (λ x y. refl) (λ x y. refl) v.keys)
          (All-update _ _ (λ x. x.id == d.id) (finished now) ds
            (λ e r. terminal_row i t ts now d e di r.0 r.1 k) rows)
          (Distinct-update collides _ _ ds (λ x y. refl) (λ x y. refl) v.distinct)
          (record {
            sound = ground (arith, FitAt-found, (v.serves i t found).sound);
            created = created-finish now;
            served = λ w. ground arith;
          })
          (Elsewhere-finish now)

    -- A create is acked while its transfer has no terminal state, or one whose echo is queued now.
    applied_rows :
        (now : Time) (dst : String)
        → eq_kind d.kind create ≡ true
        → has_text (some dst) ≡ true
        → All
            (FitAfter i (applied now dst t) ts)
            (update (λ (x : Delivery). x.id == d.id) (finished now) ds)
    applied_rows now dst k text =
        All-update _ _ (λ x. x.id == d.id) (finished now) ds
          (λ e r. create_row i t ts now dst d e di (ground (arith, FitAt-found)) r.0 r.1 k text)
          rows

    applied-Tables :
        (now : Time) (dst : String) (ds' : List Delivery)
        → has_text (some dst) ≡ true
        → All (FitAfter i (applied now dst t) ts) ds'
        → Distinct collides ds'
        → Elsewhere i ds ds'
        → any (is_create_of t.id) ds' ≡ true
        → (is_waiting (applied now dst t) ≡ true
            → any (is_deliverable (applied now dst t)) ds' ≡ true)
        → Tables (update (λ (x : Transfer). x.id == i) (applied now dst) ts) ds'
    applied-Tables now dst ds' text fit distinct elsewhere created served =
        Tables-step i (applied now dst t) ts _ ds ds' v
          (Changes-update i (applied now dst) ts (λ x. refl) found)
          (Distinct-update clashes _ _ ts (λ x y. refl) (λ x y. refl) v.keys) fit distinct
          (record {
            sound = ground (arith, (v.serves i t found).sound);
            created = created;
            served = served;
          })
          elsewhere

    pub create-Tables :
        (s : Draws) (dst : String) (terminal : Option Terminal)
        → t.terminal ≡ terminal
        → eq_kind d.kind create ≡ true
        → has_text (some dst) ≡ true
        → any (λ e. e.id == s.delivery) ds ≡ false
        → Tables (update (λ (x : Transfer). x.id == i) (applied s.now dst) ts) (
            waiting_echo s d terminal (update (λ (x : Delivery). x.id == d.id) (finished s.now) ds))
    unfolding waiting_echo
    create-Tables s dst none e k text fresh =
        applied-Tables s.now dst _ text (applied_rows s.now dst k text)
          (Distinct-update collides _ _ ds (λ x y. refl) (λ x y. refl) v.distinct)
          (Elsewhere-finish s.now) (created-finish s.now) (λ w. ground arith)
    create-Tables s dst (some x) e k text fresh =
        let ds1 = update (λ (x : Delivery). x.id == d.id) (finished s.now) ds in
        let n = new_delivery s.delivery d.transfer_id (echo_kind x) d.to_member s.now in
        applied-Tables s.now dst _ text
          (queue_row-All _ n ds1
            (echo-FitAfter i (applied s.now dst t) ts s.delivery d.transfer_id d.to_member s.now x
              di e (ground (arith, FitAt-found)))
            (applied_rows s.now dst k text))
          (queue_row-Distinct n ds1
            (Distinct-update collides _ _ ds (λ x y. refl) (λ x y. refl) v.distinct))
          (Elsewhere-trans i ds ds1 _ (Elsewhere-finish s.now) (Elsewhere-queue i n ds1 di))
          (queue_row-any (is_create_of t.id) n ds1 (created-finish s.now))
          (λ w.
            queue_row-served i (applied s.now dst t) ts n ds1 (transfer-id i ts found) di
              (ground arith) (echo_kind-ne-create x) (ground (arith, transfer-id i ts found))
              (applied_rows s.now dst k text)
              (fresh-update s.delivery _ (finished s.now) ds (λ y. refl) fresh))

-- A delivery is sent back to the queue: nothing else about it changes, and it was not done.
requeued_row :
    (ts : List Transfer) (error : String) (d e : Delivery)
    → is_done d.state ≡ false
    → Fit ts e
    → (collides d e ≡ true → e ≡ d)
    → Fit ts (patch (λ (x : Delivery). x.id == d.id) (requeued error) e)
requeued_row ts error d e live f only = ground arith

requeued_served :
    (u : Transfer) (error : String) (d e : Delivery)
    → is_done d.state ≡ false
    → (collides d e ≡ true → e ≡ d)
    → is_deliverable u e ≡ true
    → is_deliverable u (patch (λ (x : Delivery). x.id == d.id) (requeued error) e) ≡ true
requeued_served u error d e live only h = ground arith

pub requeued-Tables :
    (ts : List Transfer) (ds : List Delivery) (p : Delivery → Bool) (error : String) {d : Delivery}
    → Tables ts ds
    → find p ds ≡ some d
    → is_done d.state ≡ false
    → Tables ts (update (λ (x : Delivery). x.id == d.id) (requeued error) ds)
requeued-Tables ts ds p error {d} v hd live =
    let only = only_row p ds v.distinct hd in
    record {
      keys = v.keys;
      fit =
          All-update _ _ (λ x. x.id == d.id) (requeued error) ds
            (λ e r. requeued_row ts error d e live r.0 r.1) (All-both _ _ ds v.fit only);
      distinct = Distinct-update collides _ _ ds (λ x y. refl) (λ x y. refl) v.distinct;
      serves = λ j u h. record {
        sound = (v.serves j u h).sound;
        created = created-update u.id _ _ ds (λ e. refl) (v.serves j u h).created;
        served = λ w.
            any-update_mono (is_deliverable u) (is_deliverable u) (λ x. x.id == d.id)
              (requeued error) ds (All-map _ _ ds (λ e r. requeued_served u error d e live r) only)
              ((v.serves j u h).served w);
      };
    }
