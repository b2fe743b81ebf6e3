-- ===== src/Hub/Invariant/Observe.antt =====
-- `_queue_echo` restores the invariant once a terminal state is set.
use things_team.Base.{
  ◌≡◌, refl, sym, ap, subst, ◌∙◌, true, false, not, ◌&&◌, some, List, arith, inl, inr, ◌==◌,
  ==-refl, if◌then◌else◌, Bool-cases,
}
use things_team.Base.Table.{any}
use things_team.Base.Table.Laws.{
  All, All-map, All-update, All-both, All-find, any-find-some, find-any_of, find-holds, patch,
}
use things_team.Base.Table.Distinct.{Distinct, Distinct-update}
use things_team.Hub.Schema.{
  RowId, Time, Terminal, create, DeliveryState, queued, leased, done, Transfer, Delivery, Ledger,
  Draws,
}
use things_team.Hub.Rows.{
  eq_kind, echo_kind, has_text, collides, event, new_delivery, queue_delivery, queue_row,
}
use things_team.Hub.Ack.{resolved, resolve_transfer}
use things_team.Hub.Push.{clashes}
use things_team.Hub.Observe.{
  is_create_of, find_create, is_party, skipped, skip_delivery, skip_create, insert_echo,
  echo_by_create, other_party, echo_to, queue_echo,
}
use things_team.Hub.Invariant.{transfer_in, is_sound, is_waiting, is_deliverable, Tables, IsValid}
use things_team.Hub.Invariant.Frame.{
  Changes, Changes-update, Changes-trans, Elsewhere, FitAfter, Tables-step,
}
use things_team.Hub.Invariant.Deliveries.{
  only_row, Elsewhere-update, Elsewhere-queue, Elsewhere-trans, queue_row-All, queue_row-Distinct,
  queue_row-any, queue_row-served, echo-FitAfter, echo_kind-ne-create, created-update,
}

-- The tables where the transfer `i` has become `t`, and its echo is still to be queued.
pub record Pending (i : RowId) (t : Transfer) (x : Terminal) (ts : List Transfer)
    (ds : List Delivery) (ts' : List Transfer) (ds' : List Delivery) : Type 0 where
  pub before : Tables ts ds
  pub changes : Changes i t ts ts'
  pub keys : Distinct clashes ts'
  pub fit : All (FitAfter i t ts) ds'
  pub distinct : Distinct collides ds'
  pub elsewhere : Elsewhere i ds ds'
  pub sound : is_sound t ≡ true
  pub at_i : t.id ≡ i
  pub created : any (is_create_of t.id) ds' ≡ true
  pub terminal : t.terminal ≡ some x

-- The create delivery is skipped, and its transfer resolved.
skipped_row :
    (i : RowId) (t : Transfer) (ts : List Transfer) (now : Time) (c e : Delivery)
    → c.transfer_id ≡ i
    → eq_kind c.kind create ≡ true
    → FitAfter i t ts e
    → (collides c e ≡ true → e ≡ c)
    → FitAfter i (resolved now t) ts (patch (λ (d : Delivery). d.id == c.id) (skipped now) e)
unfolding FitAfter
skipped_row i t ts now c e ci k f only = ground arith

module _ (i : RowId) (t : Transfer) (x : Terminal) (ts : List Transfer) (ds : List Delivery)
    (l : Ledger) (w : Pending i t x ts ds l.transfers l.deliveries) where
  keep_tables : (is_waiting t ≡ true → any (is_deliverable t) l.deliveries ≡ true) → IsValid l
  keep_tables served =
      Tables-step i t ts l.transfers ds l.deliveries w.before w.changes w.keys w.fit w.distinct
        (record { sound = w.sound; created = w.created; served = served }) w.elsewhere

  -- An echo to a party with a copy serves the transfer, and so does any echo if it waits for none.
  insert_tables :
      (s : Draws) (other : RowId)
      → any (λ e. e.id == s.delivery) l.deliveries ≡ false
      → is_party other t ≡ true
      → (is_waiting t ≡ true
          → is_deliverable t (new_delivery s.delivery i (echo_kind x) other s.now) ≡ true)
      → IsValid (insert_echo s i x other l).1
  unfolding insert_echo queue_delivery
  insert_tables s other fresh party ready =
      let n = new_delivery s.delivery i (echo_kind x) other s.now in
      Tables-step i t ts l.transfers ds (queue_row n l.deliveries) w.before w.changes w.keys
        (queue_row-All _ n l.deliveries
          (echo-FitAfter i t ts s.delivery i other s.now x refl w.terminal party) w.fit)
        (queue_row-Distinct n l.deliveries w.distinct)
        (record {
          sound = w.sound;
          created = queue_row-any (is_create_of t.id) n l.deliveries w.created;
          served = λ waits.
              queue_row-served i t ts n l.deliveries w.at_i refl (ground arith)
                (echo_kind-ne-create x) (ready waits) w.fit fresh;
        })
        (Elsewhere-trans i ds l.deliveries _ w.elsewhere (Elsewhere-queue i n l.deliveries refl))

  now_t : transfer_in i l.transfers ≡ some t
  now_t = w.changes i ∙ ap (λ b. if b then some t else transfer_in i ts) (==-refl i)

  skip_tables :
      (s : Draws) {c : Delivery} → find_create i l ≡ some c → IsValid (skip_create s i x c.id l)
  unfolding skip_create skip_delivery resolve_transfer event
  skip_tables s {c} h =
      let ci : is_create_of i c ≡ true = find-holds (is_create_of i) l.deliveries h in
      let rows =
        All-both _ _ l.deliveries w.fit (only_row (is_create_of i) l.deliveries w.distinct h) in
      Tables-step i (resolved s.now t) ts _ ds _ w.before
        (Changes-trans i t (resolved s.now t) ts l.transfers _ w.changes
          (Changes-update i (resolved s.now) l.transfers (λ y. refl) now_t))
        (Distinct-update clashes _ _ l.transfers (λ y z. refl) (λ y z. refl) w.keys)
        (All-update _ _ (λ e. e.id == c.id) (skipped s.now) l.deliveries
          (λ e r. skipped_row i t ts s.now c e (ground arith) (ground arith) r.0 r.1) rows)
        (Distinct-update collides _ _ l.deliveries (λ y z. refl) (λ y z. refl) w.distinct)
        (record {
          sound = ground (arith, w.sound, w.terminal);
          created = created-update t.id _ _ l.deliveries (λ e. refl) w.created;
          served = λ waits. ground arith;
        })
        (Elsewhere-trans i ds l.deliveries _ w.elsewhere (
          Elsewhere-update i (λ e. e.id == c.id) (skipped s.now) l.deliveries (λ e. refl)
            (All-map _ _ l.deliveries (λ e r pe. ground (arith, r.1)) rows)))

  -- What the create delivery says, where the recipient has no copy.
  by_create-IsValid :
      (s : Draws) (other : RowId) {c : Delivery}
      → any (λ e. e.id == s.delivery) l.deliveries ≡ false
      → is_party other t ≡ true
      → has_text t.dst_uuid ≡ false
      → find_create i l ≡ some c
      → (state : DeliveryState) → c.state ≡ state
      → IsValid (echo_by_create s i x other c.id state l).1
  unfolding echo_by_create FitAfter
  by_create-IsValid s other fresh party bare h queued e = skip_tables s h
  by_create-IsValid s other {c} fresh party bare h leased e = keep_tables λ waits.
      find-any_of (is_create_of i) (is_deliverable t) l.deliveries h
        (ground (arith, w.at_i, find-holds (is_create_of i) l.deliveries h))
  by_create-IsValid s other {c} fresh party bare h done e =
      insert_tables s other fresh party λ waits. ground (
        arith,
        w.sound,
        find-holds (is_create_of i) l.deliveries h,
        All-find _ (is_create_of i) l.deliveries w.fit h,
      )

  find_create-some : (c : Delivery) × (find_create i l ≡ some c)
  find_create-some =
      any-find-some (is_create_of i) l.deliveries
        (ap (λ k. any (is_create_of k) l.deliveries) (sym w.at_i) ∙ w.created)

module _ (t : Transfer) (x : Terminal) (ts : List Transfer) (ds : List Delivery) (l : Ledger)
    (w : Pending t.id t x ts ds l.transfers l.deliveries) (s : Draws) (other : RowId)
    (fresh : any (λ e. e.id == s.delivery) l.deliveries ≡ false)
    (party : is_party other t ≡ true) where
  echo_to-IsValid : IsValid (echo_to s t x other l).1
  unfolding echo_to
  echo_to-IsValid = elim (Bool-cases (other == t.to_member && not (has_text t.dst_uuid))) [
    | inl bare ↦
        let (c, h) = find_create-some t.id t x ts ds l w in
        rw (bare, h)
          (by_create-IsValid t.id t x ts ds l w s other fresh party (ground arith) h c.state refl)
    | inr reachable ↦
        rw reachable (insert_tables t.id t x ts ds l w s other fresh party λ waits. ground arith)
  ]

other_party-is_party : (t : Transfer) → is_party (other_party t) t ≡ true
other_party-is_party t = ground arith

pub queue_echo-IsValid :
    (i : RowId) (t : Transfer) (x : Terminal) (ts : List Transfer) (ds : List Delivery) (l : Ledger)
    (s : Draws)
    → Pending i t x ts ds l.transfers l.deliveries
    → any (λ e. e.id == s.delivery) l.deliveries ≡ false
    → IsValid (queue_echo s i x l).1
unfolding queue_echo
queue_echo-IsValid i t x ts ds l s w fresh =
    rw (now_t i t x ts ds l w, queue_echo)
      (echo_to-IsValid t x ts ds l
        (subst (λ k. Pending k t x ts ds l.transfers l.deliveries) (sym w.at_i) w) s (other_party t)
        fresh (other_party-is_party t))
