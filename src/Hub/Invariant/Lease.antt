-- ===== src/Hub/Invariant/Lease.antt =====
-- `lease_deliveries` keeps the invariant.
use things_team.Base.{
  ◌≡◌, refl, sym, subst, ℕ, suc, ◌+◌, true, false, not, ◌&&◌, List, ◌∷◌, [], arith, ◌==◌,
}
use things_team.Base.Table.Laws.{
  All, All-map, All-both, All-update, All-select, All-join, All-order_by, patch,
}
use things_team.Base.Table.Exists.{any-update_mono}
use things_team.Base.Table.Distinct.{Distinct-update, Distinct-pairs}
use things_team.Hub.Schema.{RowId, Time, Transfer, Delivery, Ledger, Principal, after}
use things_team.Hub.Rows.{is_done, collides}
use things_team.Hub.Lease.{
  LeaseRow, lease_row, lease_rows, leased_to, mark_leased, lease_loop, lease_deliveries,
}
use things_team.Hub.Lease.Loop.{lease_cases, lease_row-delivery}
use things_team.Hub.Invariant.{Fit, is_deliverable, Tables, IsValid, IsValid-if}
use things_team.Hub.Invariant.Deliveries.{collides-swap, created-update}

-- The delivery with the id `k` is not done.
abbrev pub Undone : RowId → List Delivery → Type 0
Undone k ds = All (λ e. (e.id == k) ≡ true → is_done e.state ≡ false) ds

leased_row :
    (ts : List Transfer) (device : RowId) (expires : Time) (k : RowId) (e : Delivery)
    → Fit ts e
    → ((e.id == k) ≡ true → is_done e.state ≡ false)
    → Fit ts (patch (λ (x : Delivery). x.id == k) (leased_to device expires) e)
leased_row ts device expires k e f live = ground arith

leased_served :
    (u : Transfer) (device : RowId) (expires : Time) (k : RowId) (e : Delivery)
    → ((e.id == k) ≡ true → is_done e.state ≡ false)
    → is_deliverable u e ≡ true
    → is_deliverable u (patch (λ (x : Delivery). x.id == k) (leased_to device expires) e) ≡ true
leased_served u device expires k e live h = ground arith

mark_leased-Tables :
    (ts : List Transfer) (device : RowId) (expires : Time) (k : RowId) (ds : List Delivery)
    → Undone k ds
    → Tables ts ds
    → Tables ts (mark_leased device expires k ds)
unfolding mark_leased
mark_leased-Tables ts device expires k ds live v = record {
  keys = v.keys;
  fit =
      All-update _ _ (λ x. x.id == k) (leased_to device expires) ds
        (λ e r. leased_row ts device expires k e r.0 r.1) (All-both _ _ ds v.fit live);
  distinct = Distinct-update collides _ _ ds (λ x y. refl) (λ x y. refl) v.distinct;
  serves = λ j u h. record {
    sound = (v.serves j u h).sound;
    created = created-update u.id _ _ ds (λ e. refl) (v.serves j u h).created;
    served = λ w.
        any-update_mono (is_deliverable u) (is_deliverable u) (λ x. x.id == k)
          (leased_to device expires) ds
          (All-map _ _ ds (λ e r. leased_served u device expires k e r) live)
          ((v.serves j u h).served w);
  };
}

mark_leased-Undone :
    (device : RowId) (expires : Time) (k j : RowId) (ds : List Delivery)
    → Undone j ds
    → Undone j (mark_leased device expires k ds)
unfolding mark_leased
mark_leased-Undone device expires k j ds h =
    All-update _ _ (λ x. x.id == k) (leased_to device expires) ds (λ e r. ground (arith, r)) h

-- The rows that the loop gets are not done.
RowsUndone : List LeaseRow → List Delivery → Type 0
RowsUndone rows ds = All (λ (r : LeaseRow). Undone r.delivery.id ds) rows

lease_loop-Tables :
    (ts : List Transfer) (device : RowId) (now expires : Time) (limit n : ℕ) (rows : List LeaseRow)
    (ds : List Delivery)
    → RowsUndone rows ds
    → Tables ts ds
    → Tables ts (lease_loop device now expires limit n rows ds).1
unfolding lease_loop RowsUndone
lease_loop-Tables ts device now expires limit n [] ds live v = v
lease_loop-Tables ts device now expires limit n (r ∷ rs) ds live v =
    lease_cases device now expires limit n r rs ds (λ x. Tables ts x.1) (λ full. v)
      (λ room skip. lease_loop-Tables ts device now expires limit n rs ds live.1 v)
      (λ e room given same.
        lease_loop-Tables ts device now expires limit (suc n) rs
          (mark_leased device expires e.id ds)
          (All-map _ _ rs (λ x u. mark_leased-Undone device expires e.id x.delivery.id ds u) live.1)
          (mark_leased-Tables ts device expires e.id ds (subst (λ k. Undone k ds) (sym same) live.0)
            v))

-- The rows of the query are deliveries of the table that are not done.
lease_rows-RowsUndone :
    (member : RowId) (l : Ledger) → IsValid l → RowsUndone (lease_rows member l) l.deliveries
unfolding lease_rows RowsUndone
lease_rows-RowsUndone member l v = All-order_by _ _ _ (
    All-join _ _ (lease_row l) _
      (λ d r x e.
        subst (λ (y : Delivery). Undone y.id l.deliveries) (sym (lease_row-delivery l d e))
          (All-map _ _ l.deliveries (λ y only k. ground (arith, only)) r.0))
      (All-select _ (λ d. d.to_member == member && not (is_done d.state)) l.deliveries
        (Distinct-pairs collides collides-swap l.deliveries v.distinct)))

pub lease_deliveries-IsValid :
    (now : Time) (p : Principal) (limit : ℕ) (seconds : Time) (l : Ledger)
    → IsValid l
    → IsValid (after l (lease_deliveries now p limit seconds l))
unfolding lease_deliveries
lease_deliveries-IsValid now p limit seconds l v =
    IsValid-if l (not p.can_receive) _ _ (λ deaf. v)
      (λ hears.
        lease_loop-Tables l.transfers p.device_id now (now + seconds) limit 0
          (lease_rows p.member_id l) l.deliveries (lease_rows-RowsUndone p.member_id l v) v)
