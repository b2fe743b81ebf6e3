-- ===== src/Hub/Lease/Grants.antt =====
-- What `lease_deliveries` hands out, entry by entry.

use things_team.Base.{
  ◌≡◌, ap, ◌∙◌, sym, subst, ℕ, suc, ◌+◌, ◌≤◌, true, false, not, ◌&&◌, some, List, ◌∷◌, [], arith,
  inl, inr, Option-cases, ◌==◌, ==-refl, Bool-cases,
}
use things_team.Base.Table.{any}
use things_team.Base.Table.Laws.{All, All-both, All-update, All-select, All-join, All-order_by}
use things_team.Base.Table.Exists.{All-self, All-always}
use things_team.Base.Table.Queries.{length}
use things_team.Base.Table.Distinct.{Distinct-pairs}
use things_team.Hub.Schema.{
  RowId, Time, leased, Member, Delivery, Ledger, Principal, Result, ok, err, after,
}
use things_team.Hub.Rows.{is_done, collides, find_transfer, find_member}
use things_team.Hub.Lease.{
  Entry, LeaseRow, lease_row, lease_rows, offer, leased_to, mark_leased, lease_loop,
  lease_deliveries,
}
use things_team.Hub.Lease.Loop.{lease_cases, lease_row-delivery}
use things_team.Hub.Invariant.{IsValid}
use things_team.Hub.Invariant.Deliveries.{collides-swap}

-- A row of the query: a delivery of the table to `member` that is not done, with its transfer.
pub record IsRow (member : RowId) (l : Ledger) (r : LeaseRow) : Type 0 where
  pub mine : (r.delivery.to_member == member) ≡ true
  pub undone : is_done r.delivery.state ≡ false
  pub only : All (λ y. collides r.delivery y ≡ true → y ≡ r.delivery) l.deliveries
  pub present : any (λ d. d.id == r.delivery.id) l.deliveries ≡ true
  pub joined : find_transfer r.delivery.transfer_id l ≡ some r.transfer
  pub sender :
      (fm : Member) × (find_member r.transfer.from_member l ≡ some fm) × (fm.handle ≡ r.from_handle)

joined_transfer :
    (l : Ledger) (d : Delivery) {r : LeaseRow}
    → lease_row l d ≡ some r
    → find_transfer d.transfer_id l ≡ some r.transfer
unfolding lease_row
joined_transfer l d {r} h = ground arith

joined_sender :
    (l : Ledger) (d : Delivery) {r : LeaseRow}
    → lease_row l d ≡ some r
    → (fm : Member) × (find_member r.transfer.from_member l ≡ some fm) × (fm.handle ≡ r.from_handle)
unfolding lease_row
joined_sender l d {r} h = elim (Option-cases (find_transfer d.transfer_id l)) [
  | inl absent ↦ cc (rw (absent, lease_row) at h)
  | inr (t, there) ↦ elim (Option-cases (find_member t.from_member l)) [
    | inl gone ↦ cc (rw (there, gone, lease_row) at h)
    | inr (fm, here) ↦
        let row : some (record { delivery = d; transfer = t; from_handle = fm.handle }) ≡ some r =
          rw (there, here, lease_row) at h in
        let same : record { delivery = d; transfer = t; from_handle = fm.handle } ≡ r = cc in
        (
          fm,
          ap (λ (x : LeaseRow). find_member x.transfer.from_member l) (sym same) ∙ here,
          ap (λ (x : LeaseRow). x.from_handle) same,
        )
  ]
]

make-IsRow :
    (member : RowId) (l : Ledger) (d : Delivery) (r : LeaseRow)
    → All (λ y. collides d y ≡ true → y ≡ d) l.deliveries
    → any (λ e. e.id == d.id) l.deliveries ≡ true
    → (d.to_member == member && not (is_done d.state)) ≡ true
    → lease_row l d ≡ some r
    → IsRow member l r
make-IsRow member l d r only present asked e =
    let same : d ≡ r.delivery = sym (lease_row-delivery l d e) in
    record {
      mine = ground arith;
      undone = ground arith;
      only = subst (λ x. All (λ y. collides x y ≡ true → y ≡ x) l.deliveries) same only;
      present = subst (λ (x : Delivery). any (λ e. e.id == x.id) l.deliveries ≡ true) same present;
      joined =
          subst (λ (x : Delivery). find_transfer x.transfer_id l ≡ some r.transfer) same
            (joined_transfer l d e);
      sender = joined_sender l d e;
    }

pub lease_rows-IsRow :
    (member : RowId) (l : Ledger) → IsValid l → All (IsRow member l) (lease_rows member l)
unfolding lease_rows
lease_rows-IsRow member l v = All-order_by _ _ _ (
    All-join _ _ (lease_row l) _ (λ d h r e. make-IsRow member l d r h.0.0 h.0.1 h.1 e)
      (All-select _ (λ d. d.to_member == member && not (is_done d.state)) l.deliveries
        (All-both _ _ l.deliveries (Distinct-pairs collides collides-swap l.deliveries v.distinct)
          (All-self (λ (x y : Delivery). y.id == x.id) l.deliveries (λ x. ==-refl x.id)))))

-- The delivery is leased to `device` until `expires`.
pub record Leased (device : RowId) (expires : Time) (d : Delivery) : Type 0 where
  pub state : d.state ≡ leased
  pub holder : d.leased_by_device ≡ some device
  pub until : d.lease_expires_at ≡ some expires

abbrev pub LeasedIn : RowId → Time → RowId → List Delivery → Type 0
LeasedIn device expires k ds = All (λ d. (d.id == k) ≡ true → Leased device expires d) ds

-- An entry was offered for a row of the query, and its delivery is leased afterwards.
pub record Grant (member : RowId) (now : Time) (l : Ledger) (e : Entry) : Type 0 where
  pub row : LeaseRow
  pub from_query : IsRow member l row
  pub offered : offer now row ≡ some e
  pub id : e.id ≡ row.delivery.id

module _ (device : RowId) (expires : Time) where
  mark_leased-LeasedIn :
      (k : RowId) (ds : List Delivery) → LeasedIn device expires k (mark_leased device expires k ds)
  unfolding mark_leased
  mark_leased-LeasedIn k ds =
      All-update (λ x. Unit {0}) _ (λ x. x.id == k) (leased_to device expires) ds
        (λ x u. λ m. ground arith) (All-always _ ds (λ x. tt))

  mark_leased-keeps :
      (k j : RowId) (ds : List Delivery)
      → LeasedIn device expires j ds
      → LeasedIn device expires j (mark_leased device expires k ds)
  unfolding mark_leased
  mark_leased-keeps k j ds h =
      All-update _ _ (λ x. x.id == k) (leased_to device expires) ds
        (λ x old. λ m. ground (arith, old)) h

module _ (member : RowId) (l : Ledger) (device : RowId) (now expires : Time) (limit : ℕ) where
  loop_keeps :
      (n j : ℕ) (rows : List LeaseRow) (ds : List Delivery)
      → LeasedIn device expires j ds
      → LeasedIn device expires j (lease_loop device now expires limit n rows ds).1
  unfolding lease_loop
  loop_keeps n j [] ds h = h
  loop_keeps n j (r ∷ rs) ds h =
      lease_cases device now expires limit n r rs ds (λ x. LeasedIn device expires j x.1)
        (λ full. h) (λ room skip. loop_keeps n j rs ds h)
        (λ e room given same.
          loop_keeps (suc n) j rs (mark_leased device expires e.id ds)
            (mark_leased-keeps device expires e.id j ds h))

  -- Every entry was granted for a row, and its delivery is leased at the end.
  loop_grants :
      (n : ℕ) (rows : List LeaseRow) (ds : List Delivery)
      → All (IsRow member l) rows
      → let (es, ds') = lease_loop device now expires limit n rows ds in
        All (λ e. Grant member now l e × LeasedIn device expires e.id ds') es
  unfolding lease_loop
  loop_grants n [] ds rows = tt
  loop_grants n (r ∷ rs) ds rows =
      lease_cases device now expires limit n r rs ds
        (λ x. All (λ e. Grant member now l e × LeasedIn device expires e.id x.1) x.0) (λ full. tt)
        (λ room skip. loop_grants n rs ds rows.1)
        (λ e room given same. (
          (
            record { row = r; from_query = rows.0; offered = given; id = same },
            loop_keeps (suc n) e.id rs (mark_leased device expires e.id ds)
                (mark_leased-LeasedIn device expires e.id ds),
          ),
          loop_grants (suc n) rs (mark_leased device expires e.id ds) rows.1,
        ))

  loop_limit :
      (n : ℕ) (rows : List LeaseRow) (ds : List Delivery)
      → n ≤ limit
      → n + length (lease_loop device now expires limit n rows ds).0 ≤ limit
  unfolding lease_loop
  loop_limit n [] ds h = omega arith
  loop_limit n (r ∷ rs) ds h =
      lease_cases device now expires limit n r rs ds (λ x. n + length x.0 ≤ limit)
        (λ full. omega arith) (λ room skip. loop_limit n rs ds h)
        (λ e room given same.
          let rest = loop_limit (suc n) rs (mark_leased device expires e.id ds) (ground arith) in
          omega arith)

-- The entries of a call, none where it raises.
abbrev pub entries : Result (List Entry) → List Entry
entries (ok es l) = es
entries (err e) = []

-- At most `limit` deliveries are handed out.
pub lease_deliveries-limit :
    (now : Time) (p : Principal) (limit : ℕ) (seconds : Time) (l : Ledger)
    → length (entries (lease_deliveries now p limit seconds l)) ≤ limit
unfolding lease_deliveries
lease_deliveries-limit now p limit seconds l = elim (Bool-cases (not p.can_receive)) [
  | inl deaf ↦ rw (deaf, entries) (omega arith)
  | inr hears ↦
      rw (hears, entries)
        (omega (
          arith,
          loop_limit p.member_id l p.device_id now (now + seconds) limit 0
              (lease_rows p.member_id l) l.deliveries,
        ))
]

pub lease_deliveries-Grant :
    (now : Time) (p : Principal) (limit : ℕ) (seconds : Time) (l : Ledger)
    → IsValid l
    → All
        (λ e.
          Grant p.member_id now l e
          × LeasedIn p.device_id
              (now + seconds)
              e.id
              (after l (lease_deliveries now p limit seconds l)).deliveries)
        (entries (lease_deliveries now p limit seconds l))
unfolding lease_deliveries
lease_deliveries-Grant now p limit seconds l v = elim (Bool-cases (not p.can_receive)) [
  | inl deaf ↦ rw (deaf, entries, after) tt
  | inr hears ↦
      rw (hears, entries, after)
        (loop_grants p.member_id l p.device_id now (now + seconds) limit 0
          (lease_rows p.member_id l) l.deliveries (lease_rows-IsRow p.member_id l v))
]
