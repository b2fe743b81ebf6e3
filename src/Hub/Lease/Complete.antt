-- ===== src/Hub/Lease/Complete.antt =====
-- What can be delivered is handed out.
use things_team.Base.{
  ◌≡◌, sym, ap, subst, ◌∙◌, ℕ, suc, ◌+◌, ◌≤◌, String, Bool, true, false, not, ◌&&◌, some, List, ◌∷◌,
  [], arith, ◌==◌, ==-refl,
}
use things_team.Base.Table.{find, any, select, join}
use things_team.Base.Table.Laws.{
  All, All-map, All-find, any-find-some, find-any_of, find-holds, All-select,
}
use things_team.Base.Table.Queries.{
  length, any-select, any-join, any-order_by, length-select, length-join, length-order_by,
}
use things_team.Hub.Schema.{RowId, Time, Member, Transfer, Delivery, Ledger, Principal}
use things_team.Hub.Rows.{is_done, is_null, find_transfer, find_member}
use things_team.Hub.Lease.{
  Entry, LeaseRow, lease_row, lease_rows, has_live_lease, offer, mark_leased, lease_loop,
  lease_deliveries,
}
use things_team.Hub.Lease.Loop.{lease_cases}
use things_team.Hub.Lease.Grants.{entries}
use things_team.Hub.Invariant.{IsValid, is_deliverable, is_waiting}
use things_team.Hub.Invariant.Frame.{transfer-id}
use things_team.Hub.Invariant.Deliveries.{only_row}
use things_team.Hub.History.{Reach}
use things_team.Hub.History.Reachable.{reachable-IsValid}

-- A row for the delivery `k` that the loop does not pass over.
abbrev is_offered : Time → RowId → LeaseRow → Bool
is_offered now k r = r.delivery.id == k && not (is_null (offer now r))

loop_complete :
    (device : RowId) (now expires : Time) (limit n k : ℕ) (rows : List LeaseRow)
    (ds : List Delivery)
    → n + length rows ≤ limit
    → any (is_offered now k) rows ≡ true
    → any (λ (e : Entry). e.id == k) (lease_loop device now expires limit n rows ds).0 ≡ true
unfolding lease_loop any
loop_complete device now expires limit n k [] ds fits h = cc
loop_complete device now expires limit n k (r ∷ rs) ds fits h =
    lease_cases device now expires limit n r rs ds (λ x. any (λ (e : Entry). e.id == k) x.0 ≡ true)
      (λ full. absurd (ground arith))
      (λ room skip. loop_complete device now expires limit n k rs ds (omega arith) (ground arith))
      (λ e room given same.
        let rest =
          loop_complete device now expires limit (suc n) k rs (mark_leased device expires e.id ds)
            (omega arith) in
        ground (arith, rest))

offered_row :
    (now : Time) (l : Ledger) (d : Delivery) {t : Transfer} {fm : Member}
    → find_transfer d.transfer_id l ≡ some t
    → find_member t.from_member l ≡ some fm
    → is_deliverable t d ≡ true
    → has_live_lease now d ≡ false
    → (r : LeaseRow) × (lease_row l d ≡ some r) × (is_offered now d.id r ≡ true)
unfolding lease_row offer
offered_row now l d {t} {fm} ht hm ready free =
    (record { delivery = d; transfer = t; from_handle = fm.handle }, ground arith, ground arith)

-- The row of the query for a delivery that can be handed out.
asked_row :
    (member : RowId) (now : Time) (l : Ledger) (query : Delivery → Bool) {d : Delivery}
    {t : Transfer} {fm : Member}
    → IsValid l
    → find query l.deliveries ≡ some d
    → (d.to_member == member) ≡ true
    → find_transfer d.transfer_id l ≡ some t
    → find_member t.from_member l ≡ some fm
    → is_deliverable t d ≡ true
    → has_live_lease now d ≡ false
    → any (is_offered now d.id) (lease_rows member l) ≡ true
unfolding lease_rows
asked_row member now l query {d} v hd mine ht hm ready free =
    let q = λ (x : Delivery). x.id == d.id in
    let asked = λ (x : Delivery). x.to_member == member && not (is_done x.state) in
    let only = only_row query l.deliveries v.distinct hd in
    let row = offered_row now l d ht hm ready free in
    any-order_by (is_offered now d.id) _ _
    ∙ any-join (lease_row l) q (is_offered now d.id) (select asked l.deliveries)
        (All-map _ _ _
          (λ x h k.
            let same : x ≡ d = h.0 (ground arith) in
            subst (λ y. (r : LeaseRow) × (lease_row l y ≡ some r) × (is_offered now d.id r ≡ true))
              (sym same) row)
          (All-select _ asked l.deliveries only))
        (any-select asked q l.deliveries
          (All-map _ _ l.deliveries
            (λ x h k.
              let same : x ≡ d = h (ground arith) in
              subst (λ (y : Delivery). asked y ≡ true) (sym same) (ground arith))
            only)
          (find-any_of query q l.deliveries hd (==-refl d.id)))

rows_fit : (member : RowId) (l : Ledger) → length (lease_rows member l) ≤ length l.deliveries
unfolding lease_rows
rows_fit member l =
    let asked = λ (x : Delivery). x.to_member == member && not (is_done x.state) in
    omega (
      arith,
      length-order_by (λ r. r.delivery.created_at) (join (lease_row l) (select asked l.deliveries)),
      length-join (lease_row l) (select asked l.deliveries),
      length-select asked l.deliveries,
    )

-- On a valid ledger, a call by a member who can receive, with room for all the deliveries, hands out
-- each delivery to the member that a query finds, that can be delivered, whose transfer and sender are
-- there, and on which no lease runs.
pub lease_complete :
    (now : Time) (p : Principal) (limit : ℕ) (seconds : Time) (l : Ledger) (query : Delivery → Bool)
    {d : Delivery} {t : Transfer} {fm : Member}
    → IsValid l
    → p.can_receive ≡ true
    → length l.deliveries ≤ limit
    → find query l.deliveries ≡ some d
    → (d.to_member == p.member_id) ≡ true
    → find_transfer d.transfer_id l ≡ some t
    → find_member t.from_member l ≡ some fm
    → is_deliverable t d ≡ true
    → has_live_lease now d ≡ false
    → any (λ e. e.id == d.id) (entries (lease_deliveries now p limit seconds l)) ≡ true
unfolding lease_deliveries
lease_complete now p limit seconds l query {d} v hears fits hd mine ht hm ready free = rw hears (
    loop_complete p.device_id now (now + seconds) limit 0 d.id (lease_rows p.member_id l)
      l.deliveries (omega (arith, rows_fit p.member_id l))
      (asked_row p.member_id now l query v hd mine ht hm ready free))

-- No loss: in every reachable ledger, a transfer that is not resolved, and that is not applied yet or has
-- a terminal state, has a delivery that is handed out to its addressee, `reader d.to_member`, by any
-- lease call with room for all the deliveries, made when no lease runs. The addressee can receive, and
-- the sender's row is there. Of resolved transfers, those taken back before a copy was made among them,
-- nothing is said.
pub no_loss :
    (normalize hash : String → String) (now : Time) (reader : RowId → Principal) (limit : ℕ)
    (seconds : Time) (i : RowId) {l : Ledger} {t : Transfer} {fm : Member}
    → Reach normalize hash l
    → find_transfer i l ≡ some t
    → is_waiting t ≡ true
    → find_member t.from_member l ≡ some fm
    → ((m : RowId) → ((reader m).member_id ≡ m) × ((reader m).can_receive ≡ true))
    → length l.deliveries ≤ limit
    → All (λ d. has_live_lease now d ≡ false) l.deliveries
    → (d : Delivery) × (d.transfer_id ≡ t.id)
      × (any
            (λ e. e.id == d.id)
            (entries (lease_deliveries now (reader d.to_member) limit seconds l))
          ≡ true)
no_loss normalize hash now reader limit seconds i {l} {t} r ht waits hm readers fits idle =
    let v = reachable-IsValid normalize hash r in
    let (d, hd) = any-find-some (is_deliverable t) l.deliveries ((v.serves i t ht).served waits) in
    let ready = find-holds (is_deliverable t) l.deliveries hd in
    let own : d.transfer_id ≡ i = ground (arith, ready, transfer-id i l.transfers ht) in
    (
      d,
      ground arith,
      lease_complete now (reader d.to_member) limit seconds l (is_deliverable t) v
          (readers d.to_member).1 fits hd (ground (arith, (readers d.to_member).0))
          (ap (λ j. find_transfer j l) own ∙ ht) hm ready
          (All-find _ (is_deliverable t) l.deliveries idle hd),
    )
