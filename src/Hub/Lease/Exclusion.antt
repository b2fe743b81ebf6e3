-- ===== src/Hub/Lease/Exclusion.antt =====
-- No delivery is handed out twice while its lease runs.
use things_team.Base.{◌≡◌, subst, ℕ, ◌+◌, ◌≤◌, true, false, some, arith, ◌==◌}
use things_team.Base.Table.Laws.{All, All-map, All-find, any-find-some, find-holds}
use things_team.Hub.Schema.{RowId, Time, Delivery, Ledger, Principal, after}
use things_team.Hub.Lease.{Entry, LeaseRow, has_live_lease, offer, lease_deliveries}
use things_team.Hub.Lease.Grants.{IsRow, Leased, LeasedIn, Grant, entries, lease_deliveries-Grant}
use things_team.Hub.Invariant.{IsValid}
use things_team.Hub.Invariant.Lease.{lease_deliveries-IsValid}

-- A row is offered only if no lease on it runs.
pub offer-free :
    (now : Time) (r : LeaseRow) {e : Entry}
    → offer now r ≡ some e
    → has_live_lease now r.delivery ≡ false
unfolding offer
offer-free now r h = ground arith

live_until :
    (device : RowId) (now expires : Time) (d : Delivery)
    → Leased device expires d
    → now ≤ expires
    → has_live_lease now d ≡ true
live_until device now expires d h le = ground arith

-- The table has the row itself under its id.
pub row_in :
    (member : RowId) (l : Ledger) (r : LeaseRow) (P : Delivery → Type 0)
    → IsRow member l r
    → All P l.deliveries
    → P r.delivery
row_in member l r P row all =
    let (d, found) =
      any-find-some (λ (x : Delivery). x.id == r.delivery.id) l.deliveries row.present in
    let same : d ≡ r.delivery =
      All-find _ _ l.deliveries row.only found (ground (arith, find-holds _ l.deliveries found)) in
    subst P same (All-find P _ l.deliveries all found)

not_again :
    (device member now' expires : ℕ) (l : Ledger) (e e' : Entry)
    → now' ≤ expires
    → LeasedIn device expires e.id l.deliveries
    → Grant member now' l e'
    → (e'.id == e.id) ≡ false
not_again device member now' expires l e e' le held g =
    let own = row_in member l g.row _ g.from_query held in
    ground (
      arith,
      own,
      g.id,
      live_until device now' expires g.row.delivery,
      offer-free now' g.row g.offered,
    )

-- While the leases of one call on a valid ledger run, no later call on the state that it left, for
-- whatever member and device, hands out one of its deliveries again.
pub lease_exclusive :
    (now now' : Time) (p q : Principal) (limit limit' : ℕ) (seconds seconds' : Time) (l : Ledger)
    → IsValid l
    → now' ≤ now + seconds
    → let first = lease_deliveries now p limit seconds l in
      let second = lease_deliveries now' q limit' seconds' (after l first) in
      All (λ e. All (λ e'. (e'.id == e.id) ≡ false) (entries second)) (entries first)
lease_exclusive now now' p q limit limit' seconds seconds' l v le =
    let first = lease_deliveries now p limit seconds l in
    All-map _ _ (entries first)
      (λ e h.
        All-map _ _ (entries (lease_deliveries now' q limit' seconds' (after l first)))
          (λ e' g.
            not_again p.device_id q.member_id now' (now + seconds) (after l first) e e' le h.1 g.0)
          (lease_deliveries-Grant now' q limit' seconds' (after l first)
            (lease_deliveries-IsValid now p limit seconds l v)))
      (lease_deliveries-Grant now p limit seconds l v)
