-- ===== src/Hub/Lease/Loop.antt =====
-- The loop of `lease_deliveries`, a case for each way through its body.
use things_team.Base.{
  ◌≡◌, sym, subst, ℕ, suc, true, false, none, some, List, ◌∷◌, [], arith, inl, inr, leb, Bool-cases,
  Option-cases,
}
use things_team.Hub.Schema.{RowId, Time, Delivery, Ledger}
use things_team.Hub.Lease.{Entry, LeaseRow, lease_row, offer, mark_leased, lease_loop}

pub offer-id : (now : Time) (r : LeaseRow) {e : Entry} → offer now r ≡ some e → e.id ≡ r.delivery.id
unfolding offer
offer-id now r h = ground arith

-- A row of the join holds the delivery that it was made for.
pub lease_row-delivery :
    (l : Ledger) (d : Delivery) {r : LeaseRow} → lease_row l d ≡ some r → r.delivery ≡ d
unfolding lease_row
lease_row-delivery l d {r} h = ground arith

module _ (device : RowId) (now expires : Time) (limit n : ℕ) (r : LeaseRow) (rs : List LeaseRow)
    (ds : List Delivery) where
  loop_full : leb limit n ≡ true → lease_loop device now expires limit n (r ∷ rs) ds ≡ ([], ds)
  unfolding lease_loop
  loop_full full = rw (full, lease_loop)

  loop_skip :
      leb limit n ≡ false
      → offer now r ≡ none
      → lease_loop device now expires limit n (r ∷ rs) ds
        ≡ lease_loop device now expires limit n rs ds
  unfolding lease_loop
  loop_skip room skip = rw (room, skip, lease_loop)

  loop_give :
      (e : Entry)
      → leb limit n ≡ false
      → offer now r ≡ some e
      → let (es, ds') =
          lease_loop device now expires limit (suc n) rs (mark_leased device expires e.id ds) in
        ◌≡◌ {A = List Entry × List Delivery}
          (lease_loop device now expires limit n (r ∷ rs) ds)
          (e ∷ es, ds')
  unfolding lease_loop
  loop_give e room given = rw (room, given, lease_loop)

  -- What holds of the result on each way through the body holds of the result.
  pub lease_cases {κ} :
      (P : List Entry × List Delivery → Type κ)
      → (leb limit n ≡ true → P ([], ds))
      → (leb limit n ≡ false → offer now r ≡ none → P (lease_loop device now expires limit n rs ds))
      → ((e : Entry)
          → leb limit n ≡ false
          → offer now r ≡ some e
          → e.id ≡ r.delivery.id
          → let (es, ds') =
              lease_loop device now expires limit (suc n) rs (mark_leased device expires e.id ds) in
            P (e ∷ es, ds'))
      → P (lease_loop device now expires limit n (r ∷ rs) ds)
  lease_cases P full skip give = elim (Bool-cases (leb limit n)) [
    | inl f ↦ subst P (sym (loop_full f)) (full f)
    | inr room ↦ elim (Option-cases (offer now r)) [
      | inl s ↦ subst P (sym (loop_skip room s)) (skip room s)
      | inr (e, g) ↦ subst P (sym (loop_give e room g)) (give e room g (offer-id now r g))
    ]
  ]
