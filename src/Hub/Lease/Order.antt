-- ===== src/Hub/Lease/Order.antt =====
-- The ordering guard of `lease_deliveries`.
use things_team.Base.{
  ◌≡◌, ◌⊎◌, refl, sym, ap, subst, ◌∙◌, String, true, false, some, List, arith, inl, inr, ◌==◌,
  Bool-cases, ℕ,
}
use things_team.Base.Table.Laws.{All, All-map}
use things_team.Json.{Json}
use things_team.Hub.Schema.{
  Member, RowId, Time, Kind, create, complete, cancel, Transfer, Delivery, Ledger, Principal,
}
use things_team.Hub.Rows.{is_done, find_transfer, find_member, eq_kind}
use things_team.Hub.Observe.{is_create_of}
use things_team.Hub.Lease.{
  Body, payload, uuid, Entry, LeaseRow, provenance_tag, body_of, uuid_to_act, offer,
  lease_deliveries,
}
use things_team.Hub.Lease.Grants.{IsRow, Grant, entries, lease_deliveries-Grant}
use things_team.Hub.Lease.Exclusion.{row_in}
use things_team.Hub.Invariant.{transfer_in, Fit, IsValid}
use things_team.Hub.Invariant.Frame.{transfer-id}

-- The copy that an echo acts on is there: the sender's own todo, or the recipient's, whose create
-- delivery is done.
abbrev pub CopyExists : RowId → Ledger → Transfer → String → Type 0
CopyExists member l t u =
    ((t.from_member ≡ member) × (t.src_uuid ≡ u))
    ⊎ ((t.to_member ≡ member)
        × (t.dst_uuid ≡ some u)
        × All (λ d. is_create_of t.id d ≡ true → is_done d.state ≡ true) l.deliveries)

-- `from` is the handle of the member who sent the transfer, and `tag` that member's tag.
abbrev pub IsTagged : Ledger → Transfer → String → String → Type 0
IsTagged l t from tag =
    (fm : Member) × (find_member t.from_member l ≡ some fm)
    × (from ≡ fm.handle)
    × (tag ≡ provenance_tag fm.handle)

-- What an entry may say to `member`, by its kind: the payload that was pushed, with the sender's tag; or
-- the uuid of a copy that is there.
abbrev pub Says : RowId → Ledger → Transfer → Kind → Body → Type 0
Says member l t create (payload j from tag) =
    (t.payload ≡ j) × IsTagged l t from tag × (t.to_member ≡ member)
Says member l t create (uuid u) = ⊥
Says member l t _ (payload j from tag) = ⊥
Says member l t _ (uuid u) = CopyExists member l t u

abbrev pub IsOrdered : RowId → Ledger → Entry → Type 0
IsOrdered member l e =
    (t : Transfer) × (find_transfer e.transfer_id l ≡ some t) × Says member l t e.kind e.body

-- With a copy, a create delivery of the transfer is done.
created_done :
    (i : RowId) (t : Transfer) (ts : List Transfer) (u : String) (d : Delivery)
    → transfer_in i ts ≡ some t
    → t.dst_uuid ≡ some u
    → Fit ts d
    → is_create_of i d ≡ true
    → is_done d.state ≡ true
created_done i t ts u d found copy f k =
    let same : d.transfer_id ≡ i = ground arith in ground (arith, ap (λ j. transfer_in j ts) same)

offer-parts :
    (now : Time) (r : LeaseRow) {e : Entry}
    → offer now r ≡ some e
    → (e.kind ≡ r.delivery.kind)
      × (body_of r.delivery.kind r ≡ some e.body)
      × (e.transfer_id ≡ r.transfer.id)
unfolding offer
offer-parts now r h = ground arith

-- The uuid of an echo row belongs to the addressee.
echo_copy :
    (member : RowId) (l : Ledger) (r : LeaseRow) (u : String)
    → IsValid l
    → IsRow member l r
    → eq_kind r.delivery.kind create ≡ false
    → uuid_to_act r ≡ some u
    → CopyExists member l r.transfer u
echo_copy member l r u v row k act =
    let t = r.transfer in
    let at_id : t.id ≡ r.delivery.transfer_id =
      transfer-id r.delivery.transfer_id l.transfers row.joined in
    let found : transfer_in t.id l.transfers ≡ some t =
      ap (λ j. transfer_in j l.transfers) at_id ∙ row.joined in
    let fit = row_in member l r (Fit l.transfers) row v.fit in
    elim (Bool-cases (r.delivery.to_member == r.transfer.from_member)) [
      | inl own ↦ inl (ground (arith, row.mine), ground arith)
      | inr other ↦
          let copy : t.dst_uuid ≡ some u = ground arith in
          inr (
            ground (arith, row.mine, row.joined, fit),
            copy,
            All-map _ _ l.deliveries (λ d f k. created_done t.id t l.transfers u d found copy f k)
                v.fit,
          )
    ]

tagged :
    (member : RowId) (l : Ledger) (r : LeaseRow) (j : Json) (from tag : String)
    → IsRow member l r
    → body_of create r ≡ some (payload j from tag)
    → IsTagged l r.transfer from tag
tagged member l r j from tag row h =
    let (fm, here, same) = row.sender in
    let said : r.from_handle ≡ from = ground arith in
    let its_tag : provenance_tag r.from_handle ≡ tag = ground arith in
    (fm, here, sym said ∙ sym same, sym its_tag ∙ ap provenance_tag (sym same))

says :
    (member : RowId) (l : Ledger) (r : LeaseRow) (k : Kind) (b : Body)
    → IsValid l
    → IsRow member l r
    → r.delivery.kind ≡ k
    → body_of k r ≡ some b
    → Says member l r.transfer k b
says member l r create (payload j from tag) v row e h = (
  ground arith,
  tagged member l r j from tag row h,
  ground (arith, row.mine, row.joined, row_in member l r (Fit l.transfers) row v.fit),
)
says member l r create (uuid u) v row e h = cc
says member l r complete (payload j from tag) v row e h = ground arith
says member l r complete (uuid u) v row e h =
    echo_copy member l r u v row (ground arith) (ground arith)
says member l r cancel (payload j from tag) v row e h = ground arith
says member l r cancel (uuid u) v row e h =
    echo_copy member l r u v row (ground arith) (ground arith)

entry-IsOrdered :
    (member : RowId) (now : Time) (l : Ledger) (e : Entry)
    → IsValid l
    → Grant member now l e
    → IsOrdered member l e
entry-IsOrdered member now l e v g =
    let r = g.row in
    let parts = offer-parts now r g.offered in
    (
      r.transfer,
      ap (λ j. find_transfer j l)
            (parts.2 ∙ transfer-id r.delivery.transfer_id l.transfers g.from_query.joined)
          ∙ g.from_query.joined,
      subst (λ k. Says member l r.transfer k e.body) (sym parts.0)
          (says member l r r.delivery.kind e.body v g.from_query refl parts.1),
    )

-- Every entry of a lease on a valid ledger is for a transfer of the ledger. One of kind create goes to
-- the recipient, with the pushed payload and the handle and provenance tag of the member who sent it; one of a terminal kind goes
-- to the sender with the uuid of the sender's todo, or to the recipient with the uuid of the
-- recipient's copy, and then every create delivery of the transfer is done.
pub lease-IsOrdered :
    (now : Time) (p : Principal) (limit : ℕ) (seconds : Time) (l : Ledger)
    → IsValid l
    → All (IsOrdered p.member_id l) (entries (lease_deliveries now p limit seconds l))
lease-IsOrdered now p limit seconds l v =
    All-map _ _ (entries (lease_deliveries now p limit seconds l))
      (λ e h. entry-IsOrdered p.member_id now l e v h.0)
      (lease_deliveries-Grant now p limit seconds l v)
