-- ===== src/Hub/Push/Effect.antt =====
-- What a push that is no replay leaves in the tables.
use things_team.Base.{
  ◌≡◌, ℕ, ◌+◌, String, Bool, true, false, ◌&&◌, some, arith, inl, inr, ◌==◌, ==-refl, Option-cases,
}
use things_team.Base.Table.{find, any}
use things_team.Base.Table.Laws.{find-any, any-append}
use things_team.Base.Table.Exists.{any-imp_false}
use things_team.Json.{Json}
use things_team.Hub.Schema.{
  RowId, create, DeliveryState, queued, Member, Transfer, Delivery, Ledger, Principal, Draws, ok,
}
use things_team.Hub.Rows.{
  eq_kind, find_transfer, event, signal_delivery, queue_delivery, queue_row, new_delivery,
}
use things_team.Hub.Push.{
  Receipt, member_by_handle, same_push, clashes, rejects_transfer, new_transfer, insert_push,
  push_to, push_transfer,
}
use things_team.Hub.Push.Replay.{find-added}
use things_team.Hub.Invariant.{IsValid, Fresh}
use things_team.Hub.Invariant.Push.{unblocked}

abbrev pub is_queued : DeliveryState → Bool
is_queued queued = true
is_queued _ = false

-- A create delivery of `i` to `to` that waits in the queue.
abbrev pub is_queued_create : RowId → RowId → Delivery → Bool
is_queued_create i to d =
    d.transfer_id == i && eq_kind d.kind create && d.to_member == to && is_queued d.state

module _ (s : Draws) (p : Principal) (l : Ledger) (v : IsValid l) (fresh : Fresh s l)
    (to_handle src_uuid : String) (payload : Json) (rev : ℕ) where
  inserted :
      (to : Member) (l' : Ledger) (r : Receipt)
      → (to.id == p.member_id) ≡ false
      → insert_push s p to_handle (new_transfer s p to.id src_uuid rev payload) l ≡ ok r l'
      → (find_transfer r.id l' ≡ some (new_transfer s p to.id src_uuid rev payload))
        × (any (is_queued_create r.id to.id) l'.deliveries ≡ true)
        × (l'.delivery_gen ≡ l.delivery_gen + 1)
  unfolding insert_push rejects_transfer queue_delivery queue_row event signal_delivery
  inserted to l' r other h =
      let t = new_transfer s p to.id src_uuid rev payload in
      let n = new_delivery s.delivery t.id create t.to_member s.now in
      let accepted : any (clashes t) l.transfers ≡ false = ground arith in
      let id_free =
        any-imp_false (clashes t) (λ x. x.id == t.id) l.transfers (λ x k. ground arith) accepted in
      let row =
        find-added (λ (x : Transfer). x.id == t.id) l.transfers t (find-any _ l.transfers id_free)
          (==-refl t.id) in
      let free =
        unblocked t n l.transfers l.deliveries v fresh accepted (ground arith) (ground arith)
          (ground arith) in
      (
        ground (arith, row),
        ground (arith, free, any-append (is_queued_create t.id to.id) l.deliveries n),
        ground arith,
      )

  -- On a valid ledger, with a new uuid for the delivery: a push that returns `r`, no duplicate, has
  -- found the member with the handle, and left under the id of `r` a transfer from the caller to
  -- that member, with the source uuid, revision and payload as they were given, a create delivery
  -- of it to that member in the queue, and one more generation.
  pub push_effect :
      (normalize : String → String) {l' : Ledger} {r : Receipt}
      → push_transfer normalize s p to_handle src_uuid payload rev l ≡ ok r l'
      → r.deduped ≡ false
      → (to : Member) × (member_by_handle normalize p.tenant_id to_handle l ≡ some to)
        × (find_transfer r.id l' ≡ some (new_transfer s p to.id src_uuid rev payload))
        × (any (is_queued_create r.id to.id) l'.deliveries ≡ true)
        × (l'.delivery_gen ≡ l.delivery_gen + 1)
  unfolding push_transfer push_to
  push_effect normalize {l'} {r} h new =
      elim (Option-cases (member_by_handle normalize p.tenant_id to_handle l)) [
        | inl absent ↦ absurd (ground arith)
        | inr (to, present) ↦
            elim (Option-cases
              (find (same_push p.tenant_id p.member_id src_uuid rev) l.transfers)) [
                | inl first ↦
                    let done = inserted to l' r (ground arith) (ground arith) in
                    (to, present, done.0, done.1, done.2)
                | inr (t, old) ↦ absurd (ground arith)
              ]
      ]
