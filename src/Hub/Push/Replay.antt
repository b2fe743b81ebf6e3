-- ===== src/Hub/Push/Replay.antt =====
-- A push is idempotent, and delivers what it was given.
use text.Mathlib.TextPositions.{eq_refl}
use things_team.Base.{
  ◌≡◌, ℕ, String, Bool, true, none, some, List, ◌∷◌, [], ◌++◌, arith, inl, inr, Option-cases,
}
use things_team.Base.Table.{find}
use things_team.Base.Table.Laws.{find-append}
use things_team.Json.{Json}
use things_team.Hub.Schema.{RowId, Member, Transfer, Ledger, Principal, Draws, ok}
use things_team.Hub.Rows.{event, signal_delivery, queue_delivery}
use things_team.Hub.Push.{
  Receipt, member_by_handle, same_push, new_transfer, insert_push, push_to, push_transfer,
}

same_push-new :
    (s : Draws) (p : Principal) (to : RowId) (src_uuid : String) (rev : ℕ) (payload : Json)
    → same_push p.tenant_id p.member_id src_uuid rev (new_transfer s p to src_uuid rev payload)
      ≡ true
same_push-new s p to src_uuid rev payload = ground (arith, eq_refl src_uuid)

pub find-added :
    (q : Transfer → Bool) (ts : List Transfer) (t : Transfer)
    → find q ts ≡ none
    → q t ≡ true
    → find q (ts ++ t ∷ []) ≡ some t
unfolding find
find-added q ts t h k = ground (arith, find-append q ts (t ∷ []))

push_to_replay :
    (s s' : Draws) (p : Principal) (to_handle src_uuid : String) (payload : Json) (rev : ℕ)
    (to : Member) (l l' : Ledger) (r : Receipt)
    → push_to s p to_handle src_uuid payload rev to l ≡ ok r l'
    → (push_to s' p to_handle src_uuid payload rev to l' ≡ ok (record r { deduped = true }) l')
      × (l'.members ≡ l.members)
unfolding push_to insert_push event signal_delivery queue_delivery
push_to_replay s s' p to_handle src_uuid payload rev to l l' r h =
    elim (Option-cases (find (same_push p.tenant_id p.member_id src_uuid rev) l.transfers)) [
      | inl new ↦ ground (
        arith,
        find-added (same_push p.tenant_id p.member_id src_uuid rev) l.transfers
            (new_transfer s p to.id src_uuid rev payload) new
            (same_push-new s p to.id src_uuid rev payload),
      )
      | inr (t, old) ↦ ground arith
    ]

-- After a push that returns `r`, the same push again on the ledger that it has left, with no other call in
-- between, returns `r` as a duplicate and changes nothing, whatever time and ids it draws.
pub push_replay :
    (normalize : String → String) (s s' : Draws) (p : Principal) (to_handle src_uuid : String)
    (payload : Json) (rev : ℕ) (l l' : Ledger) (r : Receipt)
    → push_transfer normalize s p to_handle src_uuid payload rev l ≡ ok r l'
    → push_transfer normalize s' p to_handle src_uuid payload rev l'
      ≡ ok (record r { deduped = true }) l'
unfolding push_transfer member_by_handle
push_replay normalize s s' p to_handle src_uuid payload rev l l' r h =
    elim (Option-cases (member_by_handle normalize p.tenant_id to_handle l)) [
      | inl absent ↦ ground arith
      | inr (to, present) ↦
          ground (arith, push_to_replay s s' p to_handle src_uuid payload rev to l l' r)
    ]
