-- ===== src/Hub/Invariant/Push.antt =====
-- `push_transfer` keeps the invariant.
use things_team.Base.{
  ◌≡◌, refl, sym, ap, subst, ℕ, ==→≡, ◌∙◌, String, true, false, not, ◌||◌, ◌&&◌, Option, none, some,
  List, ◌∷◌, [], ◌++◌, arith, inl, inr, ◌==◌, ==-refl, if◌then◌else◌, str_eq, Option-cases,
}
use things_team.Base.Table.{find, any}
use things_team.Base.Table.Laws.{All-map, All-both, find-append, find-any, any-append, or_else}
use things_team.Base.Table.Exists.{any-All, All-any}
use things_team.Base.Table.Distinct.{Distinct-append}
use things_team.Json.{Json, get, truthy, is_dict}
use things_team.Hub.Schema.{
  RowId, Member, create, Transfer, Delivery, Ledger, Principal, Draws, after,
}
use things_team.Hub.Rows.{
  eq_kind, is_null, collides, event, signal_delivery, queue_delivery, queue_row, new_delivery,
}
use things_team.Hub.Push.{
  clashes, same_push, rejects_transfer, new_transfer, insert_push, push_to, member_by_handle,
  push_transfer,
}
use things_team.Hub.Observe.{is_create_of}
use things_team.Hub.Invariant.{
  Fit, transfer_in, is_sound, is_deliverable, Serves, Tables, IsValid, IsValid-if, Fresh,
}
use things_team.Hub.Invariant.Frame.{clashes-swap}
use things_team.Hub.Invariant.Deliveries.{queue_row-any, queue_row-All, queue_row-Distinct}

-- A new transfer, with no copy yet, and its create delivery.
module _ (t : Transfer) (n : Delivery) (ts : List Transfer) (ds : List Delivery) (v : Tables ts ds)
    (fresh : any (λ e. e.id == n.id) ds ≡ false) (accepted : any (clashes t) ts ≡ false)
    (new_t : (is_sound t && is_null t.dst_uuid) ≡ true) (new_n : is_deliverable t n ≡ true)
    (create_n : (eq_kind n.kind create && n.to_member == t.to_member) ≡ true) where
  id_free : any (λ (x : Transfer). x.id == t.id) ts ≡ false
  id_free = All-any _ ts (All-map _ _ ts (λ x h. ground arith) (any-All (clashes t) ts accepted))

  transfer_in-added :
      (i : RowId)
      → transfer_in i (ts ++ t ∷ [])
        ≡ or_else (transfer_in i ts) (if t.id == i then some t else none)
  unfolding find
  transfer_in-added i = find-append (λ (x : Transfer). x.id == i) ts (t ∷ [])

  added_at : transfer_in t.id (ts ++ t ∷ []) ≡ some t
  added_at =
      rw
        (transfer_in-added t.id, find-any (λ (x : Transfer). x.id == t.id) ts id_free, ==-refl t.id)
        refl

  old-Fit : (e : Delivery) → Fit ts e → Fit (ts ++ t ∷ []) e
  old-Fit e f = ground (arith, transfer_in-added e.transfer_id)

  new-Fit : Fit (ts ++ t ∷ []) n
  new-Fit =
      let same : n.transfer_id ≡ t.id = ground arith in
      rw (ap (λ i. transfer_in i (ts ++ t ∷ [])) same ∙ added_at) (ground arith)

  -- No delivery of the table belongs to the new transfer, so none blocks the new row.
  row_free : (e : Delivery) → Fit ts e → (e.id == n.id) ≡ false → collides n e ≡ false
  row_free e f other =
      let old : (e.transfer_id == t.id) ≡ true → ⊥ = λ same. ground (
        arith,
        ap (λ i. transfer_in i ts) (==→≡ e.transfer_id t.id same),
        find-any (λ (x : Transfer). x.id == t.id) ts id_free,
      ) in
      ground (arith, old)

  pub unblocked : any (collides n) ds ≡ false
  unblocked = All-any (collides n) ds (
      All-map _ _ ds (λ e r. row_free e r.0 r.1)
        (All-both _ _ ds v.fit (any-All (λ e. e.id == n.id) ds fresh)))

  Serves-old : (u : Transfer) → Serves u ds → Serves u (queue_row n ds)
  unfolding queue_row
  Serves-old u s = record {
    sound = s.sound;
    created = queue_row-any (is_create_of u.id) n ds s.created;
    served = λ w. rw unblocked (ground (arith, s.served w, any-append (is_deliverable u) ds n));
  }

  Serves-new : Serves t (queue_row n ds)
  unfolding queue_row
  Serves-new = record {
    sound = ground arith;
    created = rw unblocked (ground (arith, any-append (is_create_of t.id) ds n));
    served = λ w. rw unblocked (ground (arith, any-append (is_deliverable t) ds n));
  }

  Serves-added :
      (i : RowId) (u : Transfer)
      → (o : Option Transfer) → transfer_in i ts ≡ o
      → or_else o (if t.id == i then some t else none) ≡ some u
      → Serves u (queue_row n ds)
  Serves-added i u none h e =
      let same : t ≡ u = ground arith in subst (λ x. Serves x (queue_row n ds)) same Serves-new
  Serves-added i u (some w) h e =
      let same : w ≡ u = ground arith in
      subst (λ x. Serves x (queue_row n ds)) same (Serves-old w (v.serves i w h))

  pub added-Tables : Tables (ts ++ t ∷ []) (queue_row n ds)
  added-Tables = record {
    keys = Distinct-append clashes clashes-swap t ts accepted v.keys;
    fit = queue_row-All _ n ds new-Fit (All-map _ _ ds old-Fit v.fit);
    distinct = queue_row-Distinct n ds v.distinct;
    serves = λ i u h. Serves-added i u (transfer_in i ts) refl (sym (transfer_in-added i) ∙ h);
  }

module _ (s : Draws) (p : Principal) (l : Ledger) (v : IsValid l) (fresh : Fresh s l)
    (to_handle src_uuid : String) (payload : Json) (rev : ℕ) where
  insert_push-IsValid :
      (to : Member)
      → (to.id == p.member_id) ≡ false
      → IsValid
          (after l (insert_push s p to_handle (new_transfer s p to.id src_uuid rev payload) l))
  unfolding insert_push rejects_transfer queue_delivery event signal_delivery
  insert_push-IsValid to other =
      let t = new_transfer s p to.id src_uuid rev payload in
      let n = new_delivery s.delivery t.id create t.to_member s.now in
      IsValid-if l (rejects_transfer t l) _ _ (λ rejected. v)
        (λ ok_row.
          added-Tables t n l.transfers l.deliveries v fresh (ground arith) (ground arith)
            (ground arith) (ground arith))

  push_to-IsValid :
      (to : Member) → IsValid (after l (push_to s p to_handle src_uuid payload rev to l))
  unfolding push_to
  push_to-IsValid to =
      IsValid-if l (to.id == p.member_id) _ _ (λ self. v)
        (λ other.
          IsValid-if l (not to.can_receive) _ _ (λ deaf. v)
            (λ hears.
              elim (Option-cases
                (find (same_push p.tenant_id p.member_id src_uuid rev) l.transfers)) [
                  | inl absent ↦ rw (absent, after) (insert_push-IsValid to other)
                  | inr (t, present) ↦ rw (present, after) v
                ]))

  pub push_transfer-IsValid :
      (normalize : String → String)
      → IsValid (after l (push_transfer normalize s p to_handle src_uuid payload rev l))
  unfolding push_transfer
  push_transfer-IsValid normalize =
      IsValid-if l (not p.can_send) _ _ (λ mute. v)
        (λ sends.
          IsValid-if l (str_eq src_uuid "" || not (is_dict payload)) _ _ (λ bad. v)
            (λ good.
              IsValid-if l (not (truthy (get "title" payload))) _ _ (λ untitled. v)
                (λ titled.
                  elim (Option-cases (member_by_handle normalize p.tenant_id to_handle l)) [
                    | inl absent ↦ rw (absent, after) v
                    | inr (to, present) ↦ rw (present, after) (push_to-IsValid to)
                  ])))
