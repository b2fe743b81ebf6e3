-- ===== src/Hub/Invariant/ObserveSteps.antt =====
-- `observe` keeps the invariant.
use things_team.Base.{
  ◌≡◌, refl, String, true, false, Option, none, some, List, arith, inl, inr, ◌==◌, Bool-cases,
  Option-cases,
}
use things_team.Base.Table.{find, any, update, delete}
use things_team.Base.Table.Laws.{All, All-map, All-both, All-kept, find-holds}
use things_team.Base.Table.Exists.{any-All, any-delete-false}
use things_team.Base.Table.Distinct.{Distinct, Distinct-update, Distinct-delete}
use things_team.Hub.Schema.{
  RowId, Terminal, completed, canceled, Transfer, Delivery, Ledger, Principal, Draws, after,
}
use things_team.Hub.Rows.{collides, event, signal_if}
use things_team.Hub.Push.{clashes}
use things_team.Hub.Observe.{
  is_create_of, is_open_cancel, is_done_cancel, is_observable, with_terminal, set_terminal,
  withdraw_cancel, observe_first, upgrade, observe_set, parse_terminal, observe,
}
use things_team.Hub.Invariant.{transfer_in, IsValid, Fresh}
use things_team.Hub.Invariant.Frame.{
  Changes-update, Elsewhere, FitAfter, transfer-id, transfer_in-find,
}
use things_team.Hub.Invariant.Deliveries.{Elsewhere-delete, created-delete}
use things_team.Hub.Invariant.Ack.{FitAfter-refl}
use things_team.Hub.Invariant.Observe.{Pending, queue_echo-IsValid}

first_row :
    (i : RowId) (t : Transfer) (ts : List Transfer) (x : Terminal) (m : RowId) (e : Delivery)
    → t.terminal ≡ none
    → FitAfter i t ts e
    → FitAfter i (with_terminal x m t) ts e
unfolding FitAfter
first_row i t ts x m e open_t f = ground arith

-- Once the open cancels are withdrawn and none is done, no cancel is left.
upgraded_row :
    (i : RowId) (t : Transfer) (ts : List Transfer) (m : RowId) (e : Delivery)
    → t.terminal ≡ some canceled
    → FitAfter i t ts e
    → is_done_cancel i e ≡ false
    → is_open_cancel i e ≡ false
    → FitAfter i (with_terminal completed m t) ts e
unfolding FitAfter
upgraded_row i t ts m e was f undone kept = ground arith

module _ (s : Draws) (p : Principal) (l : Ledger) (v : IsValid l) (fresh : Fresh s l) (i : RowId)
    {t : Transfer} (found : transfer_in i l.transfers ≡ some t) where
  set_changes :
      (x : Terminal) (ds : List Delivery)
      → All (FitAfter i (with_terminal x p.member_id t) l.transfers) ds
      → Distinct collides ds
      → Elsewhere i l.deliveries ds
      → any (is_create_of t.id) ds ≡ true
      → Pending i
          (with_terminal x p.member_id t)
          x
          l.transfers
          l.deliveries
          (update (λ (y : Transfer). y.id == i) (with_terminal x p.member_id) l.transfers)
          ds
  set_changes x ds fit distinct elsewhere created = record {
    before = v;
    changes = Changes-update i (with_terminal x p.member_id) l.transfers (λ y. refl) found;
    keys = Distinct-update clashes _ _ l.transfers (λ y z. refl) (λ y z. refl) v.keys;
    fit = fit;
    distinct = distinct;
    elsewhere = elsewhere;
    sound = ground (arith, (v.serves i t found).sound);
    at_i = transfer-id i l.transfers found;
    created = created;
    terminal = refl;
  }

  observe_first-IsValid :
      (x : Terminal) → t.terminal ≡ none → IsValid (after l (observe_first s p i x l))
  unfolding observe_first set_terminal event signal_if
  observe_first-IsValid x open_t =
      queue_echo-IsValid i (with_terminal x p.member_id t) x l.transfers l.deliveries _ s
        (set_changes x l.deliveries
          (All-map _ _ l.deliveries (λ e f. first_row i t l.transfers x p.member_id e open_t f)
            (FitAfter-refl i t l.transfers l.deliveries v found))
          v.distinct (λ q n. refl) (v.serves i t found).created)
        fresh

  upgrade-IsValid : t.terminal ≡ some canceled → IsValid (after l (upgrade s p i l))
  unfolding upgrade set_terminal withdraw_cancel event signal_if
  upgrade-IsValid was = elim (Bool-cases (any (is_done_cancel i) l.deliveries)) [
    | inl late ↦ rw (late, after) v
    | inr early ↦
        rw (early, after)
          (queue_echo-IsValid i (with_terminal completed p.member_id t) completed l.transfers
            l.deliveries _ s
            (set_changes completed (delete (is_open_cancel i) l.deliveries)
              (All-map _ _ _ (λ e r. upgraded_row i t l.transfers p.member_id e was r.0.0 r.0.1 r.1)
                (All-kept _ (is_open_cancel i) l.deliveries (
                  All-both _ _ l.deliveries (FitAfter-refl i t l.transfers l.deliveries v found)
                    (any-All (is_done_cancel i) l.deliveries early))))
              (Distinct-delete collides (is_open_cancel i) l.deliveries v.distinct)
              (Elsewhere-delete i (is_open_cancel i) l.deliveries (λ e pe. ground arith))
              (created-delete t.id i l.deliveries (v.serves i t found).created))
            (any-delete-false _ (is_open_cancel i) l.deliveries fresh))
  ]

  observe_set-IsValid :
      (o : Option Terminal) (x : Terminal)
      → t.terminal ≡ o
      → IsValid (after l (observe_set s p i o x l))
  unfolding observe_set
  observe_set-IsValid none x e = observe_first-IsValid x e
  observe_set-IsValid (some completed) x e = v
  observe_set-IsValid (some canceled) canceled e = v
  observe_set-IsValid (some canceled) completed e = upgrade-IsValid e

-- The row that `observe` finds is the one with the id, whatever else it asks for.
pub observable-found :
    (p : Principal) (i : RowId) (ts : List Transfer) {t : Transfer}
    → Distinct clashes ts
    → find (is_observable p i) ts ≡ some t
    → transfer_in i ts ≡ some t
observable-found p i ts d h =
    transfer_in-find i (is_observable p i) ts d h
      (ground (arith, find-holds (is_observable p i) ts h))

pub observe-IsValid :
    (s : Draws) (p : Principal) (i : RowId) (state : String) (l : Ledger)
    → Fresh s l
    → IsValid l
    → IsValid (after l (observe s p i state l))
unfolding observe
observe-IsValid s p i state l fresh v = elim (Option-cases (parse_terminal state)) [
  | inl unknown ↦ rw (unknown, after) v
  | inr (x, known) ↦ elim (Option-cases (find (is_observable p i) l.transfers)) [
    | inl absent ↦ rw (known, absent, after) v
    | inr (t, h) ↦
        rw (known, h, after)
          (observe_set-IsValid s p l v fresh i (observable-found p i l.transfers v.keys h)
            t.terminal x refl)
  ]
]
