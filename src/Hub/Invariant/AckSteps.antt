-- ===== src/Hub/Invariant/AckSteps.antt =====
-- `ack_delivery` and `nack_delivery` keep the invariant.
use things_team.Base.{
  ◌≡◌, refl, String, true, false, Option, none, some, ◌&&◌, arith, inl, inr, ◌==◌, Bool-cases,
  Option-cases,
}
use things_team.Base.Table.Laws.{find-holds}
use things_team.Hub.Schema.{
  RowId, Kind, create, complete, cancel, Transfer, Delivery, Ledger, Principal, Draws, after,
}
use things_team.Hub.Rows.{eq_kind, is_done, has_text, find_transfer, event, signal_if}
use things_team.Hub.Ack.{
  find_delivery, finish_delivery, set_applied, resolve_transfer, queue_waiting_echo, ack_create,
  ack_terminal, ack_kind, ack_found, ack_delivery, requeue_delivery, nack_delivery, clip,
}
use things_team.Hub.Invariant.{IsValid, Fresh}
use things_team.Hub.Invariant.Ack.{terminal-Tables, create-Tables, requeued-Tables}

module _ (s : Draws) (p : Principal) (l : Ledger) (v : IsValid l) (fresh : Fresh s l) where
  module _ (i : RowId) {d : Delivery} {t : Transfer} (hd : find_delivery i p.member_id l ≡ some d)
      (ht : find_transfer d.transfer_id l ≡ some t) where
    ack_create-IsValid :
        (dst : Option String)
        → eq_kind d.kind create ≡ true
        → IsValid (after l (ack_create s p d t dst l))
    unfolding ack_create finish_delivery set_applied queue_waiting_echo event signal_if
    ack_create-IsValid none k = v
    ack_create-IsValid (some dst) k = elim (Bool-cases (has_text (some dst))) [
      | inl text ↦ rw text (
          create-Tables d.transfer_id t l.transfers l.deliveries v ht
            (λ e. e.id == i && e.to_member == p.member_id) hd refl s dst t.terminal refl k text
            fresh)
      | inr empty ↦ rw empty v
    ]

    ack_terminal-IsValid : eq_kind d.kind create ≡ false → IsValid (after l (ack_terminal s p d l))
    unfolding ack_terminal finish_delivery resolve_transfer event
    ack_terminal-IsValid k =
        terminal-Tables d.transfer_id t l.transfers l.deliveries v ht
          (λ e. e.id == i && e.to_member == p.member_id) hd refl s.now k

    ack_kind-IsValid :
        (k : Kind) (dst : Option String) → d.kind ≡ k → IsValid (after l (ack_kind k s p d t dst l))
    unfolding ack_kind
    ack_kind-IsValid create dst e = ack_create-IsValid dst (rw e)
    ack_kind-IsValid complete dst e = ack_terminal-IsValid (rw e)
    ack_kind-IsValid cancel dst e = ack_terminal-IsValid (rw e)

    ack_found-IsValid : (dst : Option String) → IsValid (after l (ack_found s p d t dst l))
    unfolding ack_found
    ack_found-IsValid dst = elim (Bool-cases (is_done d.state)) [
      | inl over ↦ rw over v
      | inr open_row ↦ rw open_row (ack_kind-IsValid d.kind dst refl)
    ]

  pub ack_delivery-IsValid :
      (i : RowId) (dst : Option String) → IsValid (after l (ack_delivery s p i dst l))
  unfolding ack_delivery
  ack_delivery-IsValid i dst = elim (Option-cases (find_delivery i p.member_id l)) [
    | inl missing ↦ rw (missing, after) v
    | inr (d, hd) ↦ elim (Option-cases (find_transfer d.transfer_id l)) [
      | inl missing ↦ rw (hd, missing, after) v
      | inr (t, ht) ↦ rw (hd, ht, after) (ack_found-IsValid i hd ht dst)
    ]
  ]

pub nack_delivery-IsValid :
    (s : Draws) (p : Principal) (l : Ledger) (i : RowId) (error : String)
    → IsValid l
    → IsValid (after l (nack_delivery s p i error l))
unfolding nack_delivery requeue_delivery event
nack_delivery-IsValid s p l i error v = elim (Option-cases (find_delivery i p.member_id l)) [
  | inl missing ↦ rw (missing, after) v
  | inr (d, hd) ↦ elim (Bool-cases (is_done d.state)) [
    | inl over ↦ rw (hd, over, after) v
    | inr open_row ↦
        rw (hd, open_row, after)
          (let same : d.id ≡ i = ground (arith, find-holds _ l.deliveries hd) in
            rw (← same) (requeued-Tables l.transfers l.deliveries _ (clip 500 error) v hd open_row))
  ]
]
