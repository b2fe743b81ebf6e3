-- ===== src/Hub/History/Signals.antt =====
-- What a call may do to the deliveries without a signal, and the calls but `observe`.
use things_team.Base.{
  ◌≡◌, ◌⊎◌, refl, ap, ◌∙◌, ℕ, suc, ◌+◌, String, Bool, false, not, Option, none, some, List, ◌∷◌, [],
  arith, inl, inr, ◌==◌, Bool-cases, Option-cases,
}
use things_team.Base.Table.{any, update}
use things_team.Base.Table.Exists.{any-update, All-always}
use things_team.Json.{Json}
use things_team.Hub.Schema.{RowId, Time, Transfer, Delivery, Ledger, Principal, Draws, after}
use things_team.Hub.Rows.{find_transfer, event, signal_delivery, signal_if, queue_delivery}
use things_team.Hub.Push.{member_by_handle, push_transfer, push_to, insert_push}
use things_team.Hub.Lease.{
  LeaseRow, mark_leased, leased_to, lease_loop, lease_rows, lease_deliveries,
}
use things_team.Hub.Lease.Loop.{lease_cases}
use things_team.Hub.Ack.{
  find_delivery, finished, finish_delivery, set_applied, resolve_transfer, waiting_echo,
  queue_waiting_echo, ack_create, ack_terminal, ack_kind, ack_found, ack_delivery, requeued,
  requeue_delivery, nack_delivery, clip,
}

abbrev pub has_id : RowId → Delivery → Bool
has_id k d = d.id == k

-- The delivery `k` is no new one, or the generation has moved on by one.
unfoldable pub Signals : RowId → Ledger → Ledger → Type 0
Signals k l l' =
    (any (has_id k) l.deliveries ≡ false → any (has_id k) l'.deliveries ≡ false)
    ⊎ (l'.delivery_gen ≡ l.delivery_gen + 1)

pub same-Signals : (k : RowId) (l l' : Ledger) → l'.deliveries ≡ l.deliveries → Signals k l l'
unfolding Signals
same-Signals k l l' h = inl (λ e. ap (any (has_id k)) h ∙ e)

-- An update that writes no id makes no new delivery.
update-has_id :
    (k : RowId) (p : Delivery → Bool) (g : Delivery → Delivery) (ds : List Delivery)
    → ((d : Delivery) → (g d).id ≡ d.id)
    → any (has_id k) (update p g ds) ≡ any (has_id k) ds
update-has_id k p g ds h = any-update (has_id k) p g ds (All-always _ ds (λ d e. rw (h d)))

pub update-Signals :
    (k : RowId) (p : Delivery → Bool) (g : Delivery → Delivery) (l l' : Ledger)
    → ((d : Delivery) → (g d).id ≡ d.id)
    → l'.deliveries ≡ update p g l.deliveries
    → Signals k l l'
unfolding Signals
update-Signals k p g l l' h e =
    inl (λ no. ap (any (has_id k)) e ∙ update-has_id k p g l.deliveries h ∙ no)

loop-has_id :
    (k device : RowId) (now expires : Time) (limit n : ℕ) (rows : List LeaseRow)
    (ds : List Delivery)
    → any (has_id k) (lease_loop device now expires limit n rows ds).1 ≡ any (has_id k) ds
unfolding lease_loop mark_leased
loop-has_id k device now expires limit n [] ds = refl
loop-has_id k device now expires limit n (r ∷ rs) ds =
    lease_cases device now expires limit n r rs ds (λ x. any (has_id k) x.1 ≡ any (has_id k) ds)
      (λ full. refl) (λ room skip. loop-has_id k device now expires limit n rs ds)
      (λ e room given same.
        loop-has_id k device now expires limit (suc n) rs (mark_leased device expires e.id ds)
        ∙ update-has_id k (λ d. d.id == e.id) (leased_to device expires) ds (λ d. refl))

-- What a call does to the deliveries: nothing, an update that writes no id, or a signal.
abbrev Writes : (Delivery → Bool) → (Delivery → Delivery) → Ledger → Ledger → Type 0
Writes p g l l' =
    (l'.deliveries ≡ l.deliveries)
    ⊎ ((l'.deliveries ≡ update p g l.deliveries) ⊎ (l'.delivery_gen ≡ l.delivery_gen + 1))

pub Writes-Signals :
    (k : RowId) (p : Delivery → Bool) (g : Delivery → Delivery) (l l' : Ledger)
    → ((d : Delivery) → (g d).id ≡ d.id)
    → Writes p g l l'
    → Signals k l l'
unfolding Signals
Writes-Signals k p g l l' h (inl same) = same-Signals k l l' same
Writes-Signals k p g l l' h (inr (inl moved)) = update-Signals k p g l l' h moved
Writes-Signals k p g l l' h (inr (inr woken)) = inr woken

module _ (k : RowId) (s : Draws) (p : Principal) (l : Ledger) where
  woken :
      (normalize : String → String) (to_handle src_uuid : String) (payload : Json) (rev : ℕ)
      → let l' = after l (push_transfer normalize s p to_handle src_uuid payload rev l) in
        (l'.deliveries ≡ l.deliveries) ⊎ (l'.delivery_gen ≡ l.delivery_gen + 1)
  unfolding push_transfer push_to insert_push signal_delivery event queue_delivery
  woken normalize to_handle src_uuid payload rev =
      elim (Option-cases (member_by_handle normalize p.tenant_id to_handle l)) [
        | inl absent ↦ ground arith
        | inr (to, present) ↦ ground arith
      ]

  push-Writes :
      (normalize : String → String) (to_handle src_uuid : String) (payload : Json) (rev : ℕ)
      → Writes
          (λ d. false)
          (λ d. d)
          l
          (after l (push_transfer normalize s p to_handle src_uuid payload rev l))
  push-Writes normalize to_handle src_uuid payload rev =
      elim (woken normalize to_handle src_uuid payload rev) [
        | inl same ↦ inl same
        | inr new ↦ inr (inr new)
      ]

  pub push-Signals :
      (normalize : String → String) (to_handle src_uuid : String) (payload : Json) (rev : ℕ)
      → Signals k l (after l (push_transfer normalize s p to_handle src_uuid payload rev l))
  push-Signals normalize to_handle src_uuid payload rev =
      Writes-Signals k (λ d. false) (λ d. d) l _ (λ d. refl)
        (push-Writes normalize to_handle src_uuid payload rev)

  ack_found-Signals :
      (d : Delivery) (t : Transfer) (dst : Option String)
      → Signals k l (after l (ack_found s p d t dst l))
  unfolding ack_found ack_kind ack_create ack_terminal event signal_if queue_waiting_echo
      waiting_echo finish_delivery set_applied resolve_transfer
  ack_found-Signals d t none =
      Writes-Signals k (λ x. x.id == d.id) (finished s.now) l _ (λ x. refl) (ground arith)
  ack_found-Signals d t (some dst) =
      Writes-Signals k (λ x. x.id == d.id) (finished s.now) l _ (λ x. refl) (ground arith)

  pub ack-Signals :
      (i : RowId) (dst : Option String) → Signals k l (after l (ack_delivery s p i dst l))
  unfolding ack_delivery
  ack-Signals i dst = elim (Option-cases (find_delivery i p.member_id l)) [
    | inl missing ↦ rw (missing, after) (same-Signals k l l refl)
    | inr (d, hd) ↦ elim (Option-cases (find_transfer d.transfer_id l)) [
      | inl missing ↦ rw (hd, missing, after) (same-Signals k l l refl)
      | inr (t, ht) ↦ rw (hd, ht, after) (ack_found-Signals d t dst)
    ]
  ]

  pub nack-Signals :
      (i : RowId) (error : String) → Signals k l (after l (nack_delivery s p i error l))
  unfolding nack_delivery requeue_delivery event
  nack-Signals i error =
      Writes-Signals k (λ d. d.id == i) (requeued (clip 500 error)) l _ (λ d. refl) (ground arith)

pub lease-Signals :
    (k : RowId) (now : Time) (p : Principal) (limit : ℕ) (seconds : Time) (l : Ledger)
    → Signals k l (after l (lease_deliveries now p limit seconds l))
unfolding Signals lease_deliveries
lease-Signals k now p limit seconds l = elim (Bool-cases (not p.can_receive)) [
  | inl deaf ↦ rw (deaf, after) (inl (λ e. e))
  | inr hears ↦
      rw (hears, after)
        (inl (λ e.
          loop-has_id k p.device_id now (now + seconds) limit 0 (lease_rows p.member_id l)
            l.deliveries
          ∙ e))
]
