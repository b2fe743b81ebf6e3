-- ===== src/Hub/History/Transfers.antt =====
-- No call loses a transfer, or takes one back.
use things_team.Base.{
  ◌≡◌, ◌⊎◌, refl, ap, ◌∙◌, String, ℕ, true, not, ◌&&◌, Option, none, some, List, ◌∷◌, [], ◌++◌,
  arith, inl, inr, ◌==◌, ==-refl, if◌then◌else◌, Bool-cases, Option-cases,
}
use mathlib.Core.Option.{get_or}
use things_team.Base.Table.{find, any, update}
use things_team.Base.Table.Laws.{or_else, find-append}
use things_team.Json.{Json}
use things_team.Hub.Schema.{
  RowId, Time, Terminal, completed, canceled, create, Transfer, Delivery, Ledger, Principal, Draws,
  Result, after,
}
use things_team.Hub.Rows.{
  eq_kind, is_done, find_transfer, event, signal_if, signal_delivery, queue_delivery,
}
use things_team.Hub.Push.{push_transfer, push_to, insert_push, member_by_handle, new_transfer}
use things_team.Hub.Lease.{lease_deliveries}
use things_team.Hub.Ack.{
  applied, resolved, find_delivery, resolve_transfer, finish_delivery, set_applied,
  queue_waiting_echo, ack_create, ack_terminal, ack_kind, ack_found, ack_delivery, requeue_delivery,
  nack_delivery,
}
use things_team.Hub.Observe.{
  with_terminal, set_terminal, withdraw_cancel, is_done_cancel, skip_delivery, skip_create,
  insert_echo, echo_by_create, echo_to, queue_echo, observe_first, upgrade, observe_set,
  is_observable, parse_terminal, observe,
}
use things_team.Hub.Invariant.{transfer_in, IsValid}
use things_team.Hub.Invariant.Frame.{Changes-update, transfer-id}
use things_team.Hub.Invariant.Ack.{FitAt-found}
use things_team.Hub.Invariant.ObserveSteps.{observable-found}
use things_team.Hub.History.{Call, push, lease, ack, nack, observation, perform, Reach}
use things_team.Hub.History.Reachable.{reachable-IsValid, perform-SameTables}
use things_team.Hub.History.Evolution.{
  Evolves, EvolvesIn, EvolvesIn-refl, EvolvesIn-trans, EvolvesIn-Changes, Evolves-refl,
  resolved-Evolves,
}

-- The transfers of `l` are there after a call, each as it was or further on.
abbrev Grows {ℓ} : {A : Type ℓ} → Ledger → Result A → Type 0
Grows l r = EvolvesIn l.transfers (after l r).transfers

same_transfers : (ts ts' : List Transfer) → ts' ≡ ts → EvolvesIn ts ts'
same_transfers ts ts' h = rw h (EvolvesIn-refl ts)

append-EvolvesIn : (ts : List Transfer) (t : Transfer) → EvolvesIn ts (ts ++ t ∷ [])
unfolding find
append-EvolvesIn ts t i u h = (
  u,
  find-append (λ (x : Transfer). x.id == i) ts (t ∷ [])
      ∙ ap (λ o. or_else o (find (λ (x : Transfer). x.id == i) (t ∷ []))) h,
  Evolves-refl u,
)

-- A terminal state where none was, or `completed` where `canceled` was.
terminal-Evolves :
    (x : Terminal) (m : RowId) (t : Transfer)
    → (t.terminal ≡ none) ⊎ ((t.terminal ≡ some canceled) × (x ≡ completed))
    → Evolves t (with_terminal x m t)
terminal-Evolves x m t h = ground arith

applied-Evolves :
    (now : Time) (dst : String) (t : Transfer) → t.dst_uuid ≡ none → Evolves t (applied now dst t)
applied-Evolves now dst t h = ground arith

resolve-EvolvesIn :
    (now : Time) (j : RowId) (l : Ledger) {t : Transfer}
    → find_transfer j l ≡ some t
    → EvolvesIn l.transfers (resolve_transfer now j l).transfers
unfolding resolve_transfer
resolve-EvolvesIn now j l {t} h =
    EvolvesIn-Changes j l.transfers _ t (resolved now t) h
      (Changes-update j (resolved now) l.transfers (λ x. refl) h) (resolved-Evolves now t)

added_transfers :
    (ts ts' : List Transfer) (t : Transfer) → (ts' ≡ ts) ⊎ (ts' ≡ ts ++ t ∷ []) → EvolvesIn ts ts'
added_transfers ts ts' t (inl same) = same_transfers ts ts' same
added_transfers ts ts' t (inr more) = rw more (append-EvolvesIn ts t)

module _ (s : Draws) (p : Principal) (l : Ledger) where
  push_transfer-Grows :
      (normalize : String → String) (to_handle src_uuid : String) (payload : Json) (rev : ℕ)
      → Grows l (push_transfer normalize s p to_handle src_uuid payload rev l)
  unfolding push_transfer push_to insert_push queue_delivery event signal_delivery
  push_transfer-Grows normalize to_handle src_uuid payload rev =
      elim (Option-cases (member_by_handle normalize p.tenant_id to_handle l)) [
        | inl absent ↦ same_transfers l.transfers _ (ground arith)
        | inr (to, present) ↦
            added_transfers l.transfers _ (new_transfer s p to.id src_uuid rev payload)
              (ground arith)
      ]

  nack_delivery-Grows : (i : RowId) (error : String) → Grows l (nack_delivery s p i error l)
  unfolding nack_delivery requeue_delivery event
  nack_delivery-Grows i error = same_transfers l.transfers _ (ground arith)

lease_deliveries-Grows :
    (now : Time) (p : Principal) (limit : ℕ) (seconds : Time) (l : Ledger)
    → Grows l (lease_deliveries now p limit seconds l)
unfolding lease_deliveries
lease_deliveries-Grows now p limit seconds l = same_transfers l.transfers _ (ground arith)

-- What an ack writes to its transfer `i`: nothing, or that it is resolved, or, for a create delivery
-- that is not done, the uuid of the copy.
AckWrites : Time → RowId → Delivery → String → List Transfer → List Transfer → Type 0
AckWrites now i d dst ts ts' =
    (ts' ≡ ts)
    ⊎ ((ts' ≡ update (λ (x : Transfer). x.id == i) (resolved now) ts)
        ⊎ ((ts' ≡ update (λ (x : Transfer). x.id == i) (applied now dst) ts)
            × ((eq_kind d.kind create && not (is_done d.state)) ≡ true)))

module _ (s : Draws) (p : Principal) (l : Ledger) (v : IsValid l) where
  ack_writes :
      (d : Delivery) (t : Transfer) (dst : Option String)
      → AckWrites s.now d.transfer_id d
          (get_or dst "")
          l.transfers
          (after l (ack_found s p d t dst l)).transfers
  unfolding AckWrites ack_found ack_kind ack_create ack_terminal finish_delivery set_applied
      resolve_transfer queue_waiting_echo event signal_if
  ack_writes d t none = ground arith
  ack_writes d t (some dst) = ground arith

  ack_found-Grows :
      (i : RowId) (dst : Option String) {d : Delivery} {t : Transfer}
      → find_delivery i p.member_id l ≡ some d
      → find_transfer d.transfer_id l ≡ some t
      → Grows l (ack_found s p d t dst l)
  unfolding AckWrites
  ack_found-Grows i dst {d} {t} hd ht = elim (ack_writes d t dst) [
    | inl same ↦ same_transfers l.transfers _ same
    | inr (inl done_now) ↦
        rw done_now (unfold resolve_transfer in resolve-EvolvesIn s.now d.transfer_id l ht)
    | inr (inr (w, k)) ↦ rw w (
        EvolvesIn-Changes d.transfer_id l.transfers _ t (applied s.now (get_or dst "") t) ht
          (Changes-update d.transfer_id (applied s.now (get_or dst "")) l.transfers (λ x. refl) ht)
          (applied-Evolves s.now (get_or dst "") t
            (ground (arith, FitAt-found d.transfer_id t l.transfers l.deliveries v ht _ hd refl))))
  ]

  ack_delivery-Grows : (i : RowId) (dst : Option String) → Grows l (ack_delivery s p i dst l)
  unfolding ack_delivery
  ack_delivery-Grows i dst = elim (Option-cases (find_delivery i p.member_id l)) [
    | inl missing ↦ same_transfers l.transfers _ (ground arith)
    | inr (d, hd) ↦ elim (Option-cases (find_transfer d.transfer_id l)) [
      | inl missing ↦ same_transfers l.transfers _ (ground arith)
      | inr (t, ht) ↦ rw (hd, ht, after) (ack_found-Grows i dst hd ht)
    ]
  ]

-- An echo resolves its transfer or leaves it.
pub queue_echo-transfers :
    (s : Draws) (i : RowId) (x : Terminal) (l : Ledger) {t : Transfer}
    → find_transfer i l ≡ some t
    → ((queue_echo s i x l).1.transfers ≡ l.transfers)
      ⊎ ((queue_echo s i x l).1.transfers ≡ (resolve_transfer s.now t.id l).transfers)
unfolding queue_echo echo_to echo_by_create insert_echo skip_create skip_delivery resolve_transfer
    queue_delivery event
queue_echo-transfers s i x l {t} h = ground arith

queue_echo-EvolvesIn :
    (s : Draws) (i : RowId) (x : Terminal) (l : Ledger) {t : Transfer}
    → find_transfer i l ≡ some t
    → EvolvesIn l.transfers (queue_echo s i x l).1.transfers
queue_echo-EvolvesIn s i x l {t} h = elim (queue_echo-transfers s i x l h) [
  | inl same ↦ same_transfers l.transfers _ same
  | inr moved ↦ rw moved (
      resolve-EvolvesIn s.now t.id l
        (ap (λ k. find_transfer k l) (transfer-id i l.transfers h) ∙ h))
]

module _ (s : Draws) (p : Principal) (i : RowId) (l : Ledger) {t : Transfer}
    (h : find_transfer i l ≡ some t) where
  -- The write of a terminal state, whatever becomes of the deliveries, and the echo after it.
  set_and_echo :
      (x : Terminal) (l1 : Ledger)
      → l1.transfers ≡ (set_terminal x p.member_id i l).transfers
      → (t.terminal ≡ none) ⊎ ((t.terminal ≡ some canceled) × (x ≡ completed))
      → EvolvesIn l.transfers (queue_echo s i x l1).1.transfers
  unfolding set_terminal
  set_and_echo x l1 e new =
      let u = with_terminal x p.member_id t in
      let c = Changes-update i (with_terminal x p.member_id) l.transfers (λ y. refl) h in
      let now_u : find_transfer i l1 ≡ some u =
        ap (λ ts. transfer_in i ts) e
        ∙ c i
        ∙ ap (λ b. if b then some u else transfer_in i l.transfers) (==-refl i) in
      EvolvesIn-trans l.transfers l1.transfers _
        (rw e (EvolvesIn-Changes i l.transfers _ t u h c (terminal-Evolves x p.member_id t new)))
        (queue_echo-EvolvesIn s i x l1 now_u)

  observe_set-Grows :
      (o : Option Terminal) (x : Terminal) → t.terminal ≡ o → Grows l (observe_set s p i o x l)
  unfolding observe_set observe_first upgrade withdraw_cancel event signal_if
  observe_set-Grows none x e = set_and_echo x _ refl (inl e)
  observe_set-Grows (some completed) x e = EvolvesIn-refl l.transfers
  observe_set-Grows (some canceled) canceled e = EvolvesIn-refl l.transfers
  observe_set-Grows (some canceled) completed e =
      elim (Bool-cases (any (is_done_cancel i) l.deliveries)) [
        | inl late ↦ rw (late, after) (EvolvesIn-refl l.transfers)
        | inr early ↦ rw (early, after) (set_and_echo completed _ refl (inr (e, refl)))
      ]

observe-Grows :
    (s : Draws) (p : Principal) (i : RowId) (state : String) (l : Ledger)
    → IsValid l
    → Grows l (observe s p i state l)
unfolding observe
observe-Grows s p i state l v = elim (Option-cases (parse_terminal state)) [
  | inl unknown ↦ same_transfers l.transfers _ (ground arith)
  | inr (x, known) ↦ elim (Option-cases (find (is_observable p i) l.transfers)) [
    | inl absent ↦ same_transfers l.transfers _ (ground arith)
    | inr (t, h) ↦
        rw (known, h, after)
          (observe_set-Grows s p i l (observable-found p i l.transfers v.keys h) t.terminal x refl)
  ]
]

module _ (normalize hash : String → String) where
  perform-EvolvesIn :
      (c : Call) (l : Ledger)
      → IsValid l
      → EvolvesIn l.transfers (perform normalize hash c l).transfers
  unfolding perform
  perform-EvolvesIn (push s p to_handle src_uuid payload rev) l v =
      push_transfer-Grows s p l normalize to_handle src_uuid payload rev
  perform-EvolvesIn (lease now p limit seconds) l v = lease_deliveries-Grows now p limit seconds l
  perform-EvolvesIn (ack s p i dst) l v = ack_delivery-Grows s p l v i dst
  perform-EvolvesIn (nack s p i error) l v = nack_delivery-Grows s p l i error
  perform-EvolvesIn (observation s p i state) l v = observe-Grows s p i state l v
  perform-EvolvesIn c l v =
      same_transfers l.transfers _ (perform-SameTables normalize hash c l refl).0

  -- Whatever the next call of a hub, a transfer of a reachable ledger is still there after it, with the
  -- columns of its push; its `dst_uuid`, `applied_at` and `resolved_at` are as they were if they were
  -- set; and its terminal state, if it was set, is as it was, or `completed` where it was `canceled`.
  pub transfer-Evolves :
      {l : Ledger}
      → Reach normalize hash l
      → (c : Call) (i : RowId) {t : Transfer} → find_transfer i l ≡ some t
      → (t' : Transfer) × (find_transfer i (perform normalize hash c l) ≡ some t') × Evolves t t'
  transfer-Evolves {l} r c i {t} h =
      perform-EvolvesIn c l (reachable-IsValid normalize hash r) i t h
