-- ===== src/Hub/Invariant/Deliveries.antt =====
-- The statements on the table of deliveries, in the terms of the invariant.
use things_team.Base.{
  ◌≡◌, refl, sym, ◌∙◌, Bool, true, false, some, List, arith, inl, inr, ◌==◌, Bool-cases,
}
use things_team.Base.Table.{find, any, update, delete}
use things_team.Base.Table.Laws.{All, All-map, All-append, All-both, any-append}
use things_team.Base.Table.Exists.{any-update, any-delete, any-All, any-imp, All-always}
use things_team.Base.Table.Distinct.{Distinct, Distinct-append, Distinct-find}
use things_team.Hub.Schema.{RowId, Time, Terminal, completed, canceled, create, Transfer, Delivery}
use things_team.Hub.Rows.{new_delivery, echo_kind, eq_kind, is_null, collides, queue_row}
use things_team.Hub.Observe.{is_party, is_create_of, is_open_cancel}
use things_team.Hub.Invariant.{is_deliverable}
use things_team.Hub.Invariant.Frame.{Elsewhere, FitAfter}

pub collides-swap : (d e : Delivery) → collides d e ≡ collides e d
collides-swap d e = ground arith

-- The delivery that a query finds is the only one with its id, and with its key.
pub only_row :
    (p : Delivery → Bool) (ds : List Delivery) {d : Delivery}
    → Distinct collides ds
    → find p ds ≡ some d
    → All (λ e. collides d e ≡ true → e ≡ d) ds
only_row p ds v h = Distinct-find collides collides-swap p ds v h

pub Elsewhere-trans :
    (i : RowId) (ds es fs : List Delivery)
    → Elsewhere i ds es
    → Elsewhere i es fs
    → Elsewhere i ds fs
Elsewhere-trans i ds es fs h k q n = k q n ∙ h q n

pub Elsewhere-update :
    (i : RowId) (p : Delivery → Bool) (f : Delivery → Delivery) (ds : List Delivery)
    → ((e : Delivery) → (f e).transfer_id ≡ e.transfer_id)
    → All (λ e. p e ≡ true → e.transfer_id ≡ i) ds
    → Elsewhere i ds (update p f ds)
Elsewhere-update i p f ds keep h q n =
    any-update q p f ds (All-map _ _ ds (λ e k pe. n (f e) (keep e ∙ k pe) ∙ sym (n e (k pe))) h)

pub Elsewhere-delete :
    (i : RowId) (p : Delivery → Bool) (ds : List Delivery)
    → ((e : Delivery) → p e ≡ true → e.transfer_id ≡ i)
    → Elsewhere i ds (delete p ds)
Elsewhere-delete i p ds h q n = any-delete q p ds (All-always _ ds (λ e pe. n e (h e pe)))

pub Elsewhere-queue :
    (i : RowId) (d : Delivery) (ds : List Delivery)
    → d.transfer_id ≡ i
    → Elsewhere i ds (queue_row d ds)
unfolding queue_row
Elsewhere-queue i d ds h q n = ground (arith, n d, any-append q ds d)

pub queue_row-Distinct :
    (d : Delivery) (ds : List Delivery) → Distinct collides ds → Distinct collides (queue_row d ds)
unfolding queue_row
queue_row-Distinct d ds v = elim (Bool-cases (any (collides d) ds)) [
  | inl taken ↦ rw taken v
  | inr free ↦ rw free (Distinct-append collides collides-swap d ds free v)
]

pub queue_row-All {ℓ} :
    (P : Delivery → Type ℓ) (d : Delivery) (ds : List Delivery)
    → P d
    → All P ds
    → All P (queue_row d ds)
unfolding queue_row
queue_row-All P d ds h a = elim (Bool-cases (any (collides d) ds)) [
  | inl taken ↦ rw taken a
  | inr free ↦ rw free (All-append P ds d a h)
]

-- A row that blocks the insertion of an echo is such an echo, and not done.
blocking_row :
    (i : RowId) (t : Transfer) (ts : List Transfer) (n e : Delivery)
    → t.id ≡ i
    → n.transfer_id ≡ i
    → is_null t.resolved_at ≡ true
    → eq_kind n.kind create ≡ false
    → is_deliverable t n ≡ true
    → FitAfter i t ts e
    → (e.id == n.id) ≡ false
    → collides n e ≡ true
    → is_deliverable t e ≡ true
unfolding FitAfter
blocking_row i t ts n e ti ni open_t k dn f other c = ground arith

-- An echo that is inserted, or ignored for a row with its key, serves an open transfer.
pub queue_row-served :
    (i : RowId) (t : Transfer) (ts : List Transfer) (n : Delivery) (ds : List Delivery)
    → t.id ≡ i
    → n.transfer_id ≡ i
    → is_null t.resolved_at ≡ true
    → eq_kind n.kind create ≡ false
    → is_deliverable t n ≡ true
    → All (FitAfter i t ts) ds
    → any (λ e. e.id == n.id) ds ≡ false
    → any (is_deliverable t) (queue_row n ds) ≡ true
unfolding queue_row
queue_row-served i t ts n ds ti ni open_t k dn fit fresh = elim (Bool-cases (any (collides n) ds)) [
  | inl taken ↦ rw taken (
      any-imp (collides n) (is_deliverable t) ds
        (All-map _ _ ds (λ e r. blocking_row i t ts n e ti ni open_t k dn r.0 r.1)
          (All-both _ _ ds fit (any-All (λ e. e.id == n.id) ds fresh)))
        taken)
  | inr free ↦ rw free (ground (arith, any-append (is_deliverable t) ds n))
]

pub echo_kind-ne-create : (x : Terminal) → eq_kind (echo_kind x) create ≡ false
echo_kind-ne-create completed = refl
echo_kind-ne-create canceled = refl

-- A new echo to a party fits its transfer.
pub echo-FitAfter :
    (i : RowId) (t : Transfer) (ts : List Transfer) (id j other : RowId) (now : Time) (x : Terminal)
    → j ≡ i
    → t.terminal ≡ some x
    → is_party other t ≡ true
    → FitAfter i t ts (new_delivery id j (echo_kind x) other now)
unfolding FitAfter
echo-FitAfter i t ts id j other now completed ji e party = ground arith
echo-FitAfter i t ts id j other now canceled ji e party = ground arith

-- An update that keeps the ids leaves a fresh one fresh.
pub fresh-update :
    (k : RowId) (p : Delivery → Bool) (f : Delivery → Delivery) (ds : List Delivery)
    → ((e : Delivery) → (f e).id ≡ e.id)
    → any (λ e. e.id == k) ds ≡ false
    → any (λ e. e.id == k) (update p f ds) ≡ false
fresh-update k p f ds keep fresh =
    any-update (λ e. e.id == k) p f ds
      (All-always (λ e. p e ≡ true → ((f e).id == k) ≡ (e.id == k)) ds (λ e pe. rw (keep e)))
    ∙ fresh

-- The create delivery stays one.
pub created-update :
    (i : RowId) (p : Delivery → Bool) (f : Delivery → Delivery) (ds : List Delivery)
    → ((e : Delivery) → is_create_of i (f e) ≡ is_create_of i e)
    → any (is_create_of i) ds ≡ true
    → any (is_create_of i) (update p f ds) ≡ true
created-update i p f ds keep h =
    any-update (is_create_of i) p f ds (All-always _ ds (λ e pe. keep e)) ∙ h

pub queue_row-any :
    (q : Delivery → Bool) (n : Delivery) (ds : List Delivery)
    → any q ds ≡ true
    → any q (queue_row n ds) ≡ true
unfolding queue_row
queue_row-any q n ds h = ground (arith, any-append q ds n)

pub created-delete :
    (i j : RowId) (ds : List Delivery)
    → any (is_create_of i) ds ≡ true
    → any (is_create_of i) (delete (is_open_cancel j) ds) ≡ true
created-delete i j ds h =
    any-delete (is_create_of i) (is_open_cancel j) ds (All-always _ ds (λ e pe. ground arith)) ∙ h
