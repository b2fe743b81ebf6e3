-- ===== src/Hub/Invariant/Frame.antt =====
-- What a change of one transfer and its deliveries leaves alone.
use things_team.Base.{
  ◌≡◌, refl, ap, subst, ◌∙◌, ◌⊎◌, Bool, true, false, Option, none, some, List, arith, inl, inr,
  ◌==◌, ==→≡, if◌then◌else◌, eq_iff, Bool-cases,
}
use mathlib.Core.Option
use things_team.Base.Table.{find, any, update}
use things_team.Base.Table.Laws.{
  All, All-map, All-find, any-find-some, find-any_of, find-holds, find-update, patch,
}
use things_team.Base.Table.Distinct.{Distinct, Distinct-find}
use things_team.Hub.Schema.{RowId, Transfer, Delivery}
use things_team.Hub.Push.{clashes}
use things_team.Hub.Observe.{is_create_of}
use things_team.Hub.Rows.{collides}
use things_team.Hub.Invariant.{transfer_in, fits, is_deliverable, Serves, Tables}

-- The transfer `i` has become `t`, and all others are as they were.
abbrev pub Changes : RowId → Transfer → List Transfer → List Transfer → Type 0
Changes i t ts ts' = (j : RowId) → transfer_in j ts' ≡ (if j == i then some t else transfer_in j ts)

pub transfer-id :
    (i : RowId) (ts : List Transfer) {t : Transfer} → transfer_in i ts ≡ some t → t.id ≡ i
transfer-id i ts {t} h = ==→≡ t.id i (find-holds (λ x. x.id == i) ts h)

patch_other :
    (i j : RowId) (g : Transfer → Transfer) (o : Option Transfer) {t : Transfer}
    → ((u : Transfer) → o ≡ some u → u.id ≡ j)
    → (j ≡ i → o ≡ some t)
    → Option.map (patch (λ (x : Transfer). x.id == i) g) o ≡ (if j == i then some (g t) else o)
patch_other i j g none {t} h k = ground (arith, k)
patch_other i j g (some u) {t} h k = elim (Bool-cases (j == i)) [
  | inl same ↦
      let at_i : (u.id == i) ≡ true = ground (arith, h u refl) in
      rw (same, at_i) (ap (Option.map g) (k (==→≡ j i same)))
  | inr other ↦ let not_i : (u.id == i) ≡ false = rw (h u refl) other in rw (other, not_i)
]

pub Changes-update :
    (i : RowId) (g : Transfer → Transfer) (ts : List Transfer) {t : Transfer}
    → ((x : Transfer) → (g x).id ≡ x.id)
    → transfer_in i ts ≡ some t
    → Changes i (g t) ts (update (λ (x : Transfer). x.id == i) g ts)
Changes-update i g ts {t} h e j =
    rw (find-update (λ x. x.id == j) (λ x. x.id == i) g ts (λ x. rw (h x)))
      (patch_other i j g (transfer_in j ts) (λ u. transfer-id j ts) (λ p. rw p e))

pub Changes-trans :
    (i : RowId) (t u : Transfer) (ts ts' ts'' : List Transfer)
    → Changes i t ts ts'
    → Changes i u ts' ts''
    → Changes i u ts ts''
Changes-trans i t u ts ts' ts'' h k j = ground (arith, h j, k j)

pub Changes-refl :
    (i : RowId) (t : Transfer) (ts : List Transfer) → transfer_in i ts ≡ some t → Changes i t ts ts
Changes-refl i t ts e j = elim (Bool-cases (j == i)) [
  | inl same ↦ rw (same, ==→≡ j i same) e
  | inr other ↦ rw other
]

-- The transfer that a delivery has after the change.
abbrev pub changed : RowId → Transfer → List Transfer → Delivery → Option Transfer
changed i t ts d = if d.transfer_id == i then some t else transfer_in d.transfer_id ts

unfoldable pub FitAfter : RowId → Transfer → List Transfer → Delivery → Type 0
FitAfter i t ts d = fits (changed i t ts d) d ≡ true

-- The deliveries of the other transfers pass a test as before.
abbrev pub Elsewhere : RowId → List Delivery → List Delivery → Type 0
Elsewhere i ds ds' =
    (q : Delivery → Bool)
    → ((e : Delivery) → e.transfer_id ≡ i → q e ≡ false)
    → any q ds' ≡ any q ds

Serves-step :
    (i : RowId) (t : Transfer) (ts ts' : List Transfer) (ds ds' : List Delivery)
    → Tables ts ds
    → Changes i t ts ts'
    → Serves t ds'
    → Elsewhere i ds ds'
    → (j : RowId) (u : Transfer) → ((j == i) ≡ true) ⊎ ((j == i) ≡ false)
    → transfer_in j ts' ≡ some u
    → Serves u ds'
Serves-step i t ts ts' ds ds' v c served elsewhere j u (inl same) e =
    let now_t : transfer_in j ts' ≡ some t =
      c j ∙ ap (λ b. if b then some t else transfer_in j ts) same in
    let same_t : t ≡ u = cc in subst (λ x. Serves x ds') same_t served
Serves-step i t ts ts' ds ds' v c served elsewhere j u (inr other) e =
    let before : transfer_in j ts ≡ some u =
      cc (c j, ap (λ b. if b then some t else transfer_in j ts) other) in
    let s = v.serves j u before in
    let not_i : (u.id == i) ≡ false = rw (transfer-id j ts before) other in
    record {
      sound = s.sound;
      created = elsewhere (is_create_of u.id) (λ e ei. ground arith) ∙ s.created;
      served = λ w. elsewhere (is_deliverable u) (λ e ei. ground arith) ∙ s.served w;
    }

pub Tables-step :
    (i : RowId) (t : Transfer) (ts ts' : List Transfer) (ds ds' : List Delivery)
    → Tables ts ds
    → Changes i t ts ts'
    → Distinct clashes ts'
    → All (FitAfter i t ts) ds'
    → Distinct collides ds'
    → Serves t ds'
    → Elsewhere i ds ds'
    → Tables ts' ds'
unfolding FitAfter
Tables-step i t ts ts' ds ds' v c keys fit distinct served elsewhere = record {
  keys = keys;
  fit = All-map _ _ ds' (λ d f. rw (c d.transfer_id) f) fit;
  distinct = distinct;
  serves = λ j u e. Serves-step i t ts ts' ds ds' v c served elsewhere j u (Bool-cases (j == i)) e;
}

pub clashes-swap : (x y : Transfer) → clashes x y ≡ clashes y x
clashes-swap x y = ground (arith, eq_iff x.src_uuid y.src_uuid, eq_iff y.src_uuid x.src_uuid)

-- With distinct keys, a query that asks for the id `i` and more finds the row with that id.
pub transfer_in-find :
    (i : RowId) (p : Transfer → Bool) (ts : List Transfer) {t : Transfer}
    → Distinct clashes ts
    → find p ts ≡ some t
    → t.id ≡ i
    → transfer_in i ts ≡ some t
transfer_in-find i p ts {t} d h e =
    let (u, found) =
      any-find-some (λ (x : Transfer). x.id == i) ts
        (find-any_of p (λ (x : Transfer). x.id == i) ts h (ground arith)) in
    let only : clashes t u ≡ true → u ≡ t =
      All-find (λ x. clashes t x ≡ true → x ≡ t) (λ (x : Transfer). x.id == i) ts
        (Distinct-find clashes clashes-swap p ts d h) found in
    found ∙ ap some (only (ground (arith, transfer-id i ts found)))
