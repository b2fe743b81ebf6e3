-- ===== src/Hub/Server/Settled.antt =====
-- A second bootstrap changes nothing.
use things_team.Base.{
  ◌+◌, ◌≡◌, refl, sym, subst, ap, ◌∙◌, ℕ, String, some, [], ◌∷◌, ◌++◌, inl, inr, arith, str_eq,
  eq_iff, Option-cases,
}
use things_team.Base.Table.{find}
use things_team.Base.Table.Laws.{find-append_last, All-map}
use things_team.Base.Table.Distinct.{Distinct}
use things_team.Base.Table.Queries.{length}
use things_team.Hub.Schema.{RowId, Tenant, Ledger, Draws}
use things_team.Hub.Accounts.{
  create_tenant, create_member, insert_member, insert_device, rotate_token,
}
use things_team.Hub.Push.{member_by_handle}
use things_team.Hub.Http.{finished, on_ledger, ◌>>=◌}
use things_team.Hub.Server.{
  MemberSpec, DeviceSpec, Spec, Deploy, is_provisioned, each, wanted_hash, ensure_tenant,
  ensure_member, provide, ensure_device, bootstrap,
}
use things_team.Hub.Http.Ends.{proceed-ends}
use things_team.Hub.Server.Entries.{each-makes, each-idle, each-same, Pairwise-always, Pairwise}
use things_team.Hub.Server.Members.{
  same_member, same_device, Keyed, Present, Present-idle, Present-keeps, Present-made, member-Keyed,
}
use things_team.Hub.Server.Devices.{
  Provided, Provided-idle, Provided-made, Provided-keeps, device-Keyed, Apart,
}

module _ (c : Deploy) where
  -- The tenant's step
  tenant_found :
      (s : Draws) (name : String) (l l' : Ledger) (t : RowId)
      → ensure_tenant c s name l ≡ finished t l'
      → (x : Tenant) × (find (λ (y : Tenant). str_eq y.name name) l'.tenants ≡ some x)
        × (x.id ≡ t)
        × (l'.members ≡ l.members)
        × (l'.devices ≡ l.devices)
  unfolding ensure_tenant on_ledger create_tenant
  tenant_found s name l l' t e =
      elim (Option-cases (find (λ (x : Tenant). str_eq x.name name) l.tenants)) [
        | inr (x, f) ↦
            let same : l' ≡ l = ground arith in
            (x, rw same f, ground arith, ground arith, ground arith)
        | inl f ↦
            let row : Tenant = record { id = s.row; name = name; created_at = s.now } in
            let grown : l'.tenants ≡ l.tenants ++ row ∷ [] = ground arith in
            (
              row,
              ap (find _) grown
                  ∙ find-append_last _ l.tenants row f (ground (arith, eq_iff name name)),
              ground arith,
              ground arith,
              ground arith,
            )
      ]

  -- The entries' steps leave what the earlier steps look at.
  member_tenants :
      (t : RowId) (s : Draws) (m : MemberSpec) (l l' : Ledger)
      → ensure_member c t s m l ≡ finished tt l'
      → l'.tenants ≡ l.tenants
  unfolding ensure_member on_ledger ◌>>=◌ create_member insert_member
  member_tenants t s m l l' e = elim (Option-cases (member_by_handle c.normalize t m.handle l)) [
    | inr (x, h) ↦ ground arith
    | inl h ↦ ground arith
  ]

  device_tenants :
      (t : RowId) (s : Draws) (d : DeviceSpec) (l l' : Ledger)
      → ensure_device c t s d l ≡ finished tt l'
      → (l'.tenants ≡ l.tenants) × (l'.members ≡ l.members)
  unfolding ensure_device provide ◌>>=◌ on_ledger insert_device rotate_token
  device_tenants t s d l l' e = elim (Option-cases (member_by_handle c.normalize t d.member l)) [
    | inl absent ↦ (ground arith, ground arith)
    | inr (x, m) ↦ elim (Option-cases (wanted_hash c d)) [
      | inl unwanted ↦ (ground arith, ground arith)
      | inr (h, k) ↦ elim (Option-cases (find (is_provisioned x.id d.name) l.devices)) [
        | inl f ↦ (ground arith, ground arith)
        | inr (r, f) ↦ (ground arith, ground arith)
      ]
    ]
  ]

  tenant_again :
      (s : Draws) (name : String) (l : Ledger) (t : RowId) (x : Tenant)
      → find (λ (y : Tenant). str_eq y.name name) l.tenants ≡ some x
      → x.id ≡ t
      → ensure_tenant c s name l ≡ finished t l
  unfolding ensure_tenant
  tenant_again s name l t x f it = rw (f, ensure_tenant) (ap (λ i. finished i l) it)

  entries_again :
      (t : RowId) (s s' : ℕ → Draws) (spec : Spec) (l1 l2 l' : Ledger)
      → Keyed l1
      → Pairwise (Apart c) spec.devices
      → each (ensure_member c t) s 1 spec.members l1 ≡ finished tt l2
      → each (ensure_device c t) s (1 + length spec.members) spec.devices l2 ≡ finished tt l'
      → (each (ensure_member c t) s' 1 spec.members l' ≡ finished tt l')
        × (each (ensure_device c t) s' (1 + length spec.members) spec.devices l' ≡ finished tt l')
        × (l'.tenants ≡ l1.tenants)
  unfolding member_by_handle
  entries_again t s s' spec l1 l2 l' v p e2 e3 =
      let (v2, ps) =
        each-makes (ensure_member c t) Keyed (Present c t) (λ a b. Unit)
          (λ s m l l' v e. (member-Keyed c t s m l l' v e, Present-made c t s m l l' e))
          (λ s a b l l' q v g e. Present-keeps c t s a b l l' g e) s 1 spec.members l1 l2
          (Pairwise-always _ spec.members (λ a b. tt)) v e2 in
      let (v', gs) =
        each-makes (ensure_device c t) Keyed (Provided c t) (Apart c)
          (λ s d l l' v e. (device-Keyed c t s d l l' v e, Provided-made c t s d l l' e))
          (Provided-keeps c t) s _ spec.devices l2 l' p v2 e3 in
      let ms =
        each-same (ensure_device c t) (λ x. x.members) s _ spec.devices l2 l'
          (λ s d l l' e. (device_tenants t s d l l' e).1) e3 in
      let ts =
        each-same (ensure_device c t) (λ x. x.tenants) s _ spec.devices l2 l'
          (λ s d l l' e. (device_tenants t s d l l' e).0) e3 in
      let ts' =
        each-same (ensure_member c t) (λ x. x.tenants) s _ spec.members l1 l2 (member_tenants t)
          e2 in
      (
        each-idle (ensure_member c t) (Present c t) s' _ spec.members l'
            (λ s m. Present-idle c t s m l')
            (All-map _ _ spec.members (λ m (x, f). (x, ap (find _) ms ∙ f)) ps),
        each-idle (ensure_device c t) (Provided c t) s' _ spec.devices l'
            (λ s d. Provided-idle c t s d l') gs,
        ts ∙ ts',
      )

  -- Bootstrap is idempotent: where it has ended without an exception, running it again with the same
  -- declaration and the same credentials changes nothing and raises nothing, whatever is drawn. No two
  -- entries of the declaration are for one device, and the ids of members and of devices are distinct before.
  pub bootstrap_twice :
      (s s' : ℕ → Draws) (spec : Spec) (l l' : Ledger)
      → Keyed l
      → Pairwise (Apart c) spec.devices
      → bootstrap c s spec l ≡ finished tt l'
      → bootstrap c s' spec l' ≡ finished tt l'
  unfolding bootstrap ◌>>=◌
  bootstrap_twice s s' spec l l' v p e =
      let (t, l1, e1, r1) = proceed-ends (ensure_tenant c (s 0) spec.tenant l) _ e in
      let (u, l2, e2, e3) = proceed-ends (each (ensure_member c t) s 1 spec.members l1) _ r1 in
      let (x, f, it, ms, ds) = tenant_found (s 0) spec.tenant l l1 t e1 in
      let (again, again', ts) =
        entries_again t s s' spec l1 l2 l'
          (subst (Distinct same_member) (sym ms) v.0, subst (Distinct same_device) (sym ds) v.1) p
          e2 e3 in
      rw (tenant_again (s' 0) spec.tenant l' t x (ap (find _) ts ∙ f) it, again, again') refl
