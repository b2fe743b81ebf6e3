-- ===== src/Hub/Server/Devices.antt =====
-- The entry of a device.
use things_team.Base.{
  ◌≡◌, ◌⊎◌, refl, sym, subst, ap, ◌∙◌, String, true, false, ◌&&◌, ◌||◌, none, some, [], ◌∷◌, ◌++◌,
  ◌==◌, ==-refl, inl, inr, arith, str_eq, eq_iff, Bool-cases, Option-cases,
}
use things_team.Base.Table.{find, any, update}
use things_team.Base.Table.Laws.{
  find-holds, find-update, find-append_found, find-append_last, All-find,
}
use things_team.Base.Table.Distinct.{Distinct, Distinct-append, Distinct-update, Distinct-find}
use things_team.Base.Table.Exists.{any-imp_false}
use things_team.Hub.Schema.{RowId, Member, Device, Ledger, Draws}
use things_team.Hub.Accounts.{text_is, same_token, new_device, insert_device, rotate_token}
use things_team.Hub.Push.{member_by_handle}
use things_team.Hub.Http.{finished, on_ledger, ◌>>=◌}
use things_team.Hub.Server.{DeviceSpec, Deploy, is_provisioned, wanted_hash, provide, ensure_device}
use things_team.Hub.Server.Members.{same_member, same_device, Keyed}

module _ (c : Deploy) where
  -- Two entries for different devices
  abbrev pub Apart : DeviceSpec → DeviceSpec → Type 0
  Apart a b = (str_eq (c.normalize a.member) (c.normalize b.member) && str_eq a.name b.name) ≡ false

  module _ (t : RowId) where
    -- The device of the entry is there with the token, if its member and its credential are.
    abbrev pub Provided : DeviceSpec → Ledger → Type 0
    Provided d l =
        (x : Member) (h : String)
        → member_by_handle c.normalize t d.member l ≡ some x
        → wanted_hash c d ≡ some h
        → (r : Device) × (find (is_provisioned x.id d.name) l.devices ≡ some r)
          × (text_is h r.token_hash ≡ true)

    pub Provided-idle :
        (s : Draws) (d : DeviceSpec) (l : Ledger)
        → Provided d l
        → ensure_device c t s d l ≡ finished tt l
    unfolding ensure_device provide
    Provided-idle s d l g = elim (Option-cases (member_by_handle c.normalize t d.member l)) [
      | inl e ↦ rw (e, ensure_device) refl
      | inr (x, e) ↦ elim (Option-cases (wanted_hash c d)) [
        | inl none_wanted ↦ rw (e, none_wanted, ensure_device) refl
        | inr (h, wanted) ↦
            let (r, found, same) = g x h e wanted in
            rw (e, wanted, found, same, ensure_device, provide) refl
      ]
    ]

    found-Provided :
        (d : DeviceSpec) (l : Ledger) (x : Member) (h : String) (r : Device)
        → member_by_handle c.normalize t d.member l ≡ some x
        → wanted_hash c d ≡ some h
        → find (is_provisioned x.id d.name) l.devices ≡ some r
        → text_is h r.token_hash ≡ true
        → Provided d l
    found-Provided d l x h r m k f same x' h' m' k' =
        let ex : x ≡ x' = cc in
        let eh : h ≡ h' = cc in
        (
          r,
          subst (λ (y : Member). find (is_provisioned y.id d.name) l.devices ≡ some r) ex f,
          subst (λ y. text_is y r.token_hash ≡ true) eh same,
        )

    abbrev with_hash : String → Device → Device
    with_hash h r = record r { token_hash = some h }

    -- What a device's entry does, where it does something
    abbrev Changed : Draws → DeviceSpec → Ledger → Ledger → Type 0
    Changed s d l l' =
        (x : Member) × (h : String) × (member_by_handle c.normalize t d.member l ≡ some x)
        × (wanted_hash c d ≡ some h)
        × (l'.members ≡ l.members)
        × (((find (is_provisioned x.id d.name) l.devices ≡ none)
              × (any (same_device (new_device s x.id d.name (some h))) l.devices ≡ false)
              × (l'.devices ≡ l.devices ++ new_device s x.id d.name (some h) ∷ []))
            ⊎ ((r : Device) × (find (is_provisioned x.id d.name) l.devices ≡ some r)
                × (l'.devices ≡ update (λ y. y.id == r.id) (with_hash h) l.devices)))

    changed :
        (s : Draws) (d : DeviceSpec) (l l' : Ledger)
        → ensure_device c t s d l ≡ finished tt l'
        → ((l' ≡ l) × Provided d l) ⊎ Changed s d l l'
    unfolding ensure_device provide ◌>>=◌ on_ledger insert_device rotate_token
    changed s d l l' e = elim (Option-cases (member_by_handle c.normalize t d.member l)) [
      | inl absent ↦ inl (ground arith, λ x h m. cc)
      | inr (x, m) ↦ elim (Option-cases (wanted_hash c d)) [
        | inl unwanted ↦ inl (ground arith, λ x h m k. cc)
        | inr (h, k) ↦ elim (Option-cases (find (is_provisioned x.id d.name) l.devices)) [
          | inl f ↦
              let free =
                any-imp_false (λ (y : Device). y.id == s.row || same_token (some h) y.token_hash)
                  (λ (y : Device). s.row == y.id) l.devices (λ y p. ground arith) (ground arith) in
              inr (x, h, m, k, ground arith, inl (f, free, ground arith))
          | inr (r, f) ↦ elim (Bool-cases (text_is h r.token_hash)) [
            | inl same ↦ inl (ground arith, found-Provided d l x h r m k f same)
            | inr other ↦ inr (x, h, m, k, ground arith, inr (r, f, ground arith))
          ]
        ]
      ]
    ]

    pub Provided-made :
        (s : Draws) (d : DeviceSpec) (l l' : Ledger)
        → ensure_device c t s d l ≡ finished tt l'
        → Provided d l'
    unfolding member_by_handle
    Provided-made s d l l' e = elim (changed s d l l' e) [
      | inl (same, g) ↦ subst (Provided d) (sym same) g
      | inr (x, h, m, k, ms, inl (f, free, ds)) ↦
          found-Provided d l' x h (new_device s x.id d.name (some h)) (ap (find _) ms ∙ m) k
            (ap (find _) ds
              ∙ find-append_last _ l.devices _ f
                  (ground (arith, ==-refl x.id, eq_iff d.name d.name)))
            (ground (arith, eq_iff h h))
      | inr (x, h, m, k, ms, inr (r, f, ds)) ↦
          found-Provided d l' x h (with_hash h r) (ap (find _) ms ∙ m) k
            (ap (find _) ds ∙ find-update _ _ _ l.devices (λ y. refl) ∙ rw (f, ==-refl r.id) refl)
            (ground (arith, eq_iff h h))
    ]

    -- A device that two entries find is for one member and has one name.
    two_entries :
        (a b : DeviceSpec) (l : Ledger) (x y : Member) (r : Device)
        → Keyed l
        → member_by_handle c.normalize t a.member l ≡ some x
        → member_by_handle c.normalize t b.member l ≡ some y
        → is_provisioned x.id a.name r ≡ true
        → is_provisioned y.id b.name r ≡ true
        → (str_eq (c.normalize a.member) (c.normalize b.member) && str_eq a.name b.name) ≡ true
    unfolding member_by_handle
    two_entries a b l x y r v m n p q =
        let ids : (x.id == y.id) ≡ true = ground arith in
        let one : y ≡ x =
          All-find _ _ l.members (Distinct-find same_member (λ x y. ground arith) _ l.members v.0 m)
            n ids in
        let handles : c.normalize a.member ≡ c.normalize b.member =
          sym
            ((eq_iff x.handle (c.normalize a.member)).0 (ground (arith, find-holds _ l.members m)))
          ∙ ap (λ (z : Member). z.handle) (sym one)
          ∙ (eq_iff y.handle (c.normalize b.member)).0 (ground (arith, find-holds _ l.members n)) in
        let names : a.name ≡ b.name =
          sym ((eq_iff r.name a.name).0 (ground arith)) ∙ (eq_iff r.name b.name).0 (ground arith) in
        ground (
          arith,
          (eq_iff (c.normalize a.member) (c.normalize b.member)).1 handles,
          (eq_iff a.name b.name).1 names,
        )

    -- The device of one entry is as it was where another's is rotated.
    other_device :
        (a b : DeviceSpec) (l : Ledger) (x y : Member) (r r' : Device)
        → Apart a b
        → Keyed l
        → member_by_handle c.normalize t a.member l ≡ some x
        → member_by_handle c.normalize t b.member l ≡ some y
        → find (is_provisioned x.id a.name) l.devices ≡ some r
        → find (is_provisioned y.id b.name) l.devices ≡ some r'
        → (r.id == r'.id) ≡ false
    other_device a b l x y r r' apart v m n f f' = elim (Bool-cases (r.id == r'.id)) [
      | inr e ↦ e
      | inl e ↦
          let one : r ≡ r' =
            All-find _ _ l.devices
              (Distinct-find same_device (λ x y. ground arith) _ l.devices v.1 f') f
              (ground arith) in
          let both = two_entries a b l x y r v m n (find-holds _ l.devices f) (
            subst (λ z. is_provisioned y.id b.name z ≡ true) (sym one)
              (find-holds _ l.devices f')) in
          cc (both, apart)
    ]

    pub Provided-keeps :
        (s : Draws) (a b : DeviceSpec) (l l' : Ledger)
        → Apart a b
        → Keyed l
        → Provided a l
        → ensure_device c t s b l ≡ finished tt l'
        → Provided a l'
    unfolding member_by_handle
    Provided-keeps s a b l l' apart v g e = elim (changed s b l l' e) [
      | inl (same, g') ↦ subst (Provided a) (sym same) g
      | inr (y, k, n, w, ms, inl (absent, free, ds)) ↦ λ x h m w'.
          let (r, f, same) = g x h (ap (find _) (sym ms) ∙ m) w' in
          (r, ap (find _) ds ∙ find-append_found _ l.devices _ f, same)
      | inr (y, k, n, w, ms, inr (r', f', ds)) ↦ λ x h m w'.
          let m1 = ap (find _) (sym ms) ∙ m in
          let (r, f, same) = g x h m1 w' in
          (
            r,
            ap (find _) ds
                ∙ find-update _ _ _ l.devices (λ y. refl)
                ∙ rw (f, other_device a b l x y r r' apart v m1 n f f') refl,
            same,
          )
    ]

    pub device-Keyed :
        (s : Draws) (d : DeviceSpec) (l l' : Ledger)
        → Keyed l
        → ensure_device c t s d l ≡ finished tt l'
        → Keyed l'
    device-Keyed s d l l' v e = elim (changed s d l l' e) [
      | inl (same, g) ↦ subst Keyed (sym same) v
      | inr (x, h, m, k, ms, inl (f, free, ds)) ↦ (
        subst (Distinct same_member) (sym ms) v.0,
        subst (Distinct same_device) (sym ds)
            (Distinct-append same_device (λ x y. ground arith) _ l.devices free v.1),
      )
      | inr (x, h, m, k, ms, inr (r, f, ds)) ↦ (
        subst (Distinct same_member) (sym ms) v.0,
        subst (Distinct same_device) (sym ds)
            (Distinct-update same_device _ _ l.devices (λ x y. refl) (λ x y. refl) v.1),
      )
    ]
