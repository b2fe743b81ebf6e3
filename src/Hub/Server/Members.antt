-- ===== src/Hub/Server/Members.antt =====
-- The entry of a member, and the primary keys.
use things_team.Base.{
  ◌≡◌, ◌⊎◌, refl, sym, subst, ap, ◌∙◌, Bool, false, ◌&&◌, ◌||◌, none, some, [], ◌∷◌, ◌++◌, ◌==◌,
  inl, inr, arith, str_eq, eq_iff, Option-cases,
}
use things_team.Base.Table.{find, any}
use things_team.Base.Table.Laws.{find-append_found, find-append_last}
use things_team.Base.Table.Distinct.{Distinct, Distinct-append}
use things_team.Base.Table.Exists.{any-imp_false}
use things_team.Hub.Schema.{RowId, Member, Device, Ledger, Draws}
use things_team.Hub.Accounts.{create_member, new_member, insert_member}
use things_team.Hub.Push.{member_by_handle}
use things_team.Hub.Http.{finished, on_ledger, ◌>>=◌}
use things_team.Hub.Server.{MemberSpec, Deploy, spec_caps, or_default, ensure_member}

-- The primary keys of the two tables
abbrev pub same_member : Member → Member → Bool
same_member x y = x.id == y.id

abbrev pub same_device : Device → Device → Bool
same_device x y = x.id == y.id

abbrev pub Keyed : Ledger → Type 0
Keyed l = Distinct same_member l.members × Distinct same_device l.devices

module _ (c : Deploy) where
  abbrev pub spec_member : RowId → Draws → MemberSpec → Member
  spec_member t s m =
      new_member s t (c.normalize m.handle) (or_default m.handle m.display_name) (spec_caps m)

  module _ (t : RowId) where
    -- The member of the entry is there.
    abbrev pub Present : MemberSpec → Ledger → Type 0
    Present m l = (x : Member) × (member_by_handle c.normalize t m.handle l ≡ some x)

    pub Present-idle :
        (s : Draws) (m : MemberSpec) (l : Ledger)
        → Present m l
        → ensure_member c t s m l ≡ finished tt l
    unfolding ensure_member
    Present-idle s m l (x, e) = rw (e, ensure_member) refl

    -- What a member's entry does to the members
    joined :
        (s : Draws) (m : MemberSpec) (l l' : Ledger)
        → ensure_member c t s m l ≡ finished tt l'
        → ((l' ≡ l) × Present m l)
          ⊎ ((member_by_handle c.normalize t m.handle l ≡ none)
              × (any (same_member (spec_member t s m)) l.members ≡ false)
              × (l'.devices ≡ l.devices)
              × (l'.members ≡ l.members ++ spec_member t s m ∷ []))
    unfolding ensure_member on_ledger ◌>>=◌ create_member insert_member
    joined s m l l' e = elim (Option-cases (member_by_handle c.normalize t m.handle l)) [
      | inr (x, h) ↦ inl (ground arith, (x, h))
      | inl h ↦
          let free =
            any-imp_false
              (λ (x : Member).
                x.id == s.row || (x.tenant_id == t && str_eq x.handle (c.normalize m.handle)))
              (λ (x : Member). s.row == x.id) l.members (λ y p. ground arith) (ground arith) in
          inr (h, free, ground arith, ground arith)
    ]

    pub Present-keeps :
        (s : Draws) (a b : MemberSpec) (l l' : Ledger)
        → Present a l
        → ensure_member c t s b l ≡ finished tt l'
        → Present a l'
    unfolding member_by_handle
    Present-keeps s a b l l' (x, h) e = elim (joined s b l l' e) [
      | inl (same, p) ↦ subst (Present a) (sym same) (x, h)
      | inr (absent, free, ds, grown) ↦ (x, ap (find _) grown ∙ find-append_found _ l.members _ h)
    ]

    pub Present-made :
        (s : Draws) (m : MemberSpec) (l l' : Ledger)
        → ensure_member c t s m l ≡ finished tt l'
        → Present m l'
    unfolding member_by_handle
    Present-made s m l l' e = elim (joined s m l l' e) [
      | inl (same, p) ↦ subst (Present m) (sym same) p
      | inr (absent, free, ds, grown) ↦ (
        spec_member t s m,
        ap (find _) grown
            ∙ find-append_last _ l.members _ absent
                (ground (arith, eq_iff (c.normalize m.handle) (c.normalize m.handle))),
      )
    ]

    pub member-Keyed :
        (s : Draws) (m : MemberSpec) (l l' : Ledger)
        → Keyed l
        → ensure_member c t s m l ≡ finished tt l'
        → Keyed l'
    member-Keyed s m l l' v e = elim (joined s m l l' e) [
      | inl (same, p) ↦ subst Keyed (sym same) v
      | inr (absent, free, ds, grown) ↦ (
        subst (Distinct same_member) (sym grown)
            (Distinct-append same_member (λ x y. ground arith) _ l.members free v.0),
        subst (Distinct same_device) (sym ds) v.1,
      )
    ]
