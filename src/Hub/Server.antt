-- ===== src/Hub/Server.antt =====
-- The bootstrap of hub/server.py, which ensures the tenant, the members and the devices that the deploy
-- declares.
pub mod Entries
pub mod Members
pub mod Devices
pub mod Settled
mod Tests
use things_team.Base.{
  ℕ, suc, ◌+◌, String, Bool, true, false, not, ◌&&◌, Option, none, some, List, [], ◌∷◌, ◌==◌,
  str_eq, if◌then◌else◌,
}
use things_team.Base.Table.{find}
use things_team.Base.Table.Queries.{length}
use things_team.Hub.Schema.{RowId, Tenant, Member, Device, Ledger, Draws}
use things_team.Hub.Rows.{is_null}
use things_team.Hub.Accounts.{
  Caps, create_tenant, create_member, text_is, new_device, insert_device, rotate_token,
}
use things_team.Hub.Push.{member_by_handle}
use things_team.Hub.Http.{Handler, give, on_ledger, ◌>>=◌}

-- An entry of `members`, with what `.get` finds
pub record MemberSpec : Type 0 where
  pub handle : String
  pub display_name : Option String
  pub can_send : Option Bool
  pub can_receive : Option Bool
  pub admin : Option Bool

pub record DeviceSpec : Type 0 where
  pub member : String
  pub name : String
  pub token_credential : String

pub record Spec : Type 0 where
  pub tenant : String
  pub members : List MemberSpec
  pub devices : List DeviceSpec

-- `credential` is `_credential`, on the files of the deploy as they are.
pub record Deploy : Type 0 where
  pub normalize : String → String
  pub hash : String → String
  pub credential : String → Option String

abbrev pub or_default {ℓ} : {A : Type ℓ} → A → Option A → A
or_default d none = d
or_default d (some a) = a

abbrev pub spec_caps : MemberSpec → Caps
spec_caps m = record {
  can_send = or_default true m.can_send;
  can_receive = or_default true m.can_receive;
  can_admin = or_default false m.admin;
}

abbrev pub is_provisioned : RowId → String → Device → Bool
is_provisioned member_id name d =
    d.member_id == member_id && str_eq d.name name && is_null d.revoked_at

-- A loop over the entries, whose statements draw what `s` has, from the `n`th on
unfoldable pub each {ℓ} :
    {A : Type ℓ} → (Draws → A → Handler (Unit {0})) → (ℕ → Draws) → ℕ → List A → Handler (Unit {0})
each f s n [] = give tt
each f s n (a ∷ as') = f (s n) a >>= λ u. each f s (suc n) as'

module _ (c : Deploy) where
  -- The hash of a credential that is there and not empty
  abbrev pub token_hash : Option String → Option String
  token_hash none = none
  token_hash (some token) = if str_eq token "" then none else some (c.hash token)

  unfoldable pub wanted_hash : DeviceSpec → Option String
  wanted_hash d = token_hash (c.credential d.token_credential)

  unfoldable pub ensure_tenant : Draws → String → Handler RowId
  ensure_tenant s name l = elim (find (λ (t : Tenant). str_eq t.name name) l.tenants) [
    | some t ↦ give t.id l
    | none ↦ on_ledger (create_tenant s name) l
  ]

  module _ (t : RowId) where
    unfoldable pub ensure_member : Draws → MemberSpec → Handler (Unit {0})
    ensure_member s m l = elim (member_by_handle c.normalize t m.handle l) [
      | some x ↦ give tt l
      | none ↦
          (on_ledger (
                create_member c.normalize s t m.handle (or_default m.handle m.display_name)
                  (spec_caps m))
              >>= λ i. give tt)
            l
    ]

    -- One transaction: the query, and the insert or the update after it
    unfoldable pub provide : Draws → DeviceSpec → RowId → String → Handler (Unit {0})
    provide s d member_id h l = elim (find (is_provisioned member_id d.name) l.devices) [
      | none ↦
          (on_ledger (insert_device (new_device s member_id d.name (some h))) >>= λ i. give tt) l
      | some r ↦ if text_is h r.token_hash then give tt l else on_ledger (rotate_token r.id h) l
    ]

    unfoldable pub ensure_device : Draws → DeviceSpec → Handler (Unit {0})
    ensure_device s d l = elim (member_by_handle c.normalize t d.member l) [
      | none ↦ give tt l
      | some x ↦ elim (wanted_hash d) [ none ↦ give tt l | some h ↦ provide s d x.id h l ]
    ]

  unfoldable pub bootstrap : (ℕ → Draws) → Spec → Handler (Unit {0})
  bootstrap s spec = ensure_tenant (s 0) spec.tenant >>= λ t.
      each (ensure_member t) s 1 spec.members >>= λ u.
      each (ensure_device t) s (1 + length spec.members) spec.devices
