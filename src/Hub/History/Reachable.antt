-- ===== src/Hub/History/Reachable.antt =====
-- The invariant holds after every history.
use things_team.Base.{◌≡◌, refl, String, Bool, true, false, arith}
use things_team.Base.Table.{find, any}
use things_team.Hub.Schema.{Ledger}
use things_team.Hub.Accounts.{
  create_tenant, create_member, insert_member, create_device, insert_device, revoke_device,
  ensure_gateway_device, rotate_token, authenticate,
}
use things_team.Hub.Invariant.{IsValid}
use things_team.Hub.Invariant.Push.{push_transfer-IsValid}
use things_team.Hub.Invariant.Lease.{lease_deliveries-IsValid}
use things_team.Hub.Invariant.AckSteps.{ack_delivery-IsValid, nack_delivery-IsValid}
use things_team.Hub.Invariant.ObserveSteps.{observe-IsValid}
use things_team.Hub.History.{
  empty, Call, tenant, member, device, revoke, gateway, provision, rotate, login, push, lease, ack,
  nack, observation, DrawsFresh, perform, Reach, start, next,
}

-- The two tables that carry a delegation.
abbrev pub SameTables : Ledger → Ledger → Type 0
SameTables l l' = (l'.transfers ≡ l.transfers) × (l'.deliveries ≡ l.deliveries)

SameTables-IsValid : (l l' : Ledger) → SameTables l l' → IsValid l → IsValid l'
SameTables-IsValid l l' same v = rw (same.0, same.1) v

module _ (normalize hash : String → String) where
  -- The calls on the accounts touch neither.
  abbrev pub is_account_call : Call → Bool
  is_account_call (tenant s name) = true
  is_account_call (member s t handle name caps) = true
  is_account_call (device s token m name) = true
  is_account_call (revoke now i) = true
  is_account_call (gateway s m name) = true
  is_account_call (provision s m name token_hash) = true
  is_account_call (rotate i token_hash) = true
  is_account_call (login now token) = true
  is_account_call _ = false

  pub perform-SameTables :
      (c : Call) (l : Ledger) → is_account_call c ≡ true → SameTables l (perform normalize hash c l)
  unfolding perform create_tenant create_member insert_member create_device insert_device
      revoke_device ensure_gateway_device rotate_token authenticate
  perform-SameTables (tenant s name) l h = ground arith
  perform-SameTables (member s t handle name caps) l h = ground arith
  perform-SameTables (device s token m name) l h = ground arith
  perform-SameTables (revoke now i) l h = ground arith
  perform-SameTables (gateway s m name) l h = ground arith
  perform-SameTables (provision s m name token_hash) l h = ground arith
  perform-SameTables (rotate i token_hash) l h = ground arith
  perform-SameTables (login now token) l h = ground arith
  perform-SameTables _ l h = cc

  pub perform-IsValid :
      (c : Call) (l : Ledger) → DrawsFresh c l → IsValid l → IsValid (perform normalize hash c l)
  unfolding perform
  perform-IsValid (push s p to_handle src_uuid payload rev) l fresh v =
      push_transfer-IsValid s p l v fresh to_handle src_uuid payload rev normalize
  perform-IsValid (lease now p limit seconds) l fresh v =
      lease_deliveries-IsValid now p limit seconds l v
  perform-IsValid (ack s p i dst) l fresh v = ack_delivery-IsValid s p l v fresh i dst
  perform-IsValid (nack s p i error) l fresh v = nack_delivery-IsValid s p l i error v
  perform-IsValid (observation s p i state) l fresh v = observe-IsValid s p i state l fresh v
  perform-IsValid c l fresh v =
      SameTables-IsValid l (perform normalize hash c l) (perform-SameTables c l refl) v

  empty-IsValid : IsValid empty
  unfolding find any
  empty-IsValid = record { keys = tt; fit = tt; distinct = tt; serves = λ i t h. cc }

  -- After every history of calls from an empty database, with new uuids for new deliveries, the tables
  -- are valid: no two transfers share their id or their push key, no two deliveries their id or their
  -- transfer, kind and addressee; every delivery fits its transfer; and every transfer has its create
  -- delivery, and, while it is not resolved and is not applied or has a terminal state, a delivery that is
  -- not done and whose addressee has, or is to get, a copy to act on. Of a resolved transfer it says that
  -- it has a create delivery, and that its deliveries fit it.
  pub reachable-IsValid : {l : Ledger} → Reach normalize hash l → IsValid l
  reachable-IsValid start = empty-IsValid
  reachable-IsValid (next {l} r c fresh) = perform-IsValid c l fresh (reachable-IsValid r)
