-- ===== src/Hub/Api/Once.antt =====
-- What code of a POST handler may do to the ledger: nothing, or one call as the caller.
pub mod Routes
use things_team.Base.{
  ◌≡◌, ◌⊎◌, refl, sym, subst, ap, ◌∙◌, ℕ, String, Bool, true, false, not, Option, none, some, inl,
  inr, arith, str_eq, Bool-cases, Option-cases, if◌then◌else◌,
}
use things_team.Base.Table.{find, any}
use things_team.Base.Table.Laws.{any-find, find-holds}
use things_team.Json.{Json, null, bool, num, text, arr, obj, Fields}
use things_team.Hub.Schema.{RowId, Member, Device, Ledger, Principal, Result, ok, err, after}
use things_team.Hub.Accounts.{create_tenant, create_member, create_device, revoke_device}
use things_team.Hub.Push.{push_transfer}
use things_team.Hub.Ack.{ack_delivery, nack_delivery}
use things_team.Hub.Observe.{observe}
use things_team.Hub.History.{
  Call, tenant, member, device, revoke, gateway, login, push, lease, ack, nack, observation,
  perform,
}
use things_team.Hub.Http.{
  Number, not_a_number, negative, natural, Body, no_body, unreadable, garbled, parsed, Moment, Wire,
  Fault, ledger_fault, internal, outside, Step, finished, fault, parked, Handler, give, throw,
  committed, on_ledger, ◌>>=◌, proceed, drop_prefix, drop_suffix, get_or, dict_of, text_arg,
}
use things_team.Hub.Replies.{device_json}
use things_team.Hub.Api.{
  Answer, not_found_reply, json_body, rev_arg, dst_arg, caps_of, push_route, ack_route, nack_route,
  delivery_route, observe_route, tenants_route, members_route, own_member, is_own_member,
  devices_route, own_device, is_own_device, revoke_route, revoked_id, admin_route, rest_route,
  post_as,
}

-- A call that a request of `p` may make: as `p`, and, on the accounts, by an admin and in the own tenant
abbrev pub IsOwn : Moment → Principal → Call → Ledger → Type 0
IsOwn m p (push s q to_handle src_uuid payload rev) l = (s ≡ m.draws) × (q ≡ p)
IsOwn m p (ack s q i dst) l = (s ≡ m.draws) × (q ≡ p)
IsOwn m p (nack s q i error) l = (s ≡ m.draws) × (q ≡ p)
IsOwn m p (observation s q i state) l = (s ≡ m.draws) × (q ≡ p)
IsOwn m p (tenant s name) l = p.can_admin ≡ true
IsOwn m p (member s t handle name caps) l = (p.can_admin ≡ true) × (t ≡ p.tenant_id)
IsOwn m p (device s token i name) l =
    (p.can_admin ≡ true) × (any (is_own_member i p) l.members ≡ true)
IsOwn m p (revoke now i) l = (p.can_admin ≡ true) × (any (is_own_device i p l) l.devices ≡ true)
IsOwn m p _ l = ⊥

-- Code that only reads.
abbrev pub Reads {ℓ} : {A : Type ℓ} → Ledger → Step A → Type 0
Reads l (finished a l') = l' ≡ l
Reads l (fault f l') = l' ≡ l
Reads l (parked l') = ⊥

pub text_arg-Reads : (v : Json) (l : Ledger) → Reads l (text_arg v l)
unfolding text_arg
text_arg-Reads (text s) l = refl
text_arg-Reads null l = refl
text_arg-Reads (bool b) l = refl
text_arg-Reads (num n) l = refl
text_arg-Reads (arr vs) l = refl
text_arg-Reads (obj fs) l = refl

pub dst_arg-Reads : (v : Json) (l : Ledger) → Reads l (dst_arg v l)
dst_arg-Reads null l = refl
dst_arg-Reads (text s) l = refl
dst_arg-Reads (bool b) l = refl
dst_arg-Reads (num n) l = refl
dst_arg-Reads (arr vs) l = refl
dst_arg-Reads (obj fs) l = refl

pub dict_of-Reads : (v : Json) (l : Ledger) → Reads l (dict_of v l)
unfolding dict_of
dict_of-Reads (obj fs) l = refl
dict_of-Reads (text s) l = refl
dict_of-Reads null l = refl
dict_of-Reads (bool b) l = refl
dict_of-Reads (num n) l = refl
dict_of-Reads (arr vs) l = refl

pub rev_arg-Reads : (n : Number) (l : Ledger) → Reads l (rev_arg n l)
rev_arg-Reads not_a_number l = refl
rev_arg-Reads negative l = refl
rev_arg-Reads (natural n) l = refl

pub json_body-Reads : (b : Body) (l : Ledger) → Reads l (json_body b l)
json_body-Reads no_body l = refl
json_body-Reads unreadable l = refl
json_body-Reads garbled l = refl
json_body-Reads (parsed v) l = refl

module _ (w : Wire) (m : Moment) (p : Principal) where
  -- An exception leaves the ledger as it was; a result comes with one call at most.
  abbrev pub Did {ℓ} : {A : Type ℓ} → Ledger → Step A → Type 0
  Did l (finished a l') =
      (l' ≡ l) ⊎ ((c : Call) × IsOwn m p c l × (l' ≡ perform w.normalize w.hash c l))
  Did l (fault f l') = l' ≡ l
  Did l (parked l') = ⊥

  pub record Once {ℓ} {A : Type ℓ} (h : Handler A) : Type 0 where
    pub at : (l : Ledger) → Did l (h l)

  pub Once-give {ℓ} : {A : Type ℓ} (a : A) → Once (give a)
  Once-give a = record { at = λ l. inl refl }

  pub Once-throw {ℓ} : {A : Type ℓ} (f : Fault) → Once (throw {A = A} f)
  Once-throw f = record { at = λ l. refl }

  pub Did-proceed {ℓ κ} :
      {A : Type ℓ} {B : Type κ} (l : Ledger) (s : Step A) (k : A → Handler B)
      → Reads l s
      → ((a : A) → Did l (k a l))
      → Did l (proceed s k)
  Did-proceed l (finished a l') k e h = subst (λ x. Did l (k a x)) (sym e) (h a)
  Did-proceed l (fault f l') k e h = e
  Did-proceed l (parked l') k e h = absurd e

  pub Once-after {ℓ κ} :
      {A : Type ℓ} {B : Type κ} (h : Handler A) (k : A → Handler B)
      → ((l : Ledger) → Reads l (h l))
      → ((a : A) → Once (k a))
      → Once (h >>= k)
  unfolding ◌>>=◌
  Once-after h k r o = record { at = λ l. Did-proceed l (h l) k (r l) (λ a. (o a).at l) }

  -- One call and its reply
  pub Did-committed {ℓ κ} :
      {A : Type ℓ} {B : Type κ} (l : Ledger) (r : Result A) (f : A → B) (c : Call)
      → after l r ≡ perform w.normalize w.hash c l
      → IsOwn m p c l
      → Did l (proceed (committed l r) (λ a. give (f a)))
  Did-committed l (ok a l') f c e own = inr (c, own, e)
  Did-committed l (err x) f c e own = refl

  pub Once-call {ℓ κ} :
      {A : Type ℓ} {B : Type κ} (g : Ledger → Result A) (f : A → B) (c : Call)
      → ((l : Ledger) → after l (g l) ≡ perform w.normalize w.hash c l)
      → ((l : Ledger) → IsOwn m p c l)
      → Once (on_ledger g >>= λ a. give (f a))
  unfolding on_ledger ◌>>=◌
  Once-call g f c e own = record { at = λ l. Did-committed l (g l) f c (e l) (own l) }

  pub Once-text {ℓ} :
      {A : Type ℓ} (v : Json) (k : String → Handler A)
      → ((s : String) → Once (k s))
      → Once (text_arg v >>= k)
  Once-text v k h = Once-after (text_arg v) k (text_arg-Reads v) h

  pub Once-if {ℓ} :
      {A : Type ℓ} (b : Bool) (x y : Handler A)
      → (b ≡ true → Once x)
      → (b ≡ false → Once y)
      → Once (if b then x else y)
  Once-if true x y h k = h refl
  Once-if false x y h k = k refl
