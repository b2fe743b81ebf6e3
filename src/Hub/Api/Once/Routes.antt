-- ===== src/Hub/Api/Once/Routes.antt =====
-- The POST routes do nothing to the ledger, or one call as the caller.
use things_team.Base.{
  ◌≡◌, refl, String, true, not, Option, none, some, inl, inr, arith, str_eq, Option-cases,
}
use things_team.Base.Table.{find, any}
use things_team.Base.Table.Laws.{any-find, find-holds}
use things_team.Json.{Json, text, Fields}
use things_team.Hub.Schema.{RowId, Member, Ledger, Principal}
use things_team.Hub.Accounts.{create_device, revoke_device}
use things_team.Hub.History.{tenant, member, device, revoke, push, ack, nack, observation, perform}
use things_team.Hub.Http.{
  Body, Moment, Wire, Handler, give, on_ledger, ◌>>=◌, drop_prefix, drop_suffix, get_or, text_arg,
}
use things_team.Hub.Replies.{device_json}
use things_team.Hub.Api.{
  Answer, not_found_reply, json_body, caps_of, push_route, ack_route, nack_route, delivery_route,
  observe_route, tenants_route, members_route, own_member, is_own_member, devices_route, own_device,
  is_own_device, revoke_route, revoked_id, admin_route, rest_route, post_as,
}
use things_team.Hub.Api.Once.{
  Did, Once, Once-give, Once-throw, Did-proceed, Once-after, Did-committed, Once-call,
  text_arg-Reads, dst_arg-Reads, dict_of-Reads, rev_arg-Reads, Once-text, Once-if, json_body-Reads,
}

module _ (w : Wire) (m : Moment) (p : Principal) where
  push_route-Once : (fs : Fields) → Once w m p (push_route w m p fs)
  unfolding push_route perform
  push_route-Once fs = Once-text w m p _ _ (λ to. Once-text w m p _ _ (λ src_uuid.
      Once-after w m p _ _ (rev_arg-Reads _) (λ rev.
        Once-call w m p _ _ (push m.draws p to src_uuid _ rev) (λ l. refl) (λ l. (refl, refl)))))

  ack_route-Once : (i : String) (fs : Fields) → Once w m p (ack_route w m p i fs)
  unfolding ack_route perform
  ack_route-Once i fs =
      Once-after w m p _ _ (dst_arg-Reads _) (λ dst.
        Once-call w m p _ _ (ack m.draws p (w.row_of i) dst) (λ l. refl) (λ l. (refl, refl)))

  nack_route-Once : (i : String) (fs : Fields) → Once w m p (nack_route w m p i fs)
  unfolding nack_route perform
  nack_route-Once i fs =
      Once-call w m p _ _ (nack m.draws p (w.row_of i) _) (λ l. refl) (λ l. (refl, refl))

  delivery_route-Once : (rest : String) (body : Json) → Once w m p (delivery_route w m p rest body)
  unfolding delivery_route
  delivery_route-Once rest body = elim (Option-cases (drop_suffix "/ack" rest)) [
    | inr (i, e) ↦
        rw (e, delivery_route) (Once-after w m p _ _ (dict_of-Reads body) (ack_route-Once i))
    | inl no_ack ↦ elim (Option-cases (drop_suffix "/nack" rest)) [
      | inr (i, e) ↦
          rw (no_ack, e, delivery_route)
            (Once-after w m p _ _ (dict_of-Reads body) (nack_route-Once i))
      | inl no_nack ↦ rw (no_ack, no_nack, delivery_route) (Once-give w m p _)
    ]
  ]

  observe_route-Once : (fs : Fields) → Once w m p (observe_route w m p fs)
  unfolding observe_route perform
  observe_route-Once fs = Once-text w m p _ _ (λ i. Once-text w m p _ _ (λ state.
      Once-call w m p _ _ (observation m.draws p (w.row_of i) state) (λ l. refl)
        (λ l. (refl, refl))))

  module _ (admin : p.can_admin ≡ true) where
    tenants_route-Once : (fs : Fields) → Once w m p (tenants_route w m fs)
    unfolding tenants_route perform
    tenants_route-Once fs =
        Once-text w m p _ _
          (λ name. Once-call w m p _ _ (tenant m.draws name) (λ l. refl) (λ l. admin))

    members_route-Once : (fs : Fields) → Once w m p (members_route w m p fs)
    unfolding members_route perform
    members_route-Once fs = Once-text w m p _ _ (λ handle. Once-text w m p _ _ (λ name.
        Once-call w m p _ _ (member m.draws p.tenant_id handle name (caps_of fs)) (λ l. refl)
          (λ l. (admin, refl))))

    -- The device of a member that was found in the tenant
    made : (x : Member) (fs : Fields) → Handler Answer
    made x fs = text_arg (get_or "name" (text "device") fs) >>= λ name.
        on_ledger (create_device w.hash m.draws m.token x.id name) >>= λ d.
        give (201, device_json w d x.id name m.token)

    made-Did :
        (x : Member) (fs : Fields) (l : Ledger)
        → any (is_own_member x.id p) l.members ≡ true
        → Did w m p l (made x fs l)
    unfolding made perform ◌>>=◌ on_ledger
    made-Did x fs l e =
        Did-proceed w m p l (text_arg (get_or "name" (text "device") fs) l) _ (text_arg-Reads _ l)
          (λ name.
            Did-committed w m p l (create_device w.hash m.draws m.token x.id name l) _
              (device m.draws m.token x.id name) refl (admin, e))

    found_member :
        (i : RowId) (fs : Fields) (l : Ledger) → Did w m p l ((own_member i p >>= λ x. made x fs) l)
    unfolding own_member ◌>>=◌
    found_member i fs l = elim (Option-cases (find (is_own_member i p) l.members)) [
      | inl absent ↦ rw (absent, own_member) refl
      | inr (x, h) ↦
          let here = any-find (is_own_member i p) l.members h in
          let same : x.id ≡ i = ground (arith, find-holds (is_own_member i p) l.members h) in
          rw (h, own_member) (made-Did x fs l (rw same here))
    ]

    devices_route-Once : (fs : Fields) → Once w m p (devices_route w m p fs)
    unfolding devices_route made
    devices_route-Once fs = Once-text w m p _ _ (λ i. record { at = found_member (w.row_of i) fs })

    revoke_route-Once : (i : String) → Once w m p (revoke_route w m p i)
    unfolding revoke_route own_device ◌>>=◌ on_ledger perform
    revoke_route-Once i = record {
      at = λ l. elim (Option-cases (find (is_own_device (w.row_of i) p l) l.devices)) [
        | inl absent ↦ rw (absent, own_device) refl
        | inr (d, h) ↦
            rw (h, own_device)
              (Did-committed w m p l (revoke_device m.draws.now (w.row_of i) l) _
                (revoke m.draws.now (w.row_of i)) refl
                (admin, any-find (is_own_device (w.row_of i) p l) l.devices h))
      ];
    }

  other_route-Once :
      (rest : String)
      → p.can_admin ≡ true
      → (o : Option String)
      → Once w m p (elim o [ none ↦ give not_found_reply | some i ↦ revoke_route w m p i ])
  other_route-Once rest admin none = Once-give w m p _
  other_route-Once rest admin (some i) = revoke_route-Once admin i

  admin_route-Once : (rest : String) (body : Json) → Once w m p (admin_route w m p rest body)
  unfolding admin_route
  admin_route-Once rest body =
      Once-if w m p (not p.can_admin) _ _ (λ plain. Once-throw w m p _)
        (λ h.
          let admin : p.can_admin ≡ true = ground arith in
          Once-if w m p (str_eq rest "tenants") _ _
            (λ e. Once-after w m p _ _ (dict_of-Reads body) (tenants_route-Once admin))
            (λ e.
              Once-if w m p (str_eq rest "members") _ _
                (λ e. Once-after w m p _ _ (dict_of-Reads body) (members_route-Once admin))
                (λ e.
                  Once-if w m p (str_eq rest "devices") _ _
                    (λ e. Once-after w m p _ _ (dict_of-Reads body) (devices_route-Once admin))
                    (λ e. other_route-Once rest admin (revoked_id rest)))))

  rest_option-Once :
      (body : Json) (o : Option String)
      → Once w m p
          (elim o [ none ↦ give not_found_reply | some rest ↦ admin_route w m p rest body ])
  rest_option-Once body none = Once-give w m p _
  rest_option-Once body (some rest) = admin_route-Once rest body

  rest_route-Once : (path : String) (body : Json) → Once w m p (rest_route w m p path body)
  unfolding rest_route
  rest_route-Once path body =
      Once-if w m p (str_eq path "/v1/observations") _ _
        (λ e. Once-after w m p _ _ (dict_of-Reads body) observe_route-Once)
        (λ e. rest_option-Once body (drop_prefix "/v1/admin/" path))

  post_option-Once :
      (path : String) (body : Json) (o : Option String)
      → Once w m p (elim o [
        | some rest ↦ delivery_route w m p rest body
        | none ↦ rest_route w m p path body
      ])
  post_option-Once path body none = rest_route-Once path body
  post_option-Once path body (some rest) = delivery_route-Once rest body

  pub post_as-Once : (path : String) (body : Json) → Once w m p (post_as w m path p body)
  unfolding post_as
  post_as-Once path body =
      Once-if w m p (str_eq path "/v1/transfers") _ _
        (λ e. Once-after w m p _ _ (dict_of-Reads body) push_route-Once)
        (λ e. post_option-Once path body (drop_prefix "/v1/deliveries/" path))

  pub post_body-Once : (path : String) (b : Body) → Once w m p (json_body b >>= post_as w m path p)
  post_body-Once path b = Once-after w m p (json_body b) _ (json_body-Reads b) (post_as-Once path)
