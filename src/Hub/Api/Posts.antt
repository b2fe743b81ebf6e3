-- ===== src/Hub/Api/Posts.antt =====
-- What a POST comes to.
use things_team.Base.{
  ◌≡◌, ◌⊎◌, refl, ap, ◌∙◌, String, Option, none, some, List, inl, inr, arith, Option-cases,
}
use things_team.Base.Table.{find}
use things_team.Hub.Schema.{Time, Ledger, Principal, Error, auth_error, Result, ok, err}
use things_team.Hub.Rows.{find_member}
use things_team.Hub.Accounts.{authenticate, has_token}
use things_team.Hub.History.{Call, perform}
use things_team.Hub.Http.{
  Method, get, post, Request, Reply, sent, refused, unmodelled, waiting, Moment, Wire, ledger_fault,
  bad_json, internal, outside, Step, finished, fault, parked, committed, proceed, on_ledger, ◌>>=◌,
  handle, drop_prefix, reply_of, ledger_of,
}
use things_team.Hub.Api.{
  Answer, Turn, token_principal, principal, route, json_body, post_as, post_route, serve,
}
use things_team.Hub.Api.Once.{IsOwn, Did}
use things_team.Hub.Api.Once.Routes.{post_body-Once}

-- Every refusal of a token is an AuthError.
pub authenticate_fails :
    (hash : String → String) (now : Time) (token : String) (l : Ledger) {e : Error}
    → authenticate hash now token l ≡ err e
    → e ≡ auth_error
unfolding authenticate
authenticate_fails hash now token l h =
    elim (Option-cases (find (has_token (hash token)) l.devices)) [
      | inl unknown ↦ ground arith
      | inr (d, known) ↦ elim (Option-cases (find_member d.member_id l)) [
        | inl gone ↦ ground arith
        | inr (x, here) ↦ ground arith
      ]
    ]

module _ (w : Wire) (m : Moment) where
  -- The header has no bearer token, or the ledger's authentication refuses it.
  abbrev pub IsUnknown : String → Ledger → Type 0
  IsUnknown authorization l =
      (drop_prefix "Bearer " authorization ≡ none)
      ⊎ ((token : String) × (drop_prefix "Bearer " authorization ≡ some token)
          × (authenticate w.hash m.login_at (w.strip token) l ≡ err auth_error))

  -- What the authentication of a request gives
  abbrev pub Known : String → Ledger → Step Principal → Type 0
  Known authorization l (finished p l1) =
      (token : String) × (drop_prefix "Bearer " authorization ≡ some token)
      × (authenticate w.hash m.login_at (w.strip token) l ≡ ok p l1)
  Known authorization l (fault f l') =
      (f ≡ ledger_fault auth_error) × (l' ≡ l) × IsUnknown authorization l
  Known authorization l (parked l') = ⊥

  token-Known :
      (authorization token : String) (l : Ledger) (x : Result Principal)
      → drop_prefix "Bearer " authorization ≡ some token
      → authenticate w.hash m.login_at (w.strip token) l ≡ x
      → Known authorization l (committed l x)
  token-Known authorization token l (ok p l1) e a = (token, e, a)
  token-Known authorization token l (err x) e a =
      let refused_by : x ≡ auth_error = authenticate_fails w.hash m.login_at (w.strip token) l a in
      (ap ledger_fault refused_by, refl, inr (token, e, a ∙ ap err refused_by))

  pub principal-Known :
      (authorization : String) (l : Ledger) → Known authorization l (principal w m authorization l)
  unfolding principal on_ledger
  principal-Known authorization l = with_token (drop_prefix "Bearer " authorization) refl
    where
      with_token :
          (o : Option String)
          → drop_prefix "Bearer " authorization ≡ o
          → Known authorization l (token_principal w m o l)
      with_token none e = (refl, refl, inl e)
      with_token (some token) e = token-Known authorization token l _ e refl

module _ (w : Wire) (m : Moment) where
  -- A reply to the authenticated caller, and the ledger then
  abbrev pub Settled : Principal → Ledger → Reply → Ledger → Type 0
  Settled p l (sent code payload) l' =
      (l' ≡ l) ⊎ ((c : Call) × IsOwn m p c l × (l' ≡ perform w.normalize w.hash c l))
  Settled p l (refused code) l' = l' ≡ l
  Settled p l unmodelled l' = l' ≡ l
  Settled p l waiting l' = ⊥

  Did-Settled :
      (p : Principal) (l : Ledger) (s : Step Answer)
      → Did w m p l s
      → Settled p l (reply_of s) (ledger_of s)
  Did-Settled p l (finished (code, payload) l') d = d
  Did-Settled p l (fault (ledger_fault e) l') d = d
  Did-Settled p l (fault bad_json l') d = d
  Did-Settled p l (fault internal l') d = d
  Did-Settled p l (fault outside l') d = d
  Did-Settled p l (parked l') d = absurd d

  abbrev pub Posted : Request → Ledger → Reply → Ledger → Type 0
  Posted r l reply l' =
      ((reply ≡ refused 401) × (l' ≡ l) × IsUnknown w m r.authorization l)
      ⊎ ((token : String) × (p : Principal) × (l1 : Ledger) × (drop_prefix "Bearer " r.authorization
            ≡ some token)
          × (authenticate w.hash m.login_at (w.strip token) l ≡ ok p l1)
          × Settled p l1 reply l')

  pub post_Posted :
      (r : Request) (l : Ledger)
      → let s = post_route w m r l in Posted r l (reply_of s) (ledger_of s)
  unfolding post_route ◌>>=◌
  post_Posted r l = settle (principal w m r.authorization l) (principal-Known w m r.authorization l)
    where
      settle :
          (s : Step Principal)
          → Known w m r.authorization l s
          → let x = proceed s (λ p. json_body r.body >>= post_as w m r.path p) in
            Posted r l (reply_of x) (ledger_of x)
      settle (finished p l1) (token, e, a) =
          inr (token, p, l1, e, a, Did-Settled p l1 _ ((post_body-Once w m p r.path r.body).at l1))
      settle (fault f l') (e, h, u) = inl (ap (λ g. reply_of (fault g l')) e, h, u)
      settle (parked l') k = absurd k

  -- A POST without a bearer token, or with one that the ledger's authentication refuses, is answered with 401,
  -- and changes nothing. Any other has a token that authenticates a member, and is answered as that member: an
  -- exception leaves the ledger as the authentication has left it, and a payload comes with at most one call
  -- of the ledger. It is a push, an ack, a nack or an observation as that member, or, if the member is an
  -- admin, a new tenant, a new member of the own tenant, or a device made or revoked for a member of it.
  pub post_settles :
      (r : Request) (turns : List Turn) (l : Ledger)
      → r.method ≡ post
      → let (reply, l') = serve w m r turns l in Posted r l reply l'
  unfolding serve handle
  post_settles r turns l e = by_method r.method e
    where
      by_method :
          (x : Method)
          → x ≡ post
          → let s = route w m x r turns l in Posted r l (reply_of s) (ledger_of s)
      by_method post e = post_Posted r l
      by_method get e = cc
