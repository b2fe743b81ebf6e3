-- ===== src/Spoke/HubHttp/Served.antt =====
-- The client of spoke/hub_http.py over the API of hub/api.py.
use Prim.Native.String
use Prim.Native.String.append
use things_team.Base.{
  ◌≡◌, refl, arith, false, ap, ◌∙◌, ℕ, String, Option, none, some, [], leb, str_eq, eq_iff,
  if◌then◌else◌,
}
use things_team.Json.{Json, num}
use things_team.Json.Access.{Texts, find_field}
use things_team.Exec.{
  continue, outcome, Outcome, Reply, returned, failed, finished, raised, pure, raise, ◌>>=◌,
}
use things_team.Hub.Schema.{Ledger, Principal, Result, ok, err}
use things_team.Hub.Accounts.{authenticate}
use things_team.Hub.Direct.{direct_client, direct_push, direct_observe}
use things_team.Hub.Http.{
  Moment, Wire, natural, on_ledger, handle, drop_prefix, dict_of, text_arg, status_of,
}
use things_team.Hub.Http
use things_team.Hub.Replies.{receipt_json, observation_json}
use things_team.Hub.Api
use things_team.Hub.Api.{
  serve, post_route, principal, post_as, push_route, rest_route, observe_route,
}
use things_team.Spoke.Call.{call}
use things_team.Spoke.Queue
use things_team.Spoke.HubHttp.{
  Answer, answered, refused, Network, HttpHubClient, ask_hub, answer_of, http_push, http_observe,
}

-- The text after a prefix
drop_prefix-append : (p s : String) → drop_prefix p (String.◌++◌ p s) ≡ some s
unfolding drop_prefix
drop_prefix-append String.[] s = ap some (append.nil s)
drop_prefix-append (String.◌∷◌ c p) s =
    ap (drop_prefix (String.◌∷◌ c p)) (append.cons c p s)
    ∙ rw ((eq_iff (String.◌∷◌ c String.[]) (String.◌∷◌ c String.[])).1 refl)
        (drop_prefix-append p s)

module _ (w : Wire) (m : Moment) (path_of : String → String) (error_of : ℕ → String)
    (key : String) where
  abbrev body_of : Option Json → Http.Body
  body_of none = Http.no_body
  body_of (some v) = Http.parsed v

  -- What the server reads of a request, which has no query here; `path_of` is what `urlparse` finds.
  abbrev incoming : Queue.Request → Http.Request
  incoming r = record {
    method = if str_eq r.method "POST" then Http.post else Http.get;
    path = path_of r.url;
    query = λ k. none;
    authorization = r.authorization;
    body = body_of r.body;
  }

  -- `urlopen` raises on a status of 400 or more.
  abbrev answer_from : Http.Reply → Reply Answer
  answer_from (Http.sent code v) =
      returned (if leb 400 code then refused code (error_of code) else answered v)
  answer_from (Http.refused code) = returned (refused code (error_of code))
  answer_from Http.unmodelled = failed ""
  answer_from Http.waiting = failed ""

  -- A network with the hub at its other end, where one request is served at a time
  abbrev pub hub_network : Network Ledger
  hub_network = record {
    token = λ l. (returned key, l);
    send = λ r l. let (reply, l') = serve w m (incoming r) [] l in (answer_from reply, l');
  }

  module _ (h : HttpHubClient) where
    -- What the caller gets of a call of the ledger: its value as JSON, or the status of its error
    abbrev pub received {ℓ} : {A : Type ℓ} → (A → Json) → Result A → Ledger → Outcome Json × Ledger
    received f (ok a l') l1 = (finished (f a), l')
    received f (err e) l1 = (raised (h.error_text (status_of e) (error_of (status_of e))), l1)

    replied {ℓ} :
        {A : Type ℓ} (texts : Texts) (code : A → ℕ) (f : A → Json) (x : Result A) (l1 : Ledger)
        → ((a : A) → leb 400 (code a) ≡ false)
        → let s =
            Http.proceed {B = Api.Answer} (Http.committed l1 x) (λ a. Http.give (code a, f a)) in
          continue
            (outcome (answer_from (Http.reply_of s)))
            (answer_of hub_network texts h)
            (Http.ledger_of s)
          ≡ received f x l1
    unfolding answer_of pure raise
    replied texts code f (ok a l') l1 good = rw (good a) refl
    replied texts code f (err e) l1 good = refl

    -- A push by the client of the spoke, over the HTTP API and with a key that the hub knows, is a push by the
    -- direct client of the key's member after the authentication: it leaves the same ledger, and gives the
    -- receipt as JSON, or raises with the status of the error. `urlparse` finds the path after the hub's
    -- address, and `int` leaves a revision as it is.
    pub push_served :
        (texts : Texts) (to src_uuid : String) (payload : Json) (rev : ℕ) (p : Principal)
        (l l1 : Ledger)
        → path_of (String.◌++◌ h.hub_url "/v1/transfers") ≡ "/v1/transfers"
        → w.int_of (num rev) ≡ natural rev
        → authenticate w.hash m.login_at (w.strip key) l ≡ ok p l1
        → http_push hub_network texts h to src_uuid payload rev l
          ≡ received
              (receipt_json w)
              (direct_push (direct_client p) w.normalize m.draws to src_uuid payload rev l1)
              l1
    unfolding http_push ask_hub call ◌>>=◌ serve handle post_route principal Http.◌>>=◌ on_ledger
        post_as push_route dict_of text_arg find_field direct_push answer_of pure raise
    push_served texts to src_uuid payload rev p l l1 path int known =
        rw (path, drop_prefix-append "Bearer " key, known, int)
          (replied texts _ (receipt_json w) _ l1 (λ r. ground arith))

    -- An observation by the client of the spoke, over the HTTP API and with a key that the hub knows, is one by
    -- the direct client of the key's member after the authentication, of the transfer that the text names: it
    -- leaves the same ledger, and gives the same answer as JSON, or raises with the status of the error.
    -- `urlparse` finds the path after the hub's address.
    pub observe_served :
        (texts : Texts) (i state : String) (p : Principal) (l l1 : Ledger)
        → path_of (String.◌++◌ h.hub_url "/v1/observations") ≡ "/v1/observations"
        → authenticate w.hash m.login_at (w.strip key) l ≡ ok p l1
        → http_observe hub_network texts h i state l
          ≡ received observation_json
              (direct_observe (direct_client p) m.draws (w.row_of i) state l1)
              l1
    unfolding http_observe ask_hub call ◌>>=◌ serve handle post_route principal Http.◌>>=◌ on_ledger
        post_as rest_route observe_route dict_of text_arg find_field direct_observe answer_of pure
        raise drop_prefix
    observe_served texts i state p l l1 path known =
        rw (path, drop_prefix-append "Bearer " key, known, path)
          (replied texts (λ o. 200) observation_json _ l1 (λ o. refl))
