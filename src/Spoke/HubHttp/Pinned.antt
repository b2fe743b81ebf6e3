-- ===== src/Spoke/HubHttp/Pinned.antt =====
-- Where the token of a spoke goes.
use Prim.Native.String
use things_team.Base.{◌≡◌, refl, ℕ, String, Option}
use things_team.Json.{Json}
use things_team.Json.Access.{Texts}
use things_team.Json.Access.Rules.{dict-Keeps}
use things_team.Exec.{Exec}
use things_team.Exec.Keeps.{Keeps, Keeps-pure, Keeps-raise, Keeps-bind, Keeps-on_option}
use things_team.Spoke.Call.{call-Keeps}
use things_team.Spoke.Queue.{Request}
use things_team.Spoke.HubHttp.{
  Answer, answered, refused, redirected, Network, HttpHubClient, answer_of, hub_request, ask_hub,
  list_of, http_push, http_deliveries, http_ack, http_nack, http_watch, http_observe, http_health,
}

-- A call of the client
pub data HubCall : Type 0 where
  pushing : String → String → Json → ℕ → HubCall
  polling : ℕ → HubCall
  acking : String → Option String → HubCall
  nacking : String → String → HubCall
  watching : HubCall
  observing : String → String → HubCall
  probing : HubCall

abbrev pub called {ℓ} : {W : Type ℓ} → Network W → Texts → HttpHubClient → HubCall → Exec W Json
called n t h (pushing to u v rev) = http_push n t h to u v rev
called n t h (polling limit) = http_deliveries n t h limit
called n t h (acking i u) = http_ack n t h i u
called n t h (nacking i e) = http_nack n t h i e
called n t h watching = http_watch n t h
called n t h (observing i x) = http_observe n t h i x
called n t h probing = http_health n t h

-- What a request to the hub keeps, and the provider of the token; of other requests nothing is said.
pub record Pinned {ℓ κ} {W : Type ℓ} (network : Network W) (hub_url : String) (P : W → Type κ)
    : Type (ℓ ⊔ κ) where
  pub token_keeps : (w : W) → P w → P (network.token w).1
  pub send_keeps :
      (r : Request) (path : String)
      → r.url ≡ String.◌++◌ hub_url path
      → (w : W) → P w
      → P (network.send r w).1

module _ {ℓ κ} {W : Type ℓ} {network : Network W} {P : W → Type κ} (texts : Texts)
    (h : HttpHubClient) (pinned : Pinned network h.hub_url P) where
  answer_of-Keeps : (a : Answer) → Keeps P (answer_of network texts h a)
  unfolding answer_of
  answer_of-Keeps (answered v) = Keeps-pure v
  answer_of-Keeps (refused code body) = Keeps-raise _
  answer_of-Keeps (redirected code body) = Keeps-raise _

  ask_hub-Keeps :
      (method path : String) (b : Option Json) → Keeps P (ask_hub network texts h method path b)
  unfolding ask_hub
  ask_hub-Keeps method path b = Keeps-bind _ _ (call-Keeps network.token pinned.token_keeps) (λ t.
      Keeps-bind _ _
        (call-Keeps _ (pinned.send_keeps (hub_request network texts h method path b t) path refl))
        answer_of-Keeps)

  list_of-Keeps : (key : String) (v : Json) → Keeps P (list_of network texts h key v)
  unfolding list_of
  list_of-Keeps key v =
      Keeps-bind _ _ (dict-Keeps texts P _ v)
        (λ fs. Keeps-on_option _ _ _ (Keeps-pure _) Keeps-pure)

  called-Keeps : (x : HubCall) → Keeps P (called network texts h x)
  unfolding http_push http_deliveries http_ack http_nack http_watch http_observe http_health
  called-Keeps (pushing to u v rev) = ask_hub-Keeps _ _ _
  called-Keeps (polling limit) = Keeps-bind _ _ (ask_hub-Keeps _ _ _) (list_of-Keeps _)
  called-Keeps (acking i u) = ask_hub-Keeps _ _ _
  called-Keeps (nacking i e) = ask_hub-Keeps _ _ _
  called-Keeps watching = Keeps-bind _ _ (ask_hub-Keeps _ _ _) (list_of-Keeps _)
  called-Keeps (observing i x) = ask_hub-Keeps _ _ _
  called-Keeps probing = ask_hub-Keeps _ _ _

  -- Whatever the hub answers, redirects included, the requests of a call all go to URLs that start with
  -- the hub's: what such requests and the provider of the token keep, each call keeps.
  pub requests_pinned : (x : HubCall) (w : W) → P w → P (called network texts h x w).1
  requests_pinned x w p = (called-Keeps x).at w p
