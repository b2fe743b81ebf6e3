-- ===== src/Hub/Http.antt =====
-- Requests to the hub, the answers to them, and the handlers of hub/api.py as code over the ledger that
-- may raise.
pub mod Ends
use things_team.Base.{ℕ, String, Option, none, some, str_eq, if◌then◌else◌}
use mathlib.Core.Option
use things_team.Json.{Json, text, obj, Fields}
use things_team.Json.Access.{find_field}
use things_team.Hub.Schema.{
  RowId, Time, Ledger, Draws, Error, ledger_error, auth_error, forbidden, not_found,
  integrity_error, Result, ok, err,
}

-- What `rfile.read` and `json.loads` make of the body: `garbled` raises JSONDecodeError, and `unreadable` another
-- exception, as a Content-Length that is no number does.
pub data Body : Type 0 where
  no_body unreadable garbled : Body
  parsed : Json → Body

pub data Method : Type 0 where
  get post : Method

-- A request, with the path and the query that `urlparse` and `parse_qs` find, each key with its first value,
-- and the header `Authorization`, empty if it is missing
pub record Request : Type 0 where
  pub method : Method
  pub path : String
  pub query : String → Option String
  pub authorization : String
  pub body : Body

-- The status with a payload, or with the text of an exception, which is left out. `unmodelled`: a field
-- of the body has another type than the ledger's columns. `waiting`: the long poll is not over.
pub data Reply : Type 0 where
  sent : ℕ → Json → Reply
  refused : ℕ → Reply
  unmodelled waiting : Reply

-- What a request draws from the outside: the time of the authentication and the draws of the call; the times
-- that the long poll reads before its first lease and after it; and the token of a new device
pub record Moment : Type 0 where
  pub login_at : Time
  pub draws : Draws
  pub asked_at : Time
  pub tested_at : Time
  pub token : String

-- What `int` makes of a value
pub data Number : Type 0 where
  not_a_number negative : Number
  natural : ℕ → Number

-- How the wire's texts and numbers are read and written; a negative `limit` or `wait` acts as 0. A row id is a text there, which is compared only, and
-- has the number `row_of`.
pub record Wire : Type 0 where
  pub row_of : String → RowId
  pub text_of : RowId → String
  pub int_of : Json → Number
  pub int_text : String → Option ℕ
  pub wait_text : String → Option Time
  pub str : Json → String
  pub strip : String → String
  pub normalize : String → String
  pub hash : String → String
  pub max_wait : Time
  pub lease_seconds : Time

-- An exception in a handler; the ledger comes with it, since the calls before have been committed.
pub data Fault : Type 0 where
  ledger_fault : Error → Fault
  bad_json internal outside : Fault

pub data Step {ℓ} (A : Type ℓ) : Type ℓ where
  finished : A → Ledger → Step A
  fault : Fault → Ledger → Step A
  parked : Ledger → Step A

abbrev pub Handler {ℓ} : Type ℓ → Type ℓ
Handler A = Ledger → Step A

abbrev pub ledger_of {ℓ} : {A : Type ℓ} → Step A → Ledger
ledger_of (finished a l) = l
ledger_of (fault f l) = l
ledger_of (parked l) = l

module _ {ℓ} {A : Type ℓ} where
  abbrev pub give : A → Handler A
  give a l = finished a l

  abbrev pub throw : Fault → Handler A
  throw f l = fault f l

  -- A call of the ledger
  abbrev pub committed : Ledger → Result A → Step A
  committed l (ok a l') = finished a l'
  committed l (err e) = fault (ledger_fault e) l

  unfoldable pub on_ledger : (Ledger → Result A) → Handler A
  on_ledger f l = committed l (f l)

module _ {ℓ κ} {A : Type ℓ} {B : Type κ} where
  abbrev pub proceed : Step A → (A → Handler B) → Step B
  proceed (finished a l) k = k a l
  proceed (fault f l) k = fault f l
  proceed (parked l) k = parked l

  infixl 10 ◌>>=◌
  unfoldable pub ◌>>=◌ : Handler A → (A → Handler B) → Handler B
  ◌>>=◌ h k l = proceed (h l) k

-- The status that `_handle` sends
abbrev pub status_of : Error → ℕ
status_of ledger_error = 400
status_of auth_error = 401
status_of forbidden = 403
status_of not_found = 404
status_of integrity_error = 500

abbrev pub reply_of : Step (ℕ × Json) → Reply
reply_of (finished (code, payload) l) = sent code payload
reply_of (fault (ledger_fault e) l) = refused (status_of e)
reply_of (fault bad_json l) = refused 400
reply_of (fault internal l) = refused 500
reply_of (fault outside l) = unmodelled
reply_of (parked l) = waiting

-- `_handle`
unfoldable pub handle : Handler (ℕ × Json) → Ledger → Reply × Ledger
handle h l = let s = h l in (reply_of s, ledger_of s)

-- `s[len(p):]` if `s.startswith(p)`
unfoldable pub drop_prefix : String → String → Option String
drop_prefix String.[] s = some s
drop_prefix (String.◌∷◌ c p) String.[] = none
drop_prefix (String.◌∷◌ c p) (String.◌∷◌ d s) =
    let rest = drop_prefix p s in
    if str_eq (String.◌∷◌ c String.[]) (String.◌∷◌ d String.[]) then rest else none

-- `s[:-len(t)]` if `s.endswith(t)`
unfoldable pub drop_suffix : String → String → Option String
drop_suffix t String.[] = if str_eq t "" then some "" else none
drop_suffix t (String.◌∷◌ c s) =
    let rest = Option.map (λ r. String.◌∷◌ c r) (drop_suffix t s) in
    if str_eq t (String.◌∷◌ c s) then some "" else rest

-- `body.get(k, d)` on the fields of a dict
abbrev pub get_or : String → Json → Fields → Json
get_or k d fs = elim (find_field k fs) [ none ↦ d | some v ↦ v ]

-- `body.get` raises where the body is no dict.
unfoldable pub dict_of : Json → Handler Fields
dict_of (obj fs) = give fs
dict_of _ = throw internal

-- An argument that the ledger keeps in a text column
unfoldable pub text_arg : Json → Handler String
text_arg (text s) = give s
text_arg _ = throw outside
