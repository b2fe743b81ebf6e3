-- ===== src/Spoke/Outbound/Fate.antt =====
-- What becomes of each candidate of an outbound phase.
use things_team.Base.{
  ◌≡◌, refl, subst, String, Bool, true, false, not, ◌||◌, Option, none, some, List, ◌∷◌, [], ◌==◌,
  ltb, arith, inl, inr, Bool-cases, eq_iff, str_eq, ℕ,
}
use things_team.Base.Table.{find, any}
use things_team.Base.Table.Laws.{All, All-map}
use things_team.Base.Table.Exists.{All-always}
use things_team.Base.Table.Queries.{length}
use things_team.Json.{Json}
use things_team.Hub.Schema.{RowId, Time}
use things_team.Hub.Rows.{is_null}
use things_team.Spoke.State.{SpokeState, known_sent, write, sent}
use things_team.Spoke.State.Journal.{write-known_sent}
use things_team.Spoke.Outbound.{
  Candidate, refusal, envelope, Trigger, handle_of, match_tags, PushHub, Route, add_triggers,
  all_triggers, pushed, outbound_one, outbound_loop, outbound_with, outbound,
}
use things_team.Spoke.Outbound.Once.{is_pushable, one_cases, settles_loop, with_once}

-- A todo that repeats, is too long, or is not a to-do
abbrev pub is_refused : Candidate → Bool
is_refused c = c.is_repeating || (ltb 100 (length c.checklist) || not (c.kind == 0))

-- One of the tags is, up to case, a tag of one of the routes.
abbrev pub is_tagged : (String → String) → List Route → List String → Bool
is_tagged lower routes gs =
    any (λ g. any (λ (r : Route). any (λ k. str_eq (lower k) (lower g)) r.tags) routes) gs

refusal-refused : (c : Candidate) → is_null (refusal c) ≡ not (is_refused c)
unfolding refusal
refusal-refused c = ground arith

any-add_triggers :
    (lower : String → String) (handle x : String) (gs : List String) (ts : List Trigger)
    → any (λ (t : Trigger). str_eq t.tag x) (add_triggers lower handle gs ts)
      ≡ (any (λ k. str_eq (lower k) x) gs || any (λ (t : Trigger). str_eq t.tag x) ts)
unfolding add_triggers any
any-add_triggers lower handle x [] ts = refl
any-add_triggers lower handle x (g ∷ gs) ts =
    ground
      (arith, any-add_triggers lower handle x gs (record { tag = lower g; handle = handle } ∷ ts))

any-all_triggers :
    (lower : String → String) (x : String) (routes : List Route) (ts : List Trigger)
    → any (λ (t : Trigger). str_eq t.tag x) (all_triggers lower routes ts) ≡ (
        any (λ (r : Route). any (λ k. str_eq (lower k) x) r.tags) routes
        || any (λ (t : Trigger). str_eq t.tag x) ts)
unfolding all_triggers any
any-all_triggers lower x [] ts = refl
any-all_triggers lower x (r ∷ rs) ts = ground (
  arith,
  any-all_triggers lower x rs (add_triggers lower r.handle r.tags ts),
  any-add_triggers lower r.handle x r.tags ts,
)

handle_of-any :
    (x : String) (ts : List Trigger)
    → is_null (handle_of x ts) ≡ not (any (λ (t : Trigger). str_eq t.tag x) ts)
unfolding handle_of find any
handle_of-any x [] = refl
handle_of-any x (t ∷ ts) = ground (arith, handle_of-any x ts)

-- The code finds a handle where there is a trigger tag.
match_tags-tagged :
    (lower : String → String) (routes : List Route) (gs : List String)
    → is_null (match_tags lower (all_triggers lower routes []) gs) ≡ not (is_tagged lower routes gs)
unfolding match_tags any
match_tags-tagged lower routes [] = refl
match_tags-tagged lower routes (g ∷ gs) = ground (
  arith,
  handle_of-any (lower g) (all_triggers lower routes []),
  any-all_triggers lower (lower g) routes [],
  match_tags-tagged lower routes gs,
)

module _ {ℓ} {H : Type ℓ} (lower : String → String) (clock : Candidate → Time) (push : PushHub H)
    (ts : List Trigger) (has : String → H → Bool)
    (takes : (to uuid : String) (payload : Json) (rev : ℕ) (h : H)
      → has uuid (push to uuid payload rev h).1 ≡ true)
    (stays : (u to uuid : String) (payload : Json) (rev : ℕ) (h : H)
      → has u h ≡ true
      → has u (push to uuid payload rev h).1 ≡ true)
    (before : String → Bool) where
  -- A todo that the state knows as sent was known before, or the hub has it.
  abbrev pub Backed : H × SpokeState → Type 0
  Backed x = (u : String) → known_sent u 1 x.1 ≡ true → (before u || has u x.0) ≡ true

  pushed-Backed :
      (c : Candidate) (st : SpokeState) (h : H) (r : Option RowId × H)
      → has c.uuid r.1 ≡ true
      → ((u : String) → has u h ≡ true → has u r.1 ≡ true)
      → Backed (h, st)
      → Backed (pushed lower clock push c st r)
  unfolding write
  pushed-Backed c st h (none, h') own old b u k = ground (arith, b u, old u)
  pushed-Backed c st h (some i, h') own old b u k = elim (Bool-cases (known_sent u 1 st)) [
    | inl known ↦ ground (arith, b u known, old u)
    | inr new ↦
        let marked = write-known_sent u 1 (sent (clock c) c.uuid 1 (some i)) st in
        let same : c.uuid ≡ u = (eq_iff c.uuid u).0 (ground (arith, marked)) in
        ground (arith, subst (λ v. has v h' ≡ true) same own)
  ]

  one-Backed :
      (c : Candidate) (h : H) (st : SpokeState)
      → Backed (h, st)
      → Backed (outbound_one lower clock push ts c h st)
  one-Backed c h st b =
      one_cases lower clock push ts Backed c h st (λ s. b)
        (λ to s.
          pushed-Backed c st h (push to c.uuid (envelope c) 1 h) (takes to c.uuid (envelope c) 1 h)
            (λ u. stays u to c.uuid (envelope c) 1 h) b)

  pub loop-Backed :
      (cs : List Candidate) (h : H) (st : SpokeState)
      → Backed (h, st)
      → Backed (outbound_loop lower clock push ts cs h st)
  unfolding outbound_loop
  loop-Backed [] h st b = b
  loop-Backed (c ∷ cs) h st b =
      let (h', st') = outbound_one lower clock push ts c h st in
      loop-Backed cs h' st' (one-Backed c h st b)

-- What holds of a candidate after the phase, in the words of the code: it was known as sent, the hub has
-- it, or it is refused or has no trigger tag
abbrev pub is_handled {ℓ} :
    {H : Type ℓ}
    → (String → String)
    → List Route
    → (String → H → Bool)
    → SpokeState
    → H
    → Candidate
    → Bool
is_handled lower routes has st h c =
    known_sent c.uuid 1 st
    || (has c.uuid h || (is_refused c || not (is_tagged lower routes c.tags)))

no_triggers : (lower : String → String) (gs : List String) → match_tags lower [] gs ≡ none
unfolding match_tags handle_of find
no_triggers lower [] = refl
no_triggers lower (g ∷ gs) = no_triggers lower gs

module _ {ℓ} {H : Type ℓ} (lower : String → String) (clock clock' : Candidate → Time)
    (push : PushHub H) (routes : List Route) (has : String → H → Bool)
    (accepts : (to uuid : String) (payload : Json) (rev : ℕ) (x : H)
      → is_null (push to uuid payload rev x).0 ≡ false)
    (takes : (to uuid : String) (payload : Json) (rev : ℕ) (x : H)
      → has uuid (push to uuid payload rev x).1 ≡ true)
    (stays : (u to uuid : String) (payload : Json) (rev : ℕ) (x : H)
      → has u x ≡ true
      → has u (push to uuid payload rev x).1 ≡ true) where
  abbrev triggers : List Trigger
  triggers = all_triggers lower routes []

  unpushable :
      (c : Candidate)
      → is_pushable lower triggers c ≡ false
      → (is_refused c || not (is_tagged lower routes c.tags)) ≡ true
  unpushable c h = ground (arith, refusal-refused c, match_tags-tagged lower routes c.tags)

  with_handled :
      (cs : List Candidate) (h : H) (st : SpokeState) (ts : List Trigger)
      → ts ≡ triggers
      → let (h', st') = outbound_with lower clock push ts cs h st in
        All (λ c. is_handled lower routes has st h' c ≡ true) cs
  unfolding outbound_with
  with_handled cs h st [] e = All-always _ cs (λ c.
      let idle : is_pushable lower triggers c ≡ false =
        subst (λ ts. is_pushable lower ts c ≡ false) e (ground (arith, no_triggers lower c.tags)) in
      let u = unpushable c idle in ground (arith, u))
  with_handled cs h st (t ∷ ts) e =
      let backed =
        loop-Backed lower clock push (t ∷ ts) has takes stays (λ u. known_sent u 1 st) cs h st
          (λ u k. ground arith) in
      All-map _ _ cs (λ c s. let b = backed c.uuid in ground (arith, b, unpushable c))
        (settles_loop lower clock push (t ∷ ts) accepts cs h st)

  -- With a hub that accepts every push and keeps what it was given, an outbound phase leaves each candidate
  -- known as sent before, or with the hub, or refused (it repeats, has more than 100 items or is not a
  -- to-do), or without a tag that is, up to case, one of the routes'; and a second phase over the same
  -- candidates, right after it, changes neither the hub nor the spoke's state.
  pub outbound_once :
      (cs : List Candidate) (h : H) (st : SpokeState)
      → let (h', st') = outbound lower clock push routes cs h st in
        All (λ c. is_handled lower routes has st h' c ≡ true) cs
        × (◌≡◌ {A = H × SpokeState} (outbound lower clock' push routes cs h' st') (h', st'))
  unfolding outbound
  outbound_once cs h st = (
    with_handled cs h st triggers refl,
    with_once lower clock clock' push cs h st accepts triggers,
  )
