-- ===== src/Spoke/Outbound/Once.antt =====
-- A spoke pushes a todo once.
use things_team.Base.{
  ◌≡◌, refl, ap, ◌∙◌, ℕ, String, Bool, true, false, not, ◌||◌, ◌&&◌, Option, none, some, List, ◌∷◌,
  [], arith, inl, inr, Bool-cases, Option-cases, eq_iff,
}
use things_team.Base.Table.Laws.{All}
use things_team.Json.{Json}
use things_team.Hub.Schema.{RowId, Time}
use things_team.Hub.Rows.{is_null}
use things_team.Spoke.State.{SpokeState, known_sent, mark_sent, write, sent}
use things_team.Spoke.State.Journal.{write-known_sent}
use things_team.Spoke.Outbound.{
  Candidate, refusal, envelope, Trigger, match_tags, PushHub, pushed, outbound_one, outbound_loop,
  outbound_with,
}

-- The candidate has a trigger tag and is not refused.
abbrev pub is_pushable : (String → String) → List Trigger → Candidate → Bool
is_pushable lower ts c = not (is_null (match_tags lower ts c.tags)) && is_null (refusal c)

-- There is nothing to do for the candidate.
abbrev pub is_settled : (String → String) → List Trigger → Candidate → SpokeState → Bool
is_settled lower ts c st = known_sent c.uuid 1 st || not (is_pushable lower ts c)

mark_sent-known :
    (now : Time) (u v : String) (o : Option RowId) (st : SpokeState)
    → known_sent u 1 st ≡ true
    → known_sent u 1 (mark_sent now v 1 o st) ≡ true
unfolding write
mark_sent-known now u v o st h = ground (arith, write-known_sent u 1 (sent now v 1 o) st)

mark_sent-itself :
    (now : Time) (u : String) (o : Option RowId) (st : SpokeState)
    → known_sent u 1 (mark_sent now u 1 o st) ≡ true
unfolding write
mark_sent-itself now u o st = ground (arith, eq_iff u u, write-known_sent u 1 (sent now u 1 o) st)

module _ {ℓ} {H : Type ℓ} (lower : String → String) (clock : Candidate → Time) (push : PushHub H)
    (ts : List Trigger) where
  -- What holds of the state as it is, where there is nothing to do, and of the state after a push, holds
  -- of the result of one pass.
  pub one_cases {κ} :
      (P : H × SpokeState → Type κ) (c : Candidate) (h : H) (st : SpokeState)
      → (is_settled lower ts c st ≡ true → P (h, st))
      → ((to : String)
          → is_settled lower ts c st ≡ false
          → P (pushed lower clock push c st (push to c.uuid (envelope c) 1 h)))
      → P (outbound_one lower clock push ts c h st)
  unfolding outbound_one
  one_cases P c h st stay go = elim (Bool-cases (known_sent c.uuid 1 st)) [
    | inl known ↦ rw (known, outbound_one) (stay (ground arith))
    | inr new ↦ elim (Option-cases (match_tags lower ts c.tags)) [
      | inl untagged ↦ rw (new, untagged, outbound_one) (stay (ground arith))
      | inr (to, tagged) ↦ elim (Option-cases (refusal c)) [
        | inr (r, refused) ↦ rw (new, tagged, refused, outbound_one) (stay (ground arith))
        | inl fine ↦ rw (new, tagged, fine, outbound_one) (go to (ground arith))
      ]
    ]
  ]

  settled_one :
      (c : Candidate) (h : H) (st : SpokeState)
      → is_settled lower ts c st ≡ true
      → outbound_one lower clock push ts c h st ≡ (h, st)
  settled_one c h st e =
      one_cases (λ x. x ≡ (h, st)) c h st (λ s. refl) (λ to s. absurd (ground arith))

  pushed-keeps :
      (c d : Candidate) (st : SpokeState) (r : Option RowId × H)
      → is_settled lower ts d st ≡ true
      → is_settled lower ts d (pushed lower clock push c st r).1 ≡ true
  pushed-keeps c d st (none, h) e = e
  pushed-keeps c d st (some i, h) e =
      ground (arith, mark_sent-known (clock c) d.uuid c.uuid (some i) st)

  keeps_one :
      (c d : Candidate) (h : H) (st : SpokeState)
      → is_settled lower ts d st ≡ true
      → is_settled lower ts d (outbound_one lower clock push ts c h st).1 ≡ true
  keeps_one c d h st e =
      one_cases (λ x. is_settled lower ts d x.1 ≡ true) c h st (λ s. e)
        (λ to s. pushed-keeps c d st (push to c.uuid (envelope c) 1 h) e)

  keeps_loop :
      (cs : List Candidate) (d : Candidate) (h : H) (st : SpokeState)
      → is_settled lower ts d st ≡ true
      → is_settled lower ts d (outbound_loop lower clock push ts cs h st).1 ≡ true
  unfolding outbound_loop
  keeps_loop [] d h st e = e
  keeps_loop (c ∷ cs) d h st e =
      let (h', st') = outbound_one lower clock push ts c h st in
      keeps_loop cs d h' st' (keeps_one c d h st e)

  settled_loop :
      (cs : List Candidate) (h : H) (st : SpokeState)
      → All (λ c. is_settled lower ts c st ≡ true) cs
      → outbound_loop lower clock push ts cs h st ≡ (h, st)
  unfolding outbound_loop
  settled_loop [] h st e = refl
  settled_loop (c ∷ cs) h st e =
      ap (λ (x : H × SpokeState). outbound_loop lower clock push ts cs x.0 x.1)
        (settled_one c h st e.0)
      ∙ settled_loop cs h st e.1

  module _
      (accepts : (to uuid : String) (payload : Json) (rev : ℕ) (h : H)
        → is_null (push to uuid payload rev h).0 ≡ false) where
    pushed-settles :
        (c : Candidate) (st : SpokeState) (r : Option RowId × H)
        → is_null r.0 ≡ false
        → is_settled lower ts c (pushed lower clock push c st r).1 ≡ true
    pushed-settles c st (none, h) e = cc
    pushed-settles c st (some i, h) e =
        ground (arith, mark_sent-itself (clock c) c.uuid (some i) st)

    pub settles_loop :
        (cs : List Candidate) (h : H) (st : SpokeState)
        → All (λ c. is_settled lower ts c (outbound_loop lower clock push ts cs h st).1 ≡ true) cs
    unfolding outbound_loop
    settles_loop [] h st = tt
    settles_loop (c ∷ cs) h st =
        let (h', st') = outbound_one lower clock push ts c h st in
        let now_settled : is_settled lower ts c st' ≡ true =
          one_cases (λ x. is_settled lower ts c x.1 ≡ true) c h st (λ s. s)
            (λ to s.
              pushed-settles c st (push to c.uuid (envelope c) 1 h)
                (accepts to c.uuid (envelope c) 1 h)) in
        (keeps_loop cs c h' st' now_settled, settles_loop cs h' st')

-- A second loop after the first changes nothing.
pub with_once {ℓ} :
    {H : Type ℓ} (lower : String → String) (clock clock' : Candidate → Time) (push : PushHub H)
    (cs : List Candidate) (h : H) (st : SpokeState)
    → ((to uuid : String) (payload : Json) (rev : ℕ) (x : H)
        → is_null (push to uuid payload rev x).0 ≡ false)
    → (ts : List Trigger)
    → let (h', st') = outbound_with lower clock push ts cs h st in
      ◌≡◌ {A = H × SpokeState} (outbound_with lower clock' push ts cs h' st') (h', st')
unfolding outbound_with
with_once lower clock clock' push cs h st accepts [] = refl
with_once lower clock clock' push cs h st accepts (t ∷ ts) =
    let (h', st') = outbound_loop lower clock push (t ∷ ts) cs h st in
    settled_loop lower clock' push (t ∷ ts) cs h' st'
      (settles_loop lower clock push (t ∷ ts) accepts cs h st)
