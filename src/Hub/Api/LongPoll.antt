-- ===== src/Hub/Api/LongPoll.antt =====
-- What the long poll for deliveries answers.
use things_team.Base.{
  ◌≡◌, subst, ℕ, ◌+◌, ◌≤◌, Bool, true, false, not, ◌&&◌, ◌||◌, Option, none, some, List, [], ◌∷◌,
  inl, inr, Bool-cases, arith, leb, if◌then◌else◌,
}
use things_team.Base.Table.{any}
use things_team.Base.Table.Queries.{length}
use things_team.Hub.Schema.{Time, Ledger, Principal, ok}
use things_team.Hub.Lease.{Entry, lease_deliveries}
use things_team.Hub.Lease.Grants.{entries, lease_deliveries-limit}
use things_team.Hub.Http.{Request, Moment, Wire, finished, on_ledger, ◌>>=◌}
use things_team.Hub.Http.Ends.{proceed-ends, committed-ends, ended}
use things_team.Hub.Api.{
  Turn, Answer, deliveries_json, is_empty, at_most, number_or_raise, parameter, poll_loop, poll,
  get_deliveries,
}

-- The deadline was over at one of the times that the poll has read.
abbrev pub is_over : Time → Time → List Turn → Bool
is_over deadline now turns = leb deadline now || any (λ (t : Turn). leb deadline t.tested_at) turns

-- The entries are those of one lease by `p`, and the ledger is as that lease has left it.
abbrev pub IsLeased : Principal → ℕ → Time → List Entry → Ledger → Type 0
IsLeased p limit seconds es l' =
    (now : Time) × (l : Ledger) × (lease_deliveries now p limit seconds l ≡ ok es l')

lease-IsLeased :
    (now : Time) (p : Principal) (limit : ℕ) (seconds : Time) (l l' : Ledger) (es : List Entry)
    → on_ledger (lease_deliveries now p limit seconds) l ≡ finished es l'
    → IsLeased p limit seconds es l'
unfolding on_ledger
lease-IsLeased now p limit seconds l l' es e =
    (now, l, committed-ends l (lease_deliveries now p limit seconds l) e)

IsLeased-limit :
    (p : Principal) (limit : ℕ) (seconds : Time) (es : List Entry) (l : Ledger)
    → IsLeased p limit seconds es l
    → length es ≤ limit
IsLeased-limit p limit seconds es l' (now, l, same) =
    subst (λ r. length (entries r) ≤ limit) same (lease_deliveries-limit now p limit seconds l)

number_ends :
    (o : Option ℕ) (l l' : Ledger) (n : ℕ) → number_or_raise o l ≡ finished n l' → o ≡ some n
number_ends none l l' n e = cc
number_ends (some k) l l' n e = cc

at_most-bound : (n x : ℕ) → at_most n x ≤ n
at_most-bound n x = ground arith

module _ (w : Wire) (m : Moment) where
  -- What a poll gives, and when it gives nothing
  abbrev Answers : Principal → ℕ → Bool → List Entry → Ledger → Type 0
  Answers p limit over es l =
      IsLeased p limit w.lease_seconds es l × (is_empty es ≡ true → over ≡ true)

  at_once :
      (p : Principal) (limit : ℕ) (deadline now : Time) (later : Bool) (es es' : List Entry)
      (l l' : Ledger)
      → IsLeased p limit w.lease_seconds es l
      → (is_empty es && not (leb deadline now)) ≡ false
      → finished es l ≡ finished es' l'
      → Answers p limit (leb deadline now || later) es' l'
  at_once p limit deadline now later es es' l l' h done e =
      let same : es ≡ es' = cc in
      subst (λ x. Answers p limit (leb deadline now || later) x l') same
        (subst (IsLeased p limit w.lease_seconds es) (ended l l' e) h, λ z. ground arith)

  poll_loop-Answers :
      (p : Principal) (limit : ℕ) (deadline : Time) (es : List Entry) (now : Time)
      (turns : List Turn) (l l' : Ledger) (es' : List Entry)
      → IsLeased p limit w.lease_seconds es l
      → poll_loop w m p limit deadline es now turns l ≡ finished es' l'
      → Answers p limit (is_over deadline now turns) es' l'
  unfolding poll_loop ◌>>=◌ any
  poll_loop-Answers p limit deadline es now [] l l' es' h e =
      elim (Bool-cases (is_empty es && not (leb deadline now))) [
        | inl waits ↦ cc (rw (waits, if◌then◌else◌) at e)
        | inr done ↦
            at_once p limit deadline now _ es es' l l' h done (rw (done, if◌then◌else◌) at e)
      ]
  poll_loop-Answers p limit deadline es now (t ∷ ts) l l' es' h e =
      elim (Bool-cases (is_empty es && not (leb deadline now))) [
        | inl waits ↦
            let (es1, l1, e1, e2) =
              proceed-ends
                (on_ledger (lease_deliveries t.leased_at p limit w.lease_seconds) (t.others l))
                (λ es1. poll_loop w m p limit deadline es1 t.tested_at ts)
                (rw (waits, if◌then◌else◌) at e) in
            let h1 = lease-IsLeased t.leased_at p limit w.lease_seconds (t.others l) l1 es1 e1 in
            let (g, o) = poll_loop-Answers p limit deadline es1 t.tested_at ts l1 l' es' h1 e2 in
            (g, λ z. ground (arith, o z))
        | inr done ↦
            at_once p limit deadline now _ es es' l l' h done (rw (done, if◌then◌else◌) at e)
      ]

  -- A GET of the deliveries that is answered with deliveries hands out what one lease by the caller has
  -- given, and leaves the ledger as that lease has; they are 50 at most, and none only where the wait that
  -- the query asks for, cut to the longest wait there is and counted from before the first lease, was over at
  -- one of the times that the poll has read after its leases.
  pub get_deliveries-Answers :
      (q : Request) (p : Principal) (turns : List Turn) (l l' : Ledger) (a : Answer)
      → get_deliveries w m q p turns l ≡ finished a l'
      → (es : List Entry) × (wait : Time) × (a ≡ (200, deliveries_json w es))
        × (w.wait_text (parameter q "wait" "0") ≡ some wait)
        × (limit : ℕ) × IsLeased p limit w.lease_seconds es l'
        × (limit ≤ 50)
        × (length es ≤ 50)
        × (is_empty es ≡ true
            → is_over (m.asked_at + at_most w.max_wait wait) m.tested_at turns ≡ true)
  unfolding get_deliveries poll ◌>>=◌
  get_deliveries-Answers q p turns l l' a e =
      let (k, l1, e1, r1) =
        proceed-ends (number_or_raise (w.int_text (parameter q "limit" "10")) l) _ e in
      let (wait, l2, e2, r2) =
        proceed-ends (number_or_raise (w.wait_text (parameter q "wait" "0")) l1) _ r1 in
      let limit = at_most 50 k in
      let (es, l3, e3, r3) =
        proceed-ends (on_ledger (lease_deliveries m.draws.now p limit w.lease_seconds) l2) _ r2 in
      let (es', l4, e4, r4) =
        proceed-ends
          (poll_loop w m p limit (m.asked_at + at_most w.max_wait wait) es m.tested_at turns l3) _
          r3 in
      let (g, o) =
        poll_loop-Answers p limit _ es m.tested_at turns l3 l4 es'
          (lease-IsLeased m.draws.now p limit w.lease_seconds l2 l3 es e3) e4 in
      let n = IsLeased-limit p limit w.lease_seconds es' l4 g in
      let b = at_most-bound 50 k in
      (
        es',
        wait,
        (cc),
        number_ends _ l1 l2 wait e2,
        limit,
        subst (IsLeased p limit w.lease_seconds es') (ended l4 l' r4) g,
        b,
        omega (arith, n, b),
        o,
      )
