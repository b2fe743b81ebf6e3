-- ===== src/Spoke/Local/Front.antt =====
-- Which application the local writer takes for the one to go back to.
use things_team.Base.{
  ◌≡◌, refl, ℕ, ◌+◌, if◌then◌else◌, String, Bool, true, false, not, ◌&&◌, Option, none, some, List,
  arith, ltb,
}
use things_team.Json.{Json}
use things_team.Json.Access.{Texts}
use things_team.Exec.{
  Exec, Outcome, finished, raised, unfinished, continue, pure, branch, ◌>>=◌, ◌>>◌,
}
use things_team.Exec.Keeps.{
  Keeps, Keeps-pure, Keeps-raise, Keeps-then, Keeps-bind, Keeps-branch, Keeps-attempt,
}
use things_team.Exec.Until.{Keeps-loop_until}
use things_team.Exec.Gives.{Holds}
use things_team.Spoke.Call.{call-Keeps, clock_time, clock_sleep}
use things_team.Spoke.Queue.Ends.{create_attributes-Keeps}
use things_team.Hub.Schema.{Time, Terminal}
use things_team.Hub.Rows.{has_text}
use things_team.Spoke.Focus.{
  Mac, LocalSettings, LocalWriter, Opened, opened, exited, timed_out, broken, read_front, inner,
  remember, good_front, stolen_at, is_front, things_front_name, frontmost_name, activate_app,
  time_now, residue, capture, restore, settle_test, settle_rest, settle_loop, settle_and_watch,
}
use things_team.Spoke.Local.{
  run_open, after_open, open_watched, open_json, verify_test, verify_rest, verify_loop, verify,
  check_state, check_tags, check_both, create, set_terminal, set_tags, set_tags_and_terminal,
}
use things_team.Spoke.Local.Ends.{Writing, creating, ending, tagging, tagging_and_ending, written}

-- An application that may be brought to the front again: it has a name, and is not Things.
abbrev pub is_other : Option String → Bool
is_other front = has_text front && not (is_front things_front_name front)

-- The last one remembered, if any, is such an application.
abbrev pub OtherOrNone : Option String → Type 0
OtherOrNone none = Unit
OtherOrNone (some name) = is_other (some name) ≡ true

abbrev pub IsGood {ℓ} : {W : Type ℓ} → LocalWriter W → Type 0
IsGood s = OtherOrNone s.last_good_front

-- What every call of the Mac keeps, but for activating Things.
pub record Spares {ℓ κ} {W : Type ℓ} (mac : Mac W) (P : W → Type κ) : Type (ℓ ⊔ κ) where
  pub front_spares : (w : W) → P w → P (mac.front w).1
  pub app_spares : (a : String) (w : W) → P w → P (mac.app_name a w).1
  pub activate_spares :
      (name : String) → is_other (some name) ≡ true → (w : W) → P w → P (mac.activate name w).1
  pub open_spares : (u : String) (w : W) → P w → P (mac.open_url u w).1
  pub token_spares : (w : W) → P w → P (mac.token w).1
  pub refresh_spares : (w : W) → P w → P (mac.reader.refresh w).1
  pub status_spares : (u : String) (w : W) → P w → P (mac.reader.status u w).1
  pub tags_spares : (u : String) (w : W) → P w → P (mac.reader.tags_of u w).1
  pub now_spares : (w : W) → P w → P (mac.clock.now w).1
  pub sleep_spares : (t : Time) (w : W) → P w → P (mac.clock.sleep t w)

module _ {ℓ κ} {W : Type ℓ} (P : W → Type κ) where
  abbrev pub Kept : LocalWriter W → Type κ
  Kept s = IsGood s × P s.world

  world-Keeps {ν} : {A : Type ν} (m : Exec W A) → Keeps P m → Keeps Kept (inner m)
  unfolding inner
  world-Keeps m k = record { at = λ s h. (h.0, k.at s.world h.1) }

  stolen-Keeps : (now : Time) → Keeps Kept (remember (λ s. record s { last_steal = now }))
  unfolding remember
  stolen-Keeps now = record { at = λ s h. h }

  front-Keeps :
      (front : Option String)
      → is_other front ≡ true
      → Keeps Kept (remember (λ s. record s { last_good_front = front }))
  unfolding remember
  front-Keeps none e = record { at = λ s h. (tt, h.1) }
  front-Keeps (some name) e = record { at = λ s h. (e, h.1) }

  good_front-Keeps : Keeps Kept good_front
  unfolding good_front
  good_front-Keeps = record { at = λ s h. h }

  stolen_at-Keeps : Keeps Kept stolen_at
  unfolding stolen_at
  stolen_at-Keeps = record { at = λ s h. h }

-- Where the watch is on, there is an application to go back to.
abbrev Worthy : Bool × Option String → Type 0
Worthy (true, front) = is_other front ≡ true
Worthy (false, front) = Unit

Worthy-if :
    (b : Bool) (front : Option String)
    → is_other front ≡ true
    → Worthy (if b then (true, front) else (false, none))
Worthy-if true front e = e
Worthy-if false front e = tt

bind-Holds {ℓ κ ν μ} :
    {S : Type ℓ} {A : Type κ} {B : Type ν} (Q : B → S → Type μ) (m : Exec S A) (f : A → Exec S B)
    (s : S)
    → ((a : A) → Holds Q (f a (m s).1).0 (f a (m s).1).1)
    → Holds Q ((m >>= f) s).0 ((m >>= f) s).1
unfolding ◌>>=◌
bind-Holds {S} {A} Q m f s h = after (m s).0
  where
    after : (r : Outcome A) → Holds Q (continue r f (m s).1).0 (continue r f (m s).1).1
    after (finished a) = h a
    after (raised e) = tt
    after unfinished = tt

-- Code that keeps `P` after what the first part gives.
after-Keeps {ℓ κ ν μ ι} :
    {S : Type ℓ} {A : Type κ} {B : Type ν} (P : S → Type μ) (Q : A → Type ι) (m : Exec S A)
    (f : A → Exec S B)
    → Keeps P m
    → ((s : S) → P s → Holds (λ a _. Q a) (m s).0 (m s).1)
    → ((a : A) → Q a → Keeps P (f a))
    → Keeps P (m >>= f)
unfolding ◌>>=◌
after-Keeps {S} {A} {B} P Q m f km hm kf = record {
  at = λ s p. after (m s).0 (m s).1 (km.at s p) (hm s p);
}
  where
    after : (r : Outcome A) (s : S) → P s → Holds (λ a _. Q a) r s → P (continue r f s).1
    after (finished a) s p q = (kf a q).at s p
    after (raised e) s p q = p
    after unfinished s p q = p

module _ {ℓ κ} {W : Type ℓ} {mac : Mac W} {P : W → Type κ} (spares : Spares mac P) (texts : Texts)
    (c : LocalSettings) where
  frontmost-Keeps : Keeps (Kept P) (frontmost_name mac texts c)
  unfolding frontmost_name read_front
  frontmost-Keeps = world-Keeps P _ (
      Keeps-attempt _ _
        (Keeps-bind _ _ (call-Keeps mac.front spares.front_spares) (λ a.
          Keeps-branch _ _ _ (Keeps-pure none) (
            Keeps-bind _ _ (call-Keeps (mac.app_name (c.strip a)) (spares.app_spares (c.strip a)))
              (λ o. Keeps-pure _))))
        (λ e. Keeps-pure none))

  time_now-Keeps : Keeps (Kept P) (time_now mac texts c)
  unfolding time_now clock_time
  time_now-Keeps = world-Keeps P _ (record { at = spares.now_spares })

  residue-Keeps : (last : Option String) → Keeps (Kept P) (residue mac texts c last)
  unfolding residue
  residue-Keeps last =
      Keeps-bind _ _ time_now-Keeps (λ now. Keeps-bind _ _ (stolen_at-Keeps P) (λ t. Keeps-pure _))

  noted-Keeps :
      (front : Option String) (b : Bool) (m : Exec (LocalWriter W) (Bool × Option String))
      → is_other front ≡ b
      → Keeps (Kept P) m
      → Keeps
          (Kept P)
          (branch b (remember (λ s. record s { last_good_front = front }) >> pure (true, front)) m)
  unfolding branch
  noted-Keeps front true m e k = Keeps-then _ _ (front-Keeps P front e) (Keeps-pure _)
  noted-Keeps front false m e k = k

  capture-Keeps : Keeps (Kept P) (capture mac texts c)
  unfolding capture
  capture-Keeps = Keeps-bind _ _ frontmost-Keeps (λ front.
      Keeps-bind _ _ (good_front-Keeps P) (λ last.
        noted-Keeps front (is_other front) _ refl
          (Keeps-branch _ _ _ (residue-Keeps last) (Keeps-pure _))))

  good_other : (o : Option String) → OtherOrNone o → has_text o ≡ true → is_other o ≡ true
  good_other none g e = cc
  good_other (some name) g e = g

  residue-Worthy :
      (last : Option String) (s : LocalWriter W)
      → is_other last ≡ true
      → Holds (λ a _. Worthy a) (residue mac texts c last s).0 (residue mac texts c last s).1
  unfolding residue pure
  residue-Worthy last s e =
      bind-Holds _ (time_now mac texts c) _ s
        (λ now. bind-Holds _ stolen_at _ _ (λ t. Worthy-if (ltb now (t + c.steal_recency)) last e))

  chosen :
      (front : Option String) (s : LocalWriter W)
      → Kept P s
      → (b d : Bool) → is_other front ≡ b
      → (d ≡ true → has_text s.last_good_front ≡ true)
      → let r =
          branch b
            (remember (λ s. record s { last_good_front = front }) >> pure (true, front))
            (branch d (residue mac texts c s.last_good_front) (pure (false, none)))
            s in
        Holds (λ a _. Worthy a) r.0 r.1
  unfolding branch remember pure ◌>>◌
  chosen front s k true d e h = e
  chosen front s k false true e h =
      residue-Worthy s.last_good_front s (good_other s.last_good_front k.0 (h refl))
  chosen front s k false false e h = tt

  capture-Worthy :
      (s : LocalWriter W)
      → Kept P s
      → Holds (λ a _. Worthy a) (capture mac texts c s).0 (capture mac texts c s).1
  unfolding capture good_front ◌>>=◌
  capture-Worthy s k = bind-Holds _ (frontmost_name mac texts c) _ s (λ front.
      let s1 = (frontmost_name mac texts c s).1 in
      chosen front s1 (frontmost-Keeps.at s k) (is_other front)
        (is_front things_front_name front && has_text s1.last_good_front) refl (λ h. ground arith))

  activate-Keeps :
      (name : String) → is_other (some name) ≡ true → Keeps (Kept P) (activate_app mac texts c name)
  unfolding activate_app
  activate-Keeps name e = world-Keeps P _ (
      Keeps-attempt _ _ (call-Keeps (mac.activate name) (spares.activate_spares name e))
        (λ x. Keeps-pure tt))

  restore-Keeps : (o : Option String) → is_other o ≡ true → Keeps (Kept P) (restore mac texts c o)
  unfolding restore
  restore-Keeps none e = Keeps-pure tt
  restore-Keeps (some name) e = Keeps-bind _ _ frontmost-Keeps (λ front.
      Keeps-branch _ _ _
        (Keeps-bind _ _ time_now-Keeps
          (λ now. Keeps-then _ _ (stolen-Keeps P now) (activate-Keeps name e)))
        (Keeps-pure tt))

  settle_test-Keeps :
      (b : Bool) (o : Option String) (u : Unit {0})
      → Worthy (b, o)
      → Keeps (Kept P) (settle_test mac texts c b o u)
  unfolding settle_test branch
  settle_test-Keeps true o u e =
      Keeps-then _ _ (Keeps-branch _ _ _ (restore-Keeps o e) (Keeps-pure tt)) (Keeps-pure none)
  settle_test-Keeps false o u e = Keeps-then _ _ (Keeps-pure tt) (Keeps-pure none)

  sleep-Keeps : (t : Time) → Keeps (Kept P) (inner (clock_sleep mac.clock t))
  unfolding clock_sleep
  sleep-Keeps t = world-Keeps P _ (record { at = spares.sleep_spares t })

  settle-Keeps :
      (fuel : ℕ) (b : Bool) (o : Option String)
      → Worthy (b, o)
      → Keeps (Kept P) (settle_and_watch mac texts c fuel b o)
  unfolding settle_and_watch settle_loop settle_rest
  settle-Keeps fuel b o e = Keeps-bind _ _ time_now-Keeps (λ now.
      Keeps-loop_until (Kept P) _ time_now-Keeps (λ u. Keeps-pure tt)
        (λ u. settle_test-Keeps b o u e) (λ t u. sleep-Keeps _) fuel tt)

  after_open-Keeps :
      (fuel : ℕ) (b : Bool) (o : Option String) (r : Opened)
      → Worthy (b, o)
      → Keeps (Kept P) (after_open mac texts c fuel b o r)
  unfolding after_open
  after_open-Keeps fuel b o opened e = settle-Keeps fuel b o e
  after_open-Keeps fuel b o (exited n) e = Keeps-raise _
  after_open-Keeps fuel b o timed_out e = Keeps-raise _
  after_open-Keeps fuel b o (broken x) e = Keeps-raise x

  run_open-Keeps : (url : String) → Keeps P (run_open mac texts c url)
  unfolding run_open
  run_open-Keeps url = record { at = spares.open_spares url }

  open_watched-Keeps :
      (fuel : ℕ) (v : Json) (p : Bool × Option String)
      → Worthy p
      → Keeps (Kept P) (open_watched mac texts c fuel v p)
  unfolding open_watched
  open_watched-Keeps fuel v (b, o) e =
      Keeps-bind _ _ (world-Keeps P _ (call-Keeps mac.token spares.token_spares)) (λ t.
        Keeps-bind _ _ (world-Keeps P _ (run_open-Keeps _)) (λ r. after_open-Keeps fuel b o r e))

  open_json-Keeps : (fuel : ℕ) (v : Json) → Keeps (Kept P) (open_json mac texts c fuel v)
  unfolding open_json
  open_json-Keeps fuel v =
      after-Keeps (Kept P) Worthy _ _ capture-Keeps capture-Worthy (open_watched-Keeps fuel v)

  verify-Keeps :
      (fuel : ℕ) (check : Exec (LocalWriter W) Bool)
      → Keeps (Kept P) check
      → Keeps (Kept P) (verify mac texts c fuel check)
  unfolding verify verify_loop verify_test verify_rest
  verify-Keeps fuel check k = Keeps-bind _ _ time_now-Keeps (λ now.
      Keeps-loop_until (Kept P) _ time_now-Keeps (λ u. Keeps-pure false)
        (λ u.
          Keeps-then _ _ (world-Keeps P _ (call-Keeps mac.reader.refresh spares.refresh_spares))
            (Keeps-attempt _ _ (Keeps-bind _ _ k (λ b. Keeps-pure _)) (λ e. Keeps-pure none)))
        (λ t u. sleep-Keeps _) fuel tt)

  check_state-Keeps : (u : String) (x : Terminal) → Keeps (Kept P) (check_state mac texts c u x)
  unfolding check_state
  check_state-Keeps u x =
      Keeps-bind _ _ (world-Keeps P _ (call-Keeps (mac.reader.status u) (spares.status_spares u)))
        (λ s. Keeps-pure _)

  check_tags-Keeps : (u : String) (gs : List String) → Keeps (Kept P) (check_tags mac texts c u gs)
  unfolding check_tags
  check_tags-Keeps u gs =
      Keeps-bind _ _ (world-Keeps P _ (call-Keeps (mac.reader.tags_of u) (spares.tags_spares u)))
        (λ s. Keeps-pure _)

  written-Keeps : (fuel : ℕ) (x : Writing) → Keeps (Kept P) (written mac texts c fuel x)
  unfolding create set_terminal set_tags set_tags_and_terminal check_both
  written-Keeps fuel (creating v tag) =
      Keeps-then _ _
        (Keeps-bind _ _ (create_attributes-Keeps texts (Kept P) v tag)
          (λ attrs. open_json-Keeps fuel _))
        (Keeps-pure true)
  written-Keeps fuel (ending u x) =
      Keeps-then _ _ (open_json-Keeps fuel _) (verify-Keeps fuel _ (check_state-Keeps u x))
  written-Keeps fuel (tagging u gs) =
      Keeps-then _ _ (open_json-Keeps fuel _) (verify-Keeps fuel _ (check_tags-Keeps u gs))
  written-Keeps fuel (tagging_and_ending u gs x) = Keeps-then _ _ (open_json-Keeps fuel _) (
      verify-Keeps fuel _ (
        Keeps-bind _ _ (check_tags-Keeps u gs)
          (λ b. Keeps-branch _ _ _ (check_state-Keeps u x) (Keeps-pure false))))

  -- Starting with no application remembered, or with a good one, no write activates Things or an application
  -- without a name, however the write ends: what every call but such an activation keeps holds afterwards,
  -- and the application then remembered is again a good one.
  pub things_never_activated :
      (fuel : ℕ) (x : Writing) (s : LocalWriter W)
      → IsGood s
      → P s.world
      → let s' = (written mac texts c fuel x s).1 in IsGood s' × P s'.world
  things_never_activated fuel x s g h = (written-Keeps fuel x).at s (g, h)
