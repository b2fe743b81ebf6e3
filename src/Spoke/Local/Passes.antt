-- ===== src/Spoke/Local/Passes.antt =====
-- What each part of the local writer takes is its time.
use things_team.Base.{ℕ, ◌≤◌, String, Bool, false, Option, none, some, List, arith}
use things_team.Json.Access.{Texts}
use things_team.Exec.{Exec}
use things_team.Exec.Keeps.{Keeps, Keeps-pure, Keeps-then, Keeps-bind, Keeps-branch, Keeps-attempt}
use things_team.Hub.Schema.{Time, Terminal}
use things_team.Spoke.Call.{Ticks, call, call-Keeps, clock_time-Keeps}
use things_team.Spoke.Focus.{
  Mac, LocalSettings, LocalWriter, inner, remember, read_front, frontmost_name, activate_app,
  time_now, restore, settle_test,
}
use things_team.Spoke.Local.{verify_test, check_state, check_tags, check_both}

-- Time passes on the Mac: no call ends before it starts.
pub record Passes {ℓ} {W : Type ℓ} (mac : Mac W) : Type ℓ where
  pub at : W → ℕ
  pub ticks : Ticks mac.clock at
  pub front_passes : (w : W) → at w ≤ at (mac.front w).1
  pub app_passes : (a : String) (w : W) → at w ≤ at (mac.app_name a w).1
  pub activate_passes : (a : String) (w : W) → at w ≤ at (mac.activate a w).1
  pub refresh_passes : (w : W) → at w ≤ at (mac.reader.refresh w).1
  pub status_passes : (u : String) (w : W) → at w ≤ at (mac.reader.status u w).1
  pub tags_passes : (u : String) (w : W) → at w ≤ at (mac.reader.tags_of u w).1

module _ {ℓ} {W : Type ℓ} where
  inner-Keeps {κ ν} :
      {A : Type κ} (P : W → Type ν) (m : Exec W A)
      → Keeps P m
      → Keeps (λ (s : LocalWriter W). P s.world) (inner m)
  unfolding inner
  inner-Keeps P m k = record { at = λ s h. k.at s.world h }

-- What the writer does takes its time.
module _ {ℓ} {W : Type ℓ} {mac : Mac W} (passes : Passes mac) (texts : Texts) (c : LocalSettings)
    (k : ℕ) where
  abbrev pub Late : LocalWriter W → Type 0
  Late s = k ≤ passes.at s.world

  pub time_now-Keeps : Keeps Late (time_now mac texts c)
  unfolding time_now
  time_now-Keeps = inner-Keeps (λ w. k ≤ passes.at w) _ (clock_time-Keeps passes.ticks k)

  frontmost-Keeps : Keeps Late (frontmost_name mac texts c)
  unfolding frontmost_name read_front
  frontmost-Keeps =
      inner-Keeps (λ w. k ≤ passes.at w) _
        (Keeps-attempt _ _
          (Keeps-bind _ _ (call-Keeps mac.front (λ w h. omega (arith, passes.front_passes w))) (λ a.
            Keeps-branch _ _ _ (Keeps-pure none) (
              Keeps-bind _ _
                (call-Keeps (mac.app_name (c.strip a))
                  (λ w h. omega (arith, passes.app_passes (c.strip a) w)))
                (λ o. Keeps-pure _))))
          (λ e. Keeps-pure none))

  activate-Keeps : (name : String) → Keeps Late (activate_app mac texts c name)
  unfolding activate_app
  activate-Keeps name =
      inner-Keeps (λ w. k ≤ passes.at w) _
        (Keeps-attempt _ _
          (call-Keeps (mac.activate name) (λ w h. omega (arith, passes.activate_passes name w)))
          (λ e. Keeps-pure tt))

  stolen-Keeps : (now : Time) → Keeps Late (remember (λ s. record s { last_steal = now }))
  unfolding remember
  stolen-Keeps now = record { at = λ s h. h }

  restore-Keeps : (o : Option String) → Keeps Late (restore mac texts c o)
  unfolding restore
  restore-Keeps none = Keeps-pure tt
  restore-Keeps (some name) = Keeps-bind _ _ frontmost-Keeps (λ f.
      Keeps-branch _ _ _
        (Keeps-bind _ _ time_now-Keeps
          (λ now. Keeps-then _ _ (stolen-Keeps now) (activate-Keeps name)))
        (Keeps-pure tt))

  pub settle_test-Keeps :
      (b : Bool) (o : Option String) (u : Unit {0}) → Keeps Late (settle_test mac texts c b o u)
  unfolding settle_test
  settle_test-Keeps b o u =
      Keeps-then _ _ (Keeps-branch _ _ _ (restore-Keeps o) (Keeps-pure tt)) (Keeps-pure none)

  refresh-Keeps : Keeps Late (inner (call mac.reader.refresh))
  refresh-Keeps =
      inner-Keeps (λ w. k ≤ passes.at w) _
        (call-Keeps mac.reader.refresh (λ w h. omega (arith, passes.refresh_passes w)))

  pub verify_test-Keeps :
      (check : Exec (LocalWriter W) Bool) (u : Unit {0})
      → Keeps Late check
      → Keeps Late (verify_test mac texts c check u)
  unfolding verify_test
  verify_test-Keeps check u kept =
      Keeps-then _ _ refresh-Keeps
        (Keeps-attempt _ _ (Keeps-bind _ _ kept (λ b. Keeps-pure _)) (λ e. Keeps-pure none))

  pub check_state-Keeps : (u : String) (x : Terminal) → Keeps Late (check_state mac texts c u x)
  unfolding check_state
  check_state-Keeps u x =
      Keeps-bind _ _
        (inner-Keeps (λ w. k ≤ passes.at w) _
          (call-Keeps (mac.reader.status u) (λ w h. omega (arith, passes.status_passes u w))))
        (λ s. Keeps-pure _)

  pub check_tags-Keeps : (u : String) (gs : List String) → Keeps Late (check_tags mac texts c u gs)
  unfolding check_tags
  check_tags-Keeps u gs =
      Keeps-bind _ _
        (inner-Keeps (λ w. k ≤ passes.at w) _
          (call-Keeps (mac.reader.tags_of u) (λ w h. omega (arith, passes.tags_passes u w))))
        (λ s. Keeps-pure _)

  pub check_both-Keeps :
      (u : String) (gs : List String) (x : Terminal) → Keeps Late (check_both mac texts c u gs x)
  unfolding check_both
  check_both-Keeps u gs x =
      Keeps-bind _ _ (check_tags-Keeps u gs)
        (λ b. Keeps-branch _ _ _ (check_state-Keeps u x) (Keeps-pure false))
