-- ===== src/Spoke/Focus.antt =====
-- The watch over the focus in spoke/writer_local.py: Things may take it on any write, and it is given back.

use things_team.Base.{
  ℕ, ◌+◌, ◌-◌, String, Bool, true, false, not, ◌&&◌, Option, none, some, List, [], ◌∷◌, str_eq, ltb,
  leb, if◌then◌else◌,
}
use things_team.Json.{Json}
use things_team.Json.Access.{Texts}
use things_team.Exec.{Exec, finished, pure, branch, attempt, ◌>>=◌, ◌>>◌}
use things_team.Exec.Until.{loop_until}
use things_team.Hub.Schema.{Time}
use things_team.Hub.Rows.{has_text}
use things_team.Spoke.World.{Op, Clock, Reader}
use things_team.Spoke.Call.{call, clock_time, clock_sleep}

-- How `open -g url` may end: by itself, by an exit code that is not 0, after 15 seconds, or by another exception
pub data Opened : Type 0 where
  opened : Opened
  exited : ℕ → Opened
  timed_out : Opened
  broken : String → Opened

-- What the writer works with: `lsappinfo`, `osascript`, `open`, the provider of the token, the reader and the clock
pub record Mac {ℓ} (W : Type ℓ) : Type ℓ where
  pub front : Op W String
  pub app_name : String → Op W String
  pub activate : String → Op W (Unit {0})
  pub open_url : String → W → Opened × W
  pub token : Op W String
  pub reader : Reader W
  pub clock : Clock W

-- The constants of the module, `str.strip`, `json.dumps`, `quote`, and the texts of the exceptions
pub record LocalSettings : Type 0 where
  pub settle_time : Time
  pub sample_interval : Time
  pub steal_recency : Time
  pub verify_timeout : Time
  pub verify_interval : Time
  pub strip : String → String
  pub dumps : Json → String
  pub quote : String → String
  pub exit_text : ℕ → String
  pub timeout_text : String

-- The fields of a `LocalWriter` that change, and the rest of the world
pub record LocalWriter {ℓ} (W : Type ℓ) : Type ℓ where
  pub last_good_front : Option String
  pub last_steal : Time
  pub world : W

abbrev pub things_front_name : String
things_front_name = "Things"

-- `s.split('"')`
unfoldable pub split_quotes : String → List String
split_quotes String.[] = "" ∷ []
split_quotes (String.◌∷◌ c s) =
    let parts = split_quotes s in
    if str_eq (String.◌∷◌ c String.[]) "\""
    then "" ∷ parts
    else elim parts [ [] ↦ String.◌∷◌ c String.[] ∷ [] | p ∷ ps ↦ String.◌∷◌ c p ∷ ps ]

-- `parts[3] if len(parts) >= 4 else None`
abbrev pub fourth : List String → Option String
fourth (a ∷ b ∷ c ∷ d ∷ rest) = some d
fourth _ = none

abbrev pub is_front : String → Option String → Bool
is_front name none = false
is_front name (some s) = str_eq s name

module _ {ℓ} {W : Type ℓ} where
  -- Code of the world, run for the writer
  unfoldable pub inner {κ} : {A : Type κ} → Exec W A → Exec (LocalWriter W) A
  inner m s = let (r, w) = m s.world in (r, record s { world = w })

  unfoldable pub remember : (LocalWriter W → LocalWriter W) → Exec (LocalWriter W) (Unit {0})
  remember f s = (finished tt, f s)

  unfoldable pub good_front : Exec (LocalWriter W) (Option String)
  good_front s = (finished s.last_good_front, s)

  unfoldable pub stolen_at : Exec (LocalWriter W) Time
  stolen_at s = (finished s.last_steal, s)

module _ {ℓ} {W : Type ℓ} (mac : Mac W) (texts : Texts) (c : LocalSettings) where
  unfoldable pub read_front : Exec W (Option String)
  read_front = do
    asn ← call mac.front
    branch (str_eq (c.strip asn) "") (pure none)
        (do out ← call (mac.app_name (c.strip asn)); pure (fourth (split_quotes (c.strip out))))

  -- `_frontmost_name`
  unfoldable pub frontmost_name : Exec (LocalWriter W) (Option String)
  frontmost_name = inner (attempt read_front (λ e. pure none))

  -- `_activate`
  unfoldable pub activate_app : String → Exec (LocalWriter W) (Unit {0})
  activate_app name = inner (attempt (call (mac.activate name)) (λ e. pure tt))

  unfoldable pub time_now : Exec (LocalWriter W) Time
  time_now = inner (clock_time mac.clock)

  -- The residue of our own steal
  unfoldable pub residue : Option String → Exec (LocalWriter W) (Bool × Option String)
  residue last = do
    now ← time_now
    stolen ← stolen_at
    pure (if ltb now (stolen + c.steal_recency) then (true, last) else (false, none))

  -- `_capture`
  unfoldable pub capture : Exec (LocalWriter W) (Bool × Option String)
  capture = do
    front ← frontmost_name
    last ← good_front
    branch (has_text front && not (is_front things_front_name front))
        (remember (λ s. record s { last_good_front = front }) >> pure (true, front))
        (branch (is_front things_front_name front && has_text last) (residue last)
          (pure (false, none)))

  -- The focus is given back if it was taken.
  unfoldable pub restore : Option String → Exec (LocalWriter W) (Unit {0})
  restore none = pure tt
  restore (some name) = do
    front ← frontmost_name
    branch (is_front things_front_name front)
        (do now ← time_now; remember (λ s. record s { last_steal = now }); activate_app name)
        (pure tt)

  unfoldable pub settle_test :
      Bool → Option String → Unit {0} → Exec (LocalWriter W) (Option (Unit {0}))
  settle_test watch restore_to u =
      branch (watch && has_text restore_to) (restore restore_to) (pure tt) >> pure none

  unfoldable pub settle_rest : Time → ℕ → Unit {0} → Exec (LocalWriter W) (Unit {0})
  settle_rest deadline now u = inner (
      clock_sleep mac.clock
        (if leb c.sample_interval (deadline - now) then c.sample_interval else deadline - now))

  unfoldable pub settle_loop : ℕ → Bool → Option String → Time → Exec (LocalWriter W) (Unit {0})
  settle_loop fuel watch restore_to deadline =
      loop_until time_now deadline (λ u. pure tt) (settle_test watch restore_to)
        (settle_rest deadline) fuel tt

  -- `_settle_and_watch`
  unfoldable pub settle_and_watch : ℕ → Bool → Option String → Exec (LocalWriter W) (Unit {0})
  settle_and_watch fuel watch restore_to = do
    now ← time_now
    settle_loop fuel watch restore_to (now + c.settle_time)
