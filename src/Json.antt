-- ===== src/Json.antt =====
-- JSON values, for the payloads of hub/ledger.py and the details of its events: `json.dumps` before
-- a write and `json.loads` after a read give the value back, so a column holds the value itself.
pub mod Access
use things_team.Base.{ℕ, String, Bool, true, false, not, ◌==◌, str_eq, if◌then◌else◌}

mutual
  pub data Json : Type 0 where
    null : Json
    bool : Bool → Json
    num : ℕ → Json
    text : String → Json
    arr : Items → Json
    obj : Fields → Json

  pub data Items : Type 0 where
    nil : Items
    cons : Json → Items → Items

  pub data Fields : Type 0 where
    end : Fields
    field : String → Json → Fields → Fields

-- `isinstance(v, dict)`
abbrev pub is_dict : Json → Bool
is_dict (obj fs) = true
is_dict _ = false

-- `fs.get(k)`: a key that is missing gives `None`.
unfoldable pub get_field : String → Fields → Json
get_field k end = null
get_field k (field j v fs) = if str_eq k j then v else get_field k fs

unfoldable pub get : String → Json → Json
unfolding get_field
get k (obj fs) = get_field k fs
get k _ = null

-- Python's truth value
abbrev pub truthy : Json → Bool
truthy null = false
truthy (bool b) = b
truthy (num n) = not (n == 0)
truthy (text s) = not (str_eq s "")
truthy (arr nil) = false
truthy (arr (cons _ _)) = true
truthy (obj end) = false
truthy (obj (field _ _ _)) = true
