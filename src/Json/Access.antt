-- ===== src/Json/Access.antt =====
-- Python's access to the parts of a JSON value, which raises where a part is missing.
pub mod Rules
use Prim.Native.String
use things_team.Base.{String, Bool, true, false, Option, none, some, str_eq, if◌then◌else◌}
use things_team.Json.{
  Json, null, bool, num, text, arr, obj, Items, nil, cons, Fields, end, field, truthy,
}
use things_team.Exec.{Exec, pure, raise, on_option}

-- The texts of Python's own exceptions, and `str(v)`
pub record Texts : Type 0 where
  pub key_error : String → String
  pub no_key : String → Json → String
  pub no_get : Json → String
  pub no_first : Json → String
  pub no_items : Json → String
  pub str : Json → String

unfoldable pub find_field : String → Fields → Option Json
find_field k end = none
find_field k (field j v fs) = if str_eq k j then some v else find_field k fs

-- The characters of a text, and the keys of a dict, when one is iterated over
unfoldable pub characters : String → Items
characters String.[] = nil
characters (String.◌∷◌ c s) = cons (text (String.◌∷◌ c String.[])) (characters s)

unfoldable pub keys : Fields → Items
keys end = nil
keys (field k v fs) = cons (text k) (keys fs)

-- `v or ""`
abbrev pub or_blank : Json → Json
or_blank v = if truthy v then v else text ""

abbrev pub is_text : String → Json → Bool
is_text s (text t) = str_eq s t
is_text s _ = false

module _ {ℓ} {S : Type ℓ} (texts : Texts) where
  -- A value that is tested with `in`, `[key]` or `.get` as a dict
  unfoldable pub dict : (Json → String) → Json → Exec S Fields
  dict e (obj fs) = pure fs
  dict e v = raise (e v)

  unfoldable pub field_of : String → Fields → Exec S Json
  field_of k fs = on_option (find_field k fs) (raise (texts.key_error k)) pure

  -- `v[0]`; that of a text, a text, is of no use to the code, which raises at the key that comes next.
  unfoldable pub first : Json → Exec S Json
  first (arr (cons v vs)) = pure v
  first v = raise (texts.no_first v)

  -- `for x in v`
  unfoldable pub iterate : Json → Exec S Items
  iterate (arr vs) = pure vs
  iterate (text s) = pure (characters s)
  iterate (obj fs) = pure (keys fs)
  iterate v = raise (texts.no_items v)
