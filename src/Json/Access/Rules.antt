-- ===== src/Json/Access/Rules.antt =====
-- What access to a JSON value does to the state: nothing, and it ends.
use things_team.Base.{String}
use things_team.Json.{Json, null, bool, num, text, arr, obj, nil, cons, Fields}
use things_team.Json.Access.{Texts, dict, field_of, first, iterate}
use things_team.Exec.Ends.{Ends, ends_rules, Ends-pure, Ends-raise}
use things_team.Exec.Keeps.{Keeps, keeps_rules, Keeps-pure, Keeps-raise}

module _ {ℓ} {S : Type ℓ} (texts : Texts) where
  pub dict-Ends : (e : Json → String) (v : Json) → Ends {S = S} (dict texts e v)
  unfolding dict
  dict-Ends e (obj fs) = Ends-pure fs
  dict-Ends e null = Ends-raise (e null)
  dict-Ends e (bool b) = Ends-raise (e (bool b))
  dict-Ends e (num n) = Ends-raise (e (num n))
  dict-Ends e (text t) = Ends-raise (e (text t))
  dict-Ends e (arr vs) = Ends-raise (e (arr vs))

  pub dict-Keeps {ν} : (P : S → Type ν) (e : Json → String) (v : Json) → Keeps P (dict texts e v)
  unfolding dict
  dict-Keeps P e (obj fs) = Keeps-pure fs
  dict-Keeps P e null = Keeps-raise (e null)
  dict-Keeps P e (bool b) = Keeps-raise (e (bool b))
  dict-Keeps P e (num n) = Keeps-raise (e (num n))
  dict-Keeps P e (text t) = Keeps-raise (e (text t))
  dict-Keeps P e (arr vs) = Keeps-raise (e (arr vs))

  pub field_of-Ends : (k : String) (fs : Fields) → Ends {S = S} (field_of texts k fs)
  unfolding field_of
  field_of-Ends k fs = search ends_rules

  pub first-Ends : (v : Json) → Ends {S = S} (first texts v)
  unfolding first
  first-Ends (arr (cons v vs)) = Ends-pure v
  first-Ends (arr nil) = Ends-raise _
  first-Ends null = Ends-raise _
  first-Ends (bool b) = Ends-raise _
  first-Ends (num n) = Ends-raise _
  first-Ends (text t) = Ends-raise _
  first-Ends (obj fs) = Ends-raise _

  pub iterate-Ends : (v : Json) → Ends {S = S} (iterate texts v)
  unfolding iterate
  iterate-Ends (arr vs) = Ends-pure vs
  iterate-Ends (text t) = Ends-pure _
  iterate-Ends (obj fs) = Ends-pure _
  iterate-Ends null = Ends-raise _
  iterate-Ends (bool b) = Ends-raise _
  iterate-Ends (num n) = Ends-raise _

  pub field_of-Keeps {ν} :
      (P : S → Type ν) (k : String) (fs : Fields) → Keeps P (field_of texts k fs)
  unfolding field_of
  field_of-Keeps P k fs = search keeps_rules

  pub first-Keeps {ν} : (P : S → Type ν) (v : Json) → Keeps P (first texts v)
  unfolding first
  first-Keeps P (arr (cons v vs)) = Keeps-pure v
  first-Keeps P (arr nil) = Keeps-raise _
  first-Keeps P null = Keeps-raise _
  first-Keeps P (bool b) = Keeps-raise _
  first-Keeps P (num n) = Keeps-raise _
  first-Keeps P (text t) = Keeps-raise _
  first-Keeps P (obj fs) = Keeps-raise _

  pub iterate-Keeps {ν} : (P : S → Type ν) (v : Json) → Keeps P (iterate texts v)
  unfolding iterate
  iterate-Keeps P (arr vs) = Keeps-pure vs
  iterate-Keeps P (text t) = Keeps-pure _
  iterate-Keeps P (obj fs) = Keeps-pure _
  iterate-Keeps P null = Keeps-raise _
  iterate-Keeps P (bool b) = Keeps-raise _
  iterate-Keeps P (num n) = Keeps-raise _
