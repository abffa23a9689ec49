-- ===== src/Controlplane/Settings/Passed.antt =====
-- What follows where a check of `LoadFromEnv` reports no error (bridge/controlplane/config.go).
use harbor_workload_identity.Base.{
  ◌≤◌, Bool, true, false, not, ◌&&◌, ◌||◌, ◌≡◌, ◌⊎◌, inl, inr, refl, List, [], ◌∷◌, ◌++◌, All,
  Option, none, some, Result, ok, err, ok_injective, subst, length, arith, Bool-cases,
}
use harbor_workload_identity.Base.Int.{ℤ, pos, ltb_ℤ}
use harbor_workload_identity.Text.{Bytes, codes, is_empty, text_eq, has_byte}
use harbor_workload_identity.Text.Prefix.{text_eq_iff}
use harbor_workload_identity.Text.Split.{trim_space}
use harbor_workload_identity.Naming.Ownership.{DotFree}
use harbor_workload_identity.Controlplane.Settings.{
  audience_errors, instance_errors, all_errors, config_or_errors,
}
use harbor_workload_identity.Controlplane.SettingChecks.{
  cluster_name_max_len, audience_max_len, instance_max_len, is_lower_alnum, label_from,
  matches_cluster_name, ParsedUrl, Parsers, SettingError, LoadedConfig, errors_of, error_if,
  label_errors, checked_url, require_url, without_user, https_or_allowed, positive, given_or,
}

pub append-nil : {A : Type 0} → (a b : List A) → a ++ b ≡ [] → (a ≡ []) × (b ≡ [])
append-nil [] b e = (refl, e)
append-nil (x ∷ a) b e = absurd cc

pub all_errors-nil : (e : List (List SettingError)) → all_errors e ≡ [] → All (λ x. x ≡ []) e
unfolding all_errors
all_errors-nil [] h = tt
all_errors-nil (e ∷ errors) h =
    let (first, rest) = append-nil e (all_errors errors) h in (first, all_errors-nil errors rest)

pub label_from-DotFree :
    (started last : Bool) (s : Bytes) → label_from started last s ≡ true → DotFree s
unfolding label_from is_lower_alnum has_byte
label_from-DotFree started last [] e = refl
label_from-DotFree started last (c ∷ s) e =
    let rest = label_from-DotFree true (is_lower_alnum c) s (ground arith) in ground arith

pub error_if-nil : (b : Bool) (e : SettingError) → error_if b e ≡ [] → b ≡ false
error_if-nil true e h = absurd cc
error_if-nil false e h = refl

pub label_errors-nil :
    (name s : Bytes) (rest : List SettingError)
    → label_errors name s rest ≡ []
    → (is_empty s ≡ false)
      × (length s ≤ cluster_name_max_len)
      × (matches_cluster_name s ≡ true)
      × (rest ≡ [])
unfolding label_errors
label_errors-nil name s rest e = ground arith

pub no_error : {A : Type 0} → (r : Result SettingError A) → errors_of r ≡ [] → (a : A) × (r ≡ ok a)
no_error (ok a) h = (a, refl)
no_error (err e) h = absurd cc

-- A URL with a scheme that the bridge speaks, a host, and no stray '@'.
abbrev pub IsWebUrl : ParsedUrl → Type 0
IsWebUrl u =
    ((u.scheme ≡ codes "http") ⊎ (u.scheme ≡ codes "https"))
    × (is_empty u.host ≡ false)
    × (has_byte b'@' u.tail ≡ false)

checked_url_tests :
    (name : Bytes) (v u : ParsedUrl)
    → checked_url name (some v) ≡ ok u
    → ((text_eq u.scheme (codes "http") || text_eq u.scheme (codes "https")) ≡ true)
      × (is_empty u.host ≡ false)
      × (has_byte b'@' u.tail ≡ false)
checked_url_tests name v u e = ground arith

web_scheme :
    (s : Bytes)
    → (text_eq s (codes "http") || text_eq s (codes "https")) ≡ true
    → (s ≡ codes "http") ⊎ (s ≡ codes "https")
web_scheme s e = elim (Bool-cases (text_eq s (codes "http"))) [
  | inl h ↦ inl ((text_eq_iff s (codes "http")).0 h)
  | inr h ↦ inr ((text_eq_iff s (codes "https")).0 (rw h at e))
]

checked_url-IsWebUrl :
    (name : Bytes) (parsed : Option ParsedUrl) (u : ParsedUrl)
    → checked_url name parsed ≡ ok u
    → IsWebUrl u
checked_url-IsWebUrl name none u e = absurd cc
checked_url-IsWebUrl name (some v) u e =
    let (scheme, host, tail) = checked_url_tests name v u e in
    (web_scheme u.scheme scheme, host, tail)

pub require_url-IsWebUrl :
    (p : Parsers) (raw name : Bytes) (u : ParsedUrl) → require_url p raw name ≡ ok u → IsWebUrl u
unfolding require_url
require_url-IsWebUrl p raw name u e = elim (Bool-cases (is_empty (trim_space raw))) [
  | inl b ↦ absurd (ground arith)
  | inr b ↦ checked_url-IsWebUrl name (p.parse_url (trim_space raw)) u (rw b at e)
]

pub without_user-ok :
    (name : Bytes) (r : Result SettingError ParsedUrl) (u : ParsedUrl)
    → without_user name r ≡ ok u
    → (r ≡ ok u) × (u.has_user ≡ false)
without_user-ok name (err f) u e = absurd cc
without_user-ok name (ok v) u e = ground arith

pub https_or_allowed-ok :
    (name : Bytes) (allow_http : Bool) (r : Result SettingError ParsedUrl) (u : ParsedUrl)
    → https_or_allowed name allow_http r ≡ ok u
    → (r ≡ ok u) × ((text_eq u.scheme (codes "http") && not allow_http) ≡ false)
https_or_allowed-ok name allow_http (err f) u e = absurd cc
https_or_allowed-ok name allow_http (ok v) u e = ground arith

pub audience_errors-nil :
    (s : Bytes) → audience_errors s ≡ [] → (is_empty s ≡ false) × (length s ≤ audience_max_len)
unfolding audience_errors
audience_errors-nil s e = ground arith

pub instance_errors-nil :
    (selective : Bool) (s : Bytes)
    → instance_errors selective s ≡ []
    → ((selective ≡ false) ⊎ (is_empty s ≡ false)) × (length s ≤ instance_max_len)
unfolding instance_errors
instance_errors-nil selective [] e = ground arith
instance_errors-nil selective (c ∷ s) e = ground arith

pub positive-ok :
    (name : Bytes) (r : Result SettingError ℤ) (d : ℤ)
    → positive name r ≡ ok d
    → ltb_ℤ (pos 0) d ≡ true
positive-ok name (err f) d e = absurd cc
positive-ok name (ok c) d e = elim (Bool-cases (ltb_ℤ (pos 0) c)) [
  | inl h ↦
      let same : ◌≡◌ {A = Result SettingError ℤ} (ok c) (ok d) = rw h at e in
      rw (ok_injective {E = SettingError} same) at h
  | inr h ↦ absurd (ground arith)
]

pub config_or_errors-ok :
    (errors : List SettingError) (c d : LoadedConfig)
    → config_or_errors errors c ≡ ok d
    → (errors ≡ []) × (c ≡ d)
config_or_errors-ok [] c d e = (refl, ok_injective {E = List SettingError} e)
config_or_errors-ok (f ∷ errors) c d e = absurd cc

pub given_or-ok :
    {A : Type 0}
    → {P : A → Type 0} → (default a : A) (raw : Bytes) (r : Result SettingError A)
    → given_or default raw r ≡ ok a
    → P default
    → ((b : A) → r ≡ ok b → P b)
    → P a
given_or-ok {P = P} default a [] r e first rest = subst P (ok_injective {E = SettingError} e) first
given_or-ok default a (c ∷ raw) r e first rest = rest a e
