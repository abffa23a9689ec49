-- ===== src/Controlplane/Settings/Usable.antt =====
-- What a configuration that `LoadFromEnv` returns can be used for (bridge/controlplane/config.go).
use harbor_workload_identity.Base.{
  ◌≤◌, true, false, not, ◌&&◌, ◌≡◌, ◌⊎◌, refl, ap, [], All, none, some, ok, subst, length,
}
use harbor_workload_identity.Base.Int.{pos, ltb_ℤ}
use harbor_workload_identity.Text.{Bytes, codes, is_empty, text_eq}
use harbor_workload_identity.Naming.Ownership.{DotFree}
use harbor_workload_identity.Controlplane.Settings.{
  trimmed, issuer_setting, harbor_setting, lifetime_setting, settings, is_selective, all_errors,
  errors_by_setting, load_from_env, allow_http_setting,
}
use harbor_workload_identity.Controlplane.SettingChecks.{
  cluster_name_max_len, audience_max_len, instance_max_len, default_token_max_lifetime,
  matches_cluster_name, has_double_hyphen, ParsedUrl, Parsers, LoadedConfig, errors_of, value_or,
  parsed_or, require_url, without_user, positive, some_of, consecutive_hyphens, not_a_duration,
}
use harbor_workload_identity.Controlplane.Settings.Passed.{
  IsWebUrl, all_errors-nil, audience_errors-nil, config_or_errors-ok, error_if-nil, given_or-ok,
  https_or_allowed-ok, instance_errors-nil, label_errors-nil, label_from-DotFree, no_error,
  positive-ok, require_url-IsWebUrl, without_user-ok,
}

-- What the bridge relies on: a name of the cluster under which robots can be owned, one issuer and one
-- Harbor to talk to, a positive lifetime, an audience, and an instance beside a selector.
abbrev pub IsUsable : LoadedConfig → Type 0
IsUsable c =
    (is_empty c.cluster_name ≡ false)
    × (length c.cluster_name ≤ cluster_name_max_len)
    × DotFree c.cluster_name
    × (has_double_hyphen c.cluster_name ≡ false)
    × ((u : ParsedUrl) × (c.oidc_issuer ≡ some u) × (u.has_user ≡ false) × IsWebUrl u)
    × ((u : ParsedUrl) × (c.harbor_url ≡ some u)
        × (u.has_user ≡ false)
        × IsWebUrl u
        × ((text_eq u.scheme (codes "http") && not c.harbor_allow_http) ≡ false))
    × (ltb_ℤ (pos 0) c.token_max_lifetime ≡ true)
    × (is_empty c.audience ≡ false)
    × (length c.audience ≤ audience_max_len)
    × ((is_selective c.harbor_access_selector ≡ false) ⊎ (is_empty c.instance_name ≡ false))
    × (length c.instance_name ≤ instance_max_len)

module _ (p : Parsers) (getenv : Bytes → Bytes) where
  issuer_loaded :
      errors_of (issuer_setting p getenv) ≡ []
      → (u : ParsedUrl) × (value_or none (some_of (issuer_setting p getenv)) ≡ some u)
        × (u.has_user ≡ false)
        × IsWebUrl u
  issuer_loaded h =
      let name = codes "BRIDGE_OIDC_ISSUER" in
      let (u, e) = no_error (issuer_setting p getenv) h in
      let (f, free) = without_user-ok name (require_url p (getenv name) name) u e in
      (
        u,
        ap (λ r. value_or none (some_of r)) e,
        free,
        require_url-IsWebUrl p (getenv name) name u f,
      )

  harbor_loaded :
      errors_of (harbor_setting p getenv) ≡ []
      → (u : ParsedUrl) × (value_or none (some_of (harbor_setting p getenv)) ≡ some u)
        × (u.has_user ≡ false)
        × IsWebUrl u
        × ((text_eq u.scheme (codes "http") && not (allow_http_setting p getenv)) ≡ false)
  harbor_loaded h =
      let name = codes "BRIDGE_HARBOR_URL" in
      let (u, e) = no_error (harbor_setting p getenv) h in
      let (d, tls) =
        https_or_allowed-ok name (allow_http_setting p getenv)
          (without_user name (require_url p (getenv name) name)) u e in
      let (f, free) = without_user-ok name (require_url p (getenv name) name) u d in
      (
        u,
        ap (λ r. value_or none (some_of r)) e,
        free,
        require_url-IsWebUrl p (getenv name) name u f,
        tls,
      )

  lifetime_loaded :
      errors_of (lifetime_setting p getenv) ≡ []
      → ltb_ℤ (pos 0) (value_or default_token_max_lifetime (lifetime_setting p getenv)) ≡ true
  lifetime_loaded h =
      let name = codes "BRIDGE_TOKEN_MAX_LIFETIME" in
      let (d, e) = no_error (lifetime_setting p getenv) h in
      let r = parsed_or (p.parse_duration (trimmed p getenv name)) (not_a_duration name) in
      let good : ltb_ℤ (pos 0) d ≡ true =
        given_or-ok {P = λ x. ltb_ℤ (pos 0) x ≡ true} default_token_max_lifetime d
          (trimmed p getenv name) (positive name r) e refl (λ b k. positive-ok name r b k) in
      rw e good

  settings-IsUsable :
      All (λ x. x ≡ []) (errors_by_setting p getenv (settings p getenv))
      → IsUsable (settings p getenv)
  unfolding settings matches_cluster_name
  settings-IsUsable
        (
          cluster,
          (
            ns,
            (
              issuer,
              (
                jwks,
                (harbor, (admin, (force, (life, (bound, (level, (aud, (sel, (inst, last))))))))),
              ),
            ),
          ),
        ) =
      let s = settings p getenv in
      let (nonempty, short, label, hyphens) =
        label_errors-nil (codes "BRIDGE_CLUSTER_NAME") s.cluster_name _ cluster in
      let (aud_given, aud_short) = audience_errors-nil s.audience aud in
      let (inst_given, inst_short) =
        instance_errors-nil (is_selective s.harbor_access_selector) s.instance_name inst in
      (
        nonempty,
        short,
        label_from-DotFree false false s.cluster_name label,
        error_if-nil (has_double_hyphen s.cluster_name) consecutive_hyphens hyphens,
        issuer_loaded issuer,
        harbor_loaded harbor,
        lifetime_loaded life,
        aud_given,
        aud_short,
        inst_given,
        inst_short,
      )

  -- A configuration that is loaded has a cluster name that is not empty, within 63 bytes, without a dot
  -- and without two hyphens in a row; an issuer and a Harbor, each a web URL without credentials, the
  -- latter not over plain http unless allowed; a positive maximum lifetime of tokens; an audience
  -- within 253 bytes; and an instance name within 50 bytes, not empty beside a selector.
  pub load_from_env-IsUsable : (c : LoadedConfig) → load_from_env p getenv ≡ ok c → IsUsable c
  unfolding load_from_env
  load_from_env-IsUsable c e =
      let (none_failed, same) =
        config_or_errors-ok (all_errors (errors_by_setting p getenv (settings p getenv)))
          (settings p getenv) c e in
      subst IsUsable same (settings-IsUsable (all_errors-nil _ none_failed))
