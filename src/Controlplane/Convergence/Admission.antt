-- ===== src/Controlplane/Convergence/Admission.antt =====
-- Which HarborAccess a pass accepts (steps 0 to 4 of `reconcileNormal`,
-- bridge/controlplane/reconciler.go).
use harbor_workload_identity.Base.{
  ℕ, ◌≤◌, true, false, not, ◌≡◌, ◌≢◌, ◌↔◌, ◌⊎◌, inl, inr, refl, ap, List, [], ◌∷◌, Result, ok, err,
  require-eq-ok, require-ok, ok_injective, Result-cases, ltb, length, All, arith,
}
use harbor_workload_identity.Text.{Bytes, text_eq}
use harbor_workload_identity.Text.Prefix.{text_eq_iff}
use harbor_workload_identity.Naming.{ProjectPermission, validate_project_name, robot_name}
use harbor_workload_identity.Naming.Bounds.{IsDigest, robot_name-owns_robot}
use harbor_workload_identity.HarborAccess.{HarborAccess, Reason, invalid_spec, token_ttl_ok}
use harbor_workload_identity.Contract.{harbor_access_name_max_len}
use harbor_workload_identity.Controlplane.Secrets.{Reconciler}
use harbor_workload_identity.Controlplane.Suspension.{refuse}
use harbor_workload_identity.Controlplane.Convergence.{accept, reconcile_normal}
use harbor_workload_identity.Controlplane.Outcomes.{
  spec_missing, projects_valid, name_or_refusal, admitted_name,
}

-- The rule accepts the project's name.
abbrev pub IsProject : ProjectPermission → Type 0
IsProject p = validate_project_name p.project ≡ ok tt

projects_valid_iff :
    (perms : List ProjectPermission) → (projects_valid perms ≡ true) ↔ All IsProject perms
unfolding projects_valid
projects_valid_iff [] = (λ e. tt, λ e. refl)
projects_valid_iff (p ∷ perms) = elim (Result-cases (validate_project_name p.project)) [
  | inl (u, e) ↦ rw e (ground (arith, projects_valid_iff perms))
  | inr (x, e) ↦ rw e (λ t. absurd (ground arith), λ t. absurd cc)
]

name_or_refusal_iff :
    {E : Type 0} (m : Result E Bytes) (name : Bytes) → (name_or_refusal m ≡ ok name) ↔ (m ≡ ok name)
name_or_refusal_iff (ok n) name =
    (λ e. ap ok (ok_injective {E = Reason} e), λ e. ap ok (ok_injective e))
name_or_refusal_iff (err x) name = (λ e. absurd cc, λ e. absurd cc)

module _ (r : Reconciler) (ha : HarborAccess) where
  -- What an object needs in order to be served, and the name of its robot: a spec, this cluster's
  -- issuer and this bridge's audience, a name that fits a label, valid projects, a token lifetime that
  -- is one, and a robot name that Harbor accepts.
  abbrev pub IsServable : Bytes → Type 0
  IsServable name =
      (spec_missing ha.spec ≡ false)
      × (ha.spec.trust_policy.issuer ≡ r.config.oidc_issuer)
      × (ha.spec.trust_policy.audience ≡ r.config.audience)
      × (length ha.name ≤ harbor_access_name_max_len)
      × All IsProject ha.spec.permissions
      × (token_ttl_ok ha.spec.token_ttl ≡ true)
      × (robot_name r.hash_of r.config.cluster_name ha.spec.service_account_ref.namespace
            ha.spec.service_account_ref.name
          ≡ ok name)

  -- A HarborAccess is accepted with a robot name exactly when it can be served under it.
  pub admitted_name_iff : (name : Bytes) → (admitted_name r ha ≡ ok name) ↔ IsServable name
  unfolding admitted_name
  admitted_name_iff name = (
    λ e.
        let (spec, e1) = require-eq-ok (not (spec_missing ha.spec)) invalid_spec _ e in
        let (issuer, e2) =
          require-eq-ok (text_eq ha.spec.trust_policy.issuer r.config.oidc_issuer) _ _ e1 in
        let (audience, e3) =
          require-eq-ok (text_eq ha.spec.trust_policy.audience r.config.audience) _ _ e2 in
        let (short, e4) =
          require-eq-ok (not (ltb harbor_access_name_max_len (length ha.name))) _ _ e3 in
        let (projects, e5) = require-eq-ok (projects_valid ha.spec.permissions) _ _ e4 in
        let (ttl, e6) = require-eq-ok (token_ttl_ok ha.spec.token_ttl) _ _ e5 in
        (
          ground arith,
          (text_eq_iff ha.spec.trust_policy.issuer r.config.oidc_issuer).0 issuer,
          (text_eq_iff ha.spec.trust_policy.audience r.config.audience).0 audience,
          ground arith,
          (projects_valid_iff ha.spec.permissions).0 projects,
          ttl,
          (name_or_refusal_iff
                (robot_name r.hash_of r.config.cluster_name ha.spec.service_account_ref.namespace
                  ha.spec.service_account_ref.name)
                name).0
              e6,
        ),
    λ s.
        let (spec, issuer, audience, short, projects, ttl, named) = s in
        require-ok (not (spec_missing ha.spec)) invalid_spec _ (ground arith) (
          require-ok (text_eq ha.spec.trust_policy.issuer r.config.oidc_issuer) _ _
            ((text_eq_iff ha.spec.trust_policy.issuer r.config.oidc_issuer).1 issuer)
            (require-ok (text_eq ha.spec.trust_policy.audience r.config.audience) _ _
              ((text_eq_iff ha.spec.trust_policy.audience r.config.audience).1 audience)
              (require-ok (not (ltb harbor_access_name_max_len (length ha.name))) _ _ (ground arith)
                (require-ok (projects_valid ha.spec.permissions) _ _
                  ((projects_valid_iff ha.spec.permissions).1 projects)
                  (require-ok (token_ttl_ok ha.spec.token_ttl) _ _ ttl (
                    (name_or_refusal_iff
                        (robot_name r.hash_of r.config.cluster_name
                          ha.spec.service_account_ref.namespace ha.spec.service_account_ref.name)
                        name).1
                      named)))))),
  )

  -- Under a cluster's name that is not empty, a pass refuses the object with a reason or goes on under
  -- the robot's name: the check that the cluster owns the name never fails.
  pub reconcile_normal_cases :
      (retries now : ℕ)
      → IsDigest r.hash_of
      → r.config.cluster_name ≢ []
      → ((reason : Reason) × (admitted_name r ha ≡ err reason)
          × (reconcile_normal r retries now ha ≡ refuse r ha reason))
        ⊎ ((name : Bytes) × IsServable name
            × (reconcile_normal r retries now ha ≡ accept r retries now ha name))
  unfolding reconcile_normal
  reconcile_normal_cases retries now digest named = elim (Result-cases (admitted_name r ha)) [
    | inr (reason, e) ↦ inl (reason, e, rw (e, reconcile_normal) refl)
    | inl (name, e) ↦
        let servable = (admitted_name_iff name).0 e in
        let owned =
          robot_name-owns_robot r.hash_of r.config.cluster_name
            ha.spec.service_account_ref.namespace ha.spec.service_account_ref.name digest named
            servable.6 in
        inr (name, servable, rw (e, reconcile_normal, owned.2) refl)
  ]
