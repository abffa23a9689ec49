-- ===== src/Tests/Released.antt =====
-- A bridge with a selector that leaves the sample object to others.
use harbor_workload_identity.Base.{true, false, [], ◌∷◌, some}
use harbor_workload_identity.Text.{codes}
use harbor_workload_identity.Controlplane.Effect.{Safe}
use harbor_workload_identity.Controlplane.Secrets.{Reconciler}
use harbor_workload_identity.Controlplane.Release.{release_unselected}
use harbor_workload_identity.Controlplane.Release.Unserved.{MayRelease, release_unselected-Safe}
use harbor_workload_identity.Tests.Samples.{prod, issuer, audience, access, digest, clock}

abbrev selective_reconciler : Reconciler
selective_reconciler = record {
  config = record {
    cluster_name = prod;
    namespace = codes "bridge";
    oidc_issuer = issuer;
    audience = audience;
    harbor_robot_prefix = codes "robot$";
    instance_name = codes "b";
    selector = some (record { empty = false; matches = λ labels. false });
  };
  hash_of = digest;
  clock = clock;
  fnv32 = λ s. 1234;
  set_condition = λ c cs. c ∷ cs;
  contains_finalizer = λ fs f. true;
  add_finalizer = λ f fs. f ∷ fs;
  remove_finalizer = λ f fs. [];
}

release_unselected-Safe_example :
    Safe
      (MayRelease selective_reconciler (access ∷ []))
      (λ h u. Unit)
      []
      (release_unselected selective_reconciler (access ∷ []))
release_unselected-Safe_example = release_unselected-Safe selective_reconciler (access ∷ []) []
