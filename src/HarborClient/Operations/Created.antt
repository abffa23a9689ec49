-- ===== src/HarborClient/Operations/Created.antt =====
-- What a run of `Create` and of `Update` leaves (bridge/controlplane/harbor/client.go).
use harbor_workload_identity.Base.{
  false, ◌≡◌, ◌⊎◌, inl, inr, refl, ap, List, ◌++◌, In, Option, none, some, Result, ok, Bool-cases,
  arith,
}
use harbor_workload_identity.Text.{Bytes, is_empty}
use harbor_workload_identity.Text.Prefix.{text_eq_iff}
use harbor_workload_identity.Naming.{ProjectPermission}
use harbor_workload_identity.Contract.{Robot}
use harbor_workload_identity.HarborClient.Robots.{ClientError}
use harbor_workload_identity.HarborClient.Operations.{
  RobotCreate, RobotCreated, Sdk, post_robot, delete_by_id, created_robot, create_body,
  created_wire, delete, accept_as, accept, after_post, create, Sent, valid_grants,
}

module _ {E : Type 0} (sdk : Sdk E) (prefix : Bytes) (name description : Bytes)
    (perms : List ProjectPermission) where
  abbrev body : RobotCreate
  body = create_body name description perms

  created_wire-some :
      (wire result : Bytes) → created_wire prefix name wire ≡ some result → result ≡ prefix ++ name
  unfolding created_wire
  created_wire-some wire result e = ground (arith, text_eq_iff wire (prefix ++ name))

  -- The robot is returned as Harbor created it, under the prefixed name; or its deletion was sent.
  abbrev pub Settled : RobotCreated → Sent (Result (ClientError E) Robot) → Type 0
  Settled created sent =
      (sent.result ≡ ok (created_robot name description perms created (prefix ++ name)))
      ⊎ In (delete_by_id created.id) sent.requests

  accept_as-Settled :
      (created : RobotCreated) (wire : Option Bytes)
      → ((w : Bytes) → wire ≡ some w → w ≡ prefix ++ name)
      → Settled created (accept_as sdk prefix body name description perms created wire)
  unfolding delete
  accept_as-Settled created (some wire) h =
      inl (ap (λ w. ok (created_robot name description perms created w)) (h wire refl))
  accept_as-Settled created none h = inr (inr (inl refl))

  accept-Settled :
      (created : RobotCreated)
      → Settled created (accept sdk prefix body name description perms created)
  unfolding accept
  accept-Settled created =
      accept_as-Settled created (created_wire prefix name created.name)
        (created_wire-some created.name)

  -- When a request to create a robot is sent and Harbor answers with a robot and its password, the
  -- robot is returned, under the configured prefix and the name; or its deletion was sent too.
  pub create-Settled :
      (created : RobotCreated)
      → In (post_robot body) (create sdk prefix name description perms).requests
      → sdk.create_robot body ≡ ok (some created)
      → is_empty created.secret ≡ false
      → Settled created (create sdk prefix name description perms)
  unfolding create after_post
  create-Settled created sent answered secret = elim (Bool-cases (valid_grants perms)) [
    | inr e ↦ absurd (rw e at sent)
    | inl e ↦ rw (e, answered, secret) (accept-Settled created)
  ]
