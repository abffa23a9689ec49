-- ===== src/Controlplane/Storage/Readable.antt =====
-- What the endpoint reads (`readRobotSecret` of bridge/dataplane/handler.go) from a Secret that
-- `putRobotSecret` (bridge/controlplane/reconciler.go) writes.
use harbor_workload_identity.Base.{
  ℕ, ◌+◌, ◌<◌, false, ◌≡◌, ◌≢◌, refl, ap, ◌∙◌, [], ◌∷◌, Option, none, some, Result, ok, err, In,
  inl, inr, ◌⊎◌, List-cases, arith,
}
use harbor_workload_identity.Text.{Bytes, is_empty, text_eq}
use harbor_workload_identity.Dict.{Dict, lookup, get, insert_all}
use harbor_workload_identity.Decimal.{IsInt64}
use harbor_workload_identity.Instant.{second, year_10000}
use harbor_workload_identity.RobotSecret.{Secret, owner_labels, credentials, ceil_second}
use harbor_workload_identity.RobotSecret.Owners.{
  NamesOwner, get-managed_by, get-namespace, get-name, stamped_for_other_iff, nonempty_pair-some,
}
use harbor_workload_identity.RobotSecret.Promise.{rotation_not_before-stamps}
use harbor_workload_identity.HarborAccess.{HarborAccess}
use harbor_workload_identity.Contract.{Robot}
use harbor_workload_identity.Dataplane.Credentials.{robot_creds}
use harbor_workload_identity.Controlplane.Effect.{
  CallError, Call, get_secret, create_secret, update_secret, delete_secret, patch_finalizers,
  update_status, get_harbor_access, get_robot, list_robots, create_robot, update_robot,
  refresh_secret, delete_robot, ret, call, Answer, answered, History, Safe, Safe-ret, Safe-call,
}
use harbor_workload_identity.Controlplane.Secrets.{Reconciler}
use harbor_workload_identity.Controlplane.Storage.{
  labels_of, annotations_of, data_of, new_secret, updated_secret, is_unchanged, put_robot_secret,
}

fresh_labels :
    (r : Reconciler) (ha : HarborAccess) → labels_of r ha ≡ insert_all (labels_of r ha) []
unfolding labels_of owner_labels insert_all text_eq
fresh_labels r ha = refl

fresh_annotations :
    (r : Reconciler) (robot : Robot) (not_before : ℕ)
    → annotations_of r robot not_before ≡ insert_all (annotations_of r robot not_before) []
unfolding annotations_of insert_all text_eq
fresh_annotations r robot not_before = refl

module _ (r : Reconciler) (ha : HarborAccess) (robot : Robot) (password : Bytes)
    (not_before : ℕ) where
  -- The endpoint reads the robot's credentials for this HarborAccess, and the promise.
  abbrev pub IsReadable : Secret → Type 0
  IsReadable s =
      robot_creds r.clock ha s
      ≡ ok (record {
        username = robot.wire_name;
        password = password;
        rotation_not_before = some (ceil_second not_before);
      })

  -- Only a Secret that the endpoint can read is written.
  unfoldable pub MayStore : History → Call → Type 0
  MayStore h (create_secret s) = IsReadable s
  MayStore h (update_secret s) = IsReadable s
  MayStore h (get_secret namespace name) = ⊥
  MayStore h (delete_secret s) = ⊥
  MayStore h (patch_finalizers object finalizers) = ⊥
  MayStore h (update_status status) = ⊥
  MayStore h (get_harbor_access namespace name) = ⊥
  MayStore h (get_robot name) = ⊥
  MayStore h list_robots = ⊥
  MayStore h (create_robot name description permissions) = ⊥
  MayStore h (update_robot changed description permissions) = ⊥
  MayStore h (refresh_secret id) = ⊥
  MayStore h (delete_robot id) = ⊥

  -- A pass that succeeds has stored such a Secret.
  unfoldable pub Stored : History → Result CallError Unit → Type 0
  Stored h (err e) = Unit
  Stored h (ok u) =
      (s : Secret) × IsReadable s
      × (In (answered (create_secret s) (ok tt)) h ⊎ In (answered (update_secret s) (ok tt)) h)

  labels_named :
      (s : Secret) (old : Dict)
      → s.labels ≡ insert_all (labels_of r ha) old
      → NamesOwner s ha.namespace ha.name
  unfolding labels_of
  labels_named s old e =
      let cluster = r.config.cluster_name in
      (
        ap (get _) e ∙ get-managed_by cluster ha.namespace ha.name old,
        ap (get _) e ∙ get-namespace cluster ha.namespace ha.name old,
        ap (get _) e ∙ get-name cluster ha.namespace ha.name old,
      )

  data_credentials :
      (s : Secret)
      → s.content ≡ data_of robot password
      → robot.wire_name ≢ []
      → password ≢ []
      → credentials s ≡ some (robot.wire_name, password)
  unfolding credentials get lookup text_eq
  data_credentials s e n m = rw (e, credentials) (nonempty_pair-some robot.wire_name password n m)

  written-IsReadable :
      (s : Secret) (old older : Dict)
      → s.labels ≡ insert_all (labels_of r ha) old
      → s.annotations ≡ insert_all (annotations_of r robot not_before) older
      → s.content ≡ data_of robot password
      → robot.wire_name ≢ []
      → password ≢ []
      → IsInt64 robot.id
      → not_before + second < year_10000
      → IsReadable s
  unfolding robot_creds annotations_of
  written-IsReadable s old older labels annotations content n m range early =
      let (managed, own) =
        (stamped_for_other_iff s ha.namespace ha.name).1 (labels_named s old labels) in
      let held = data_credentials s content n m in
      let (_, promise, _, _) =
        rotation_not_before-stamps r.clock s robot.id not_before older annotations range early in
      rw (managed, own, held, promise) refl

  is_unchanged-false :
      (updated s : Secret) → password ≢ [] → is_unchanged updated s password ≡ false
  unfolding is_unchanged
  is_unchanged-false updated s m = elim (List-cases password) [
    | inl e ↦ absurd (m e)
    | inr (c, rest, e) ↦ let filled : is_empty password ≡ false = rw e refl in ground arith
  ]

  is_empty-false : password ≢ [] → is_empty password ≡ false
  is_empty-false m = elim (List-cases password) [
    | inl e ↦ absurd (m e)
    | inr (c, rest, e) ↦ rw e refl
  ]

  write-Safe :
      (c : Call) (k : Answer c → Result CallError Unit)
      → MayStore [] c
      → ((a : Answer c) → Stored (answered c a ∷ []) (k a))
      → Safe MayStore Stored [] (call c (λ a. ret (k a)))
  write-Safe c k may stored =
      Safe-call MayStore Stored c _ may (λ v. Safe-ret MayStore Stored (stored (ok v)))
        (λ e. Safe-ret MayStore Stored (stored (err e)))

  module _ (wired : robot.wire_name ≢ []) (filled : password ≢ []) (range : IsInt64 robot.id)
      (early : not_before + second < year_10000) where
    new_secret-IsReadable : IsReadable (new_secret r ha robot password not_before)
    unfolding new_secret
    new_secret-IsReadable =
        written-IsReadable (new_secret r ha robot password not_before) [] [] (fresh_labels r ha)
          (fresh_annotations r robot not_before) refl wired filled range early

    updated_secret-IsReadable :
        (s : Secret) → IsReadable (updated_secret r ha s robot password not_before)
    unfolding updated_secret
    updated_secret-IsReadable s =
        written-IsReadable (updated_secret r ha s robot password not_before) s.labels s.annotations
          refl refl (rw (is_empty-false filled) refl) wired filled range early

    -- With a new password that is not empty, whatever is answered and whatever Secret was there, only a
    -- Secret is written from which the endpoint reads the robot's username, this password and the
    -- promise for this HarborAccess; and a success means that it was stored.
    pub put_robot_secret-Safe :
        (existing : Option Secret)
        → Safe MayStore Stored [] (put_robot_secret r ha existing robot password not_before)
    unfolding put_robot_secret MayStore Stored
    put_robot_secret-Safe none =
        let written = new_secret r ha robot password not_before in
        rw (is_empty-false filled) (
          write-Safe (create_secret written) (λ a. a) new_secret-IsReadable
            (λ a. elim a as (λ a. Stored (answered (create_secret written) a ∷ []) a) [
              | ok u ↦ (written, new_secret-IsReadable, inl (inl refl))
              | err e ↦ tt
            ]))
    put_robot_secret-Safe (some s) =
        let written = updated_secret r ha s robot password not_before in
        rw (is_unchanged-false written s filled) (
          write-Safe (update_secret written) (λ a. a) (updated_secret-IsReadable s)
            (λ a. elim a as (λ a. Stored (answered (update_secret written) a ∷ []) a) [
              | ok u ↦ (written, updated_secret-IsReadable s, inr (inl refl))
              | err e ↦ tt
            ]))
