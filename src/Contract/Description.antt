-- ===== src/Contract/Description.antt =====
-- Descriptions as they are written and read (bridge/controlplane/contract.go).
use harbor_workload_identity.Base.{
  true, false, ◌≡◌, ◌≢◌, ◌↔◌, refl, ap, ◌∙◌, List, [], ◌∷◌, ◌++◌, none, some, All, append_assoc,
  arith,
}
use harbor_workload_identity.Text.{Bytes, text_eq, has_prefix, has_byte, cut, fields}
use harbor_workload_identity.Text.Prefix.{text_eq_iff, cut-append}
use harbor_workload_identity.Text.Fields.{IsPlain, fields-word, fields_last}
use harbor_workload_identity.RobotSecret.Owners.{nonempty_pair-some}
use harbor_workload_identity.Contract.{
  robot_description_tag, robot_suspended_token, cluster_token, harboraccess_token, cluster_key,
  harboraccess_key, robot_description, suspended_robot_description, is_tagged, holds_suspended,
  robot_suspended, token_value, first_cluster_is, robot_belongs_to_cluster, token_owner,
  first_owner, parse_robot_description,
}

All-append {ℓ} : {A : Type 0} (P : A → Type ℓ) (s t : List A) → All P s → All P t → All P (s ++ t)
All-append P [] t h k = k
All-append P (x ∷ s) t h k = (h.0, All-append P s t h.1 k)

-- Names as Kubernetes and the configuration admit them: printable ASCII without spaces, the namespace
-- without a slash, none empty.
pub record IsDescribable (cluster namespace name : Bytes) : Type 0 where
  pub cluster_plain : All IsPlain cluster
  pub namespace_plain : All IsPlain namespace
  pub name_plain : All IsPlain name
  pub namespace_whole : has_byte b'/' namespace ≡ false
  pub namespace_ne_nil : namespace ≢ []
  pub name_ne_nil : name ≢ []

token_owner_tag : token_owner robot_description_tag ≡ none
unfolding token_owner token_value cut text_eq
token_owner_tag = refl

token_owner_cluster : (cluster : Bytes) → token_owner (cluster_token cluster) ≡ none
unfolding token_owner token_value cut text_eq
token_owner_cluster cluster = refl

token_value_harboraccess :
    (v : Bytes) → token_value harboraccess_key (harboraccess_key ++ b'=' ∷ v) ≡ some v
unfolding token_value cut text_eq
token_value_harboraccess v = refl

module _ (cluster namespace name : Bytes) (d : IsDescribable cluster namespace name) where
  cluster_token-IsPlain : All IsPlain (cluster_token cluster)
  cluster_token-IsPlain =
      All-append IsPlain (cluster_key ++ b'=' ∷ []) cluster (omega arith) d.cluster_plain

  harboraccess_token-IsPlain : All IsPlain (harboraccess_token namespace name)
  harboraccess_token-IsPlain =
      All-append IsPlain (harboraccess_key ++ b'=' ∷ []) (namespace ++ b'/' ∷ name) (omega arith)
        (All-append IsPlain namespace (b'/' ∷ name) d.namespace_plain (omega arith, d.name_plain))

  fields-behind_cluster :
      (rest : Bytes)
      → fields (robot_description_tag ++ 32 ∷ (cluster_token cluster ++ 32 ∷ rest))
        ≡ robot_description_tag ∷ cluster_token cluster ∷ fields rest
  fields-behind_cluster rest =
      fields-word robot_description_tag (cluster_token cluster ++ 32 ∷ rest) (omega arith) (λ e. cc)
      ∙ ap (◌∷◌ robot_description_tag)
          (fields-word (cluster_token cluster) rest cluster_token-IsPlain (λ e. cc))

  fields-robot_description :
      fields (robot_description cluster namespace name)
      ≡ robot_description_tag ∷ cluster_token cluster ∷ harboraccess_token namespace name ∷ []
  unfolding robot_description
  fields-robot_description =
      fields-behind_cluster (harboraccess_token namespace name)
      ∙ ap (λ ws. robot_description_tag ∷ cluster_token cluster ∷ ws)
          (fields_last (harboraccess_token namespace name) harboraccess_token-IsPlain (λ e. cc))

  suspended_robot_description-append :
      suspended_robot_description cluster namespace name
      ≡ robot_description_tag
        ++ 32
          ∷ (cluster_token cluster
              ++ 32 ∷ (harboraccess_token namespace name ++ 32 ∷ robot_suspended_token))
  unfolding suspended_robot_description robot_description
  suspended_robot_description-append = simp append_assoc

  fields-suspended_robot_description :
      fields (suspended_robot_description cluster namespace name)
      ≡ robot_description_tag
        ∷ cluster_token cluster
        ∷ harboraccess_token namespace name
        ∷ robot_suspended_token
        ∷ []
  fields-suspended_robot_description =
      ap fields suspended_robot_description-append
      ∙ fields-behind_cluster (harboraccess_token namespace name ++ 32 ∷ robot_suspended_token)
      ∙ ap (λ ws. robot_description_tag ∷ cluster_token cluster ∷ ws)
          (fields-word (harboraccess_token namespace name) robot_suspended_token
              harboraccess_token-IsPlain (λ e. cc)
            ∙ ap (◌∷◌ (harboraccess_token namespace name))
                (fields_last robot_suspended_token (omega arith) (λ e. cc)))

  is_tagged-robot_description : is_tagged (robot_description cluster namespace name) ≡ true
  unfolding is_tagged robot_description has_prefix
  is_tagged-robot_description = refl

  is_tagged-suspended_robot_description :
      is_tagged (suspended_robot_description cluster namespace name) ≡ true
  unfolding is_tagged suspended_robot_description robot_description has_prefix
  is_tagged-suspended_robot_description = refl

  token_owner_harboraccess :
      token_owner (harboraccess_token namespace name) ≡ some (namespace, name)
  unfolding token_owner
  token_owner_harboraccess =
      rw (token_value_harboraccess (namespace ++ b'/' ∷ name), token_owner)
        (rw (cut-append b'/' namespace name d.namespace_whole)
          (nonempty_pair-some namespace name d.namespace_ne_nil d.name_ne_nil))

  first_owner-tokens :
      (more : List Bytes)
      → first_owner
          (robot_description_tag ∷ cluster_token cluster ∷ harboraccess_token namespace name ∷ more)
        ≡ some (namespace, name)
  unfolding first_owner
  first_owner-tokens more =
      rw (token_owner_tag, first_owner)
        (rw (token_owner_cluster cluster, first_owner) (rw (token_owner_harboraccess, first_owner)))

  first_cluster_is-tokens :
      (other : Bytes) (more : List Bytes)
      → first_cluster_is other (robot_description_tag ∷ cluster_token cluster ∷ more)
        ≡ text_eq cluster other
  unfolding first_cluster_is token_value cut text_eq
  first_cluster_is-tokens other more = refl

  -- The HarborAccess of a description that the bridge writes, suspended or not, is read back.
  pub parse_robot_description-robot_description :
      (parse_robot_description (robot_description cluster namespace name) ≡ some (namespace, name))
      × (parse_robot_description (suspended_robot_description cluster namespace name)
          ≡ some (namespace, name))
  unfolding parse_robot_description
  parse_robot_description-robot_description = (
    rw (is_tagged-robot_description, fields-robot_description) (first_owner-tokens []),
    rw (is_tagged-suspended_robot_description, fields-suspended_robot_description)
        (first_owner-tokens (robot_suspended_token ∷ [])),
  )

  -- A description that the bridge of one cluster writes, suspended or not, belongs to that cluster and
  -- to no other.
  pub robot_belongs_to_cluster_iff :
      (other : Bytes)
      → ((robot_belongs_to_cluster (robot_description cluster namespace name) other ≡ true)
          ↔ (cluster ≡ other))
        × ((robot_belongs_to_cluster (suspended_robot_description cluster namespace name) other
              ≡ true)
            ↔ (cluster ≡ other))
  unfolding robot_belongs_to_cluster
  robot_belongs_to_cluster_iff other = (
    rw (is_tagged-robot_description, fields-robot_description, first_cluster_is-tokens)
        (text_eq_iff cluster other),
    rw
        (
          is_tagged-suspended_robot_description, fields-suspended_robot_description,
          first_cluster_is-tokens,
        )
        (text_eq_iff cluster other),
  )

  -- The suspension token is found in the description of a suspended robot, and not in the other.
  pub robot_suspended-robot_description :
      (robot_suspended (robot_description cluster namespace name) ≡ false)
      × (robot_suspended (suspended_robot_description cluster namespace name) ≡ true)
  unfolding robot_suspended holds_suspended text_eq
  robot_suspended-robot_description = (
    rw (is_tagged-robot_description, fields-robot_description),
    rw (is_tagged-suspended_robot_description, fields-suspended_robot_description),
  )
