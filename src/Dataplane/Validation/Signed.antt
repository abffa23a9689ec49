-- ===== src/Dataplane/Validation/Signed.antt =====
-- Which keys a token's signature rests on (`VerifySignature` of bridge/dataplane/oidc_keyset.go).
use harbor_workload_identity.Base.{
  Bool, true, false, not, ◌&&◌, ◌≡◌, ◌⊎◌, inl, inr, refl, ◌∙◌, List, [], ◌∷◌, In, Option, none,
  some, Result, ok, err, Bool-cases, Option-cases, arith,
}
use harbor_workload_identity.Text.{Bytes, is_empty, text_eq}
use harbor_workload_identity.Text.Prefix.{text_eq_iff}
use harbor_workload_identity.Dataplane.Validation.{
  Jws, verify_with, holds_key, or_refreshed, or_cached, verify_signature,
}

module _ {K : Type 0} (jws : Jws K) where
  -- A key of the list verifies the signature, and has the ID that the token names, if it names one.
  abbrev pub IsSignedBy : List K → Bytes → Type 0
  IsSignedBy keys payload =
      (key : K) × In key keys
      × (jws.verify_key key ≡ some payload)
      × ((jws.key_id ≡ []) ⊎ (jws.id_of key ≡ jws.key_id))

  nil_of : (s : Bytes) → is_empty s ≡ true → s ≡ []
  nil_of [] e = refl
  nil_of (c ∷ s) e = absurd (ground arith)

  named :
      (key : K)
      → (not (is_empty jws.key_id) && not (text_eq (jws.id_of key) jws.key_id)) ≡ false
      → (jws.key_id ≡ []) ⊎ (jws.id_of key ≡ jws.key_id)
  named key e = elim (Bool-cases (is_empty jws.key_id)) [
    | inl n ↦ inl (nil_of jws.key_id n)
    | inr n ↦ inr ((text_eq_iff (jws.id_of key) jws.key_id).0 (ground arith))
  ]

  pub verify_with-IsSignedBy :
      (keys : List K) (payload : Bytes)
      → verify_with jws keys ≡ some payload
      → IsSignedBy keys payload
  unfolding verify_with
  verify_with-IsSignedBy [] payload e = absurd cc
  verify_with-IsSignedBy (key ∷ keys) payload e =
      elim (Bool-cases (not (is_empty jws.key_id) && not (text_eq (jws.id_of key) jws.key_id))) [
        | inl skip ↦
            let (k, i, v, n) = verify_with-IsSignedBy keys payload (rw skip at e) in
            (k, inr i, v, n)
        | inr tried ↦ elim (Option-cases (jws.verify_key key)) [
          | inr (p, q) ↦
              let here : ◌≡◌ {A = Option Bytes} (some p) (some payload) = rw (tried, q) at e in
              (key, inl refl, q ∙ here, named key tried)
          | inl q ↦
              let (k, i, v, n) = verify_with-IsSignedBy keys payload (rw (tried, q) at e) in
              (k, inr i, v, n)
        ]
      ]

  -- What a judgement means: a payload rests on one of the keys that the bridge held or fetched; and
  -- only a failed refresh, and no key under the ID that the token names, leaves the token unjudged.
  abbrev pub Judged : List K → Result Unit (List K) → List K → Result Bool Bytes → Type 0
  Judged cached refreshed keys (ok payload) = IsSignedBy cached payload ⊎ IsSignedBy keys payload
  Judged cached refreshed keys (err true) =
      (refreshed ≡ err tt) × (holds_key jws cached ≡ false) × (holds_key jws keys ≡ false)
  Judged cached refreshed keys (err false) =
      ((fresh : List K) × (refreshed ≡ ok fresh))
      ⊎ ((holds_key jws cached ≡ true) ⊎ (holds_key jws keys ≡ true))

  unjudged :
      (cached keys : List K)
      → Judged cached (err tt) keys (err (not (holds_key jws cached) && not (holds_key jws keys)))
  unjudged cached keys = elim (Bool-cases (holds_key jws cached)) [
    | inl c ↦ rw c (inr (inl c))
    | inr c ↦ elim (Bool-cases (holds_key jws keys)) [
      | inl k ↦ rw (c, k) (inr (inr k))
      | inr k ↦ rw (c, k) (refl, c, k)
    ]
  ]

  or_refreshed-Judged :
      (cached keys : List K) (refreshed : Result Unit (List K)) (found : Option Bytes)
      → verify_with jws keys ≡ found
      → Judged cached refreshed keys (or_refreshed jws cached refreshed keys found)
  or_refreshed-Judged cached keys refreshed (some payload) e =
      inr (verify_with-IsSignedBy keys payload e)
  or_refreshed-Judged cached keys (ok fresh) none e = inl (fresh, refl)
  or_refreshed-Judged cached keys (err u) none e = unjudged cached keys

  or_cached-Judged :
      (cached keys : List K) (refreshed : Result Unit (List K)) (found : Option Bytes)
      → verify_with jws cached ≡ found
      → Judged cached refreshed keys (or_cached jws cached refreshed keys found)
  or_cached-Judged cached keys refreshed (some payload) e =
      inl (verify_with-IsSignedBy cached payload e)
  or_cached-Judged cached keys refreshed none e =
      or_refreshed-Judged cached keys refreshed (verify_with jws keys) refl

  -- A payload is returned only if a key that the bridge held or fetched verifies the signature, one
  -- with the ID that the token names, if it names one. The keys are reported as unavailable only if
  -- the refresh failed and neither list holds a key with that ID; any other failure means that the
  -- refresh worked or such a key was held.
  pub verify_signature-Judged :
      (cached : List K) (refreshed : Result Unit (List K)) (keys : List K)
      → Judged cached refreshed keys (verify_signature jws cached refreshed keys)
  unfolding verify_signature
  verify_signature-Judged cached refreshed keys =
      or_cached-Judged cached keys refreshed (verify_with jws cached) refl
