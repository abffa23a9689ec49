-- ===== src/Plugin/Served.antt =====
-- Where the credentials that the plugin hands to kubelet come from (`run` of plugin/main.go and `fetch`
-- of plugin/bridge_client.go).
use harbor_workload_identity.Base.{
  true, false, ◌≡◌, ◌⊎◌, inl, inr, refl, sym, [], ◌∷◌, Option, none, some, Result, ok, err,
  >>=-eq-ok, ok_injective, ◌==◌, Bool-cases, arith,
}
use harbor_workload_identity.Base.Int.{ℤ}
use harbor_workload_identity.Text.{Bytes, is_empty}
use harbor_workload_identity.Plugin.{
  ProviderRequest, ProviderResponse, BridgeResponse, PluginError, bridge_refused,
  bridge_unavailable, undecodable_request, unsupported_request, image_empty, token_empty,
  no_registry_host, unknown_cache_key_type, no_expires_in, undecodable_response, no_credentials,
  no_cache_key_type, unexpected_status, World, Read, do_post, check_response, judge_reply,
  judge_last, after_first, fetch, image_host, is_cache_key_type, kubelet_duration, with_duration,
  ok_response, refused_response, answer, check_request, run,
}

module _ (w : World) where
  -- The bridge answered with this status and this body what the plugin made of it.
  abbrev pub IsAnswer : Read → BridgeResponse → Type 0
  IsAnswer r out =
      (r.status ≡ 200)
      × (w.decode r.body ≡ some out)
      × (is_empty out.username ≡ false)
      × (is_empty out.password ≡ false)

  check_response-ok :
      (decoded : Option BridgeResponse) (out : BridgeResponse)
      → check_response decoded ≡ ok out
      → (decoded ≡ some out) × (is_empty out.username ≡ false) × (is_empty out.password ≡ false)
  unfolding check_response
  check_response-ok none out e = absurd cc
  check_response-ok (some d) out e = ground arith

  judge_reply-IsAnswer :
      (r : Read) (out : BridgeResponse) → judge_reply w r ≡ ok out → IsAnswer r out
  unfolding judge_reply
  judge_reply-IsAnswer r out e = elim (Bool-cases (r.status == 200)) [
    | inl s ↦
        let (d, u, p) = check_response-ok (w.decode r.body) out (rw s at e) in
        (ground arith, d, u, p)
    | inr s ↦ absurd (ground arith)
  ]

  -- The answer of the first POST, or of the second after a 503.
  abbrev pub IsServed : Bytes → Bytes → BridgeResponse → Type 0
  IsServed image token out =
      ((r : Read) × (do_post w 0 image token ≡ some r) × IsAnswer r out)
      ⊎ ((first : Read) × (r : Read) × (do_post w 0 image token ≡ some first)
          × (first.status ≡ 503)
          × (do_post w 1 image token ≡ some r)
          × IsAnswer r out)

  judge_last-IsAnswer :
      (last : Option Read) (out : BridgeResponse)
      → judge_last w last ≡ ok out
      → (r : Read) × (last ≡ some r) × IsAnswer r out
  judge_last-IsAnswer none out e = absurd cc
  judge_last-IsAnswer (some r) out e = (r, refl, judge_reply-IsAnswer r out e)

  after_first-IsServed :
      (image token : Bytes) (first : Option Read) (out : BridgeResponse)
      → do_post w 0 image token ≡ first
      → after_first w image token first ≡ ok out
      → IsServed image token out
  after_first-IsServed image token none out p e = absurd cc
  after_first-IsServed image token (some r) out p e = elim (Bool-cases (r.status == 503)) [
    | inl s ↦
        let (r', q, a) = judge_last-IsAnswer (do_post w 1 image token) out (rw s at e) in
        inr (r, r', p, ground arith, q, a)
    | inr s ↦ inl (r, p, judge_reply-IsAnswer r out (rw s at e))
  ]

  pub fetch-IsServed :
      (image token : Bytes) (out : BridgeResponse)
      → fetch w image token ≡ ok out
      → IsServed image token out
  unfolding fetch
  fetch-IsServed image token out e =
      after_first-IsServed image token (do_post w 0 image token) out refl e

  -- The response hands on these credentials for the image's registry.
  abbrev pub HandsOn : Bytes → BridgeResponse → ProviderResponse → Type 0
  HandsOn image out resp =
      (secs : ℤ) × (out.expires_in_secs ≡ some secs)
      × (is_empty (image_host image) ≡ false)
      × (is_cache_key_type resp.cache_key_type ≡ true)
      × (resp ≡ record {
        cache_key_type = out.cache_key_type;
        cache_duration = kubelet_duration secs;
        auth =
            record { host = image_host image; username = out.username; password = out.password }
            ∷ [];
      })

  with_duration-ok :
      (out : BridgeResponse) (host : Bytes) (secs : Option ℤ) (resp : ProviderResponse)
      → with_duration out host secs ≡ ok resp
      → (n : ℤ) × (secs ≡ some n)
        × (resp ≡ record {
          cache_key_type = out.cache_key_type;
          cache_duration = kubelet_duration n;
          auth = record { host = host; username = out.username; password = out.password } ∷ [];
        })
  with_duration-ok out host none resp e = absurd cc
  with_duration-ok out host (some n) resp e = (n, refl, sym (ok_injective {E = PluginError} e))

  pub ok_response-HandsOn :
      (out : BridgeResponse) (image : Bytes) (resp : ProviderResponse)
      → ok_response out image ≡ ok resp
      → HandsOn image out resp
  unfolding ok_response
  ok_response-HandsOn out image resp e = elim (Bool-cases (is_empty (image_host image))) [
    | inl h ↦ absurd (ground arith)
    | inr h ↦ elim (Bool-cases (is_cache_key_type out.cache_key_type)) [
      | inr k ↦ absurd (ground arith)
      | inl k ↦
          let (n, s, same) =
            with_duration-ok out (image_host image) out.expires_in_secs resp (rw (h, k) at e) in
          (n, s, h, rw same k, same)
    ]
  ]

  -- A response that the plugin writes for a request is the empty one that is not cached, where the
  -- bridge refused the token; or it hands on, for the registry of the image, the credentials of a
  -- response with status 200 to the first POST, or to the second one after a 503.
  pub run-HandsOn :
      (req : ProviderRequest) (resp : ProviderResponse)
      → run w (some req) ≡ ok resp
      → ((fetch w req.image req.service_account_token ≡ err bridge_refused)
          × (resp ≡ refused_response))
        ⊎ ((out : BridgeResponse) × IsServed req.image req.service_account_token out
            × HandsOn req.image out resp)
  unfolding run
  run-HandsOn req resp e =
      let (u, checked, rest) = >>=-eq-ok (check_request req) _ e in
      answered_as (fetch w req.image req.service_account_token) refl rest
    where
      answered_as :
          (f : Result PluginError BridgeResponse)
          → fetch w req.image req.service_account_token ≡ f
          → answer req.image f ≡ ok resp
          → ((fetch w req.image req.service_account_token ≡ err bridge_refused)
              × (resp ≡ refused_response))
            ⊎ ((out : BridgeResponse) × IsServed req.image req.service_account_token out
                × HandsOn req.image out resp)
      answered_as (ok out) p a = inr (
        out,
        fetch-IsServed req.image req.service_account_token out p,
        ok_response-HandsOn out req.image resp a,
      )
      answered_as (err bridge_refused) p a = inl (p, sym (ok_injective {E = PluginError} a))
      answered_as (err bridge_unavailable) p a = absurd cc
      answered_as (err undecodable_request) p a = absurd cc
      answered_as (err unsupported_request) p a = absurd cc
      answered_as (err image_empty) p a = absurd cc
      answered_as (err token_empty) p a = absurd cc
      answered_as (err no_registry_host) p a = absurd cc
      answered_as (err unknown_cache_key_type) p a = absurd cc
      answered_as (err no_expires_in) p a = absurd cc
      answered_as (err undecodable_response) p a = absurd cc
      answered_as (err no_credentials) p a = absurd cc
      answered_as (err no_cache_key_type) p a = absurd cc
      answered_as (err unexpected_status) p a = absurd cc
