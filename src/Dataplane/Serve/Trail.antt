-- ===== src/Dataplane/Serve/Trail.antt =====
-- The trail of a request to `ServeHTTP` (bridge/dataplane/handler.go): its status, its audit lines and
-- its metrics.
use harbor_workload_identity.Base.{
  ℕ, Bool, true, false, ◌≡◌, ◌≢◌, ◌⊎◌, subst, refl, sym, ap, ◌∙◌, List, [], ◌∷◌, Option, none, some,
  Result, ok, err, Result-cases, Bool-cases, inl, inr, arith,
}
use harbor_workload_identity.Text.{Bytes, codes, text_eq}
use harbor_workload_identity.Dataplane.Limiter.{SourceLimiter, allow_or_nil}
use harbor_workload_identity.Dataplane.Audit.{
  AuditEvent, issued, AuditLine, IssuanceResult, result_ok, result_unauthorized, result_forbidden,
  result_unavailable, result_bad_request, result_server_error, result_rate_limited, Metric,
  issuance, oidc_validation_failure, harboraccess_lookup_failure, robot_secret_missing,
  issuance_duration,
}
use harbor_workload_identity.Dataplane.Credentials.{owner_mismatch, missing, unreadable}
use harbor_workload_identity.Dataplane.Handler.{
  credentials_path, HttpRequest, Handler, Response, EarlyRefusal, method_not_allowed, unknown_path,
  rate_limited, not_implemented, missing_bearer, invalid_body, Refusal, invalid, lookup_failed,
  being_deleted, no_match, invalid_spec, no_secret, name_unknown, previous_identity, Issuance,
  Outcome, bearer_token, requested_image, read_request, issue, source_ip,
}
use harbor_workload_identity.Dataplane.Serve.{
  admitted, serve_http, conclude, grant, refuse, refuse_early, answer,
}

-- The results that were counted, in order.
unfoldable pub counted_results : List Metric → List IssuanceResult
counted_results [] = []
counted_results (issuance x ∷ ms) = x ∷ counted_results ms
counted_results (oidc_validation_failure x ∷ ms) = counted_results ms
counted_results (harboraccess_lookup_failure ∷ ms) = counted_results ms
counted_results (robot_secret_missing ∷ ms) = counted_results ms
counted_results (issuance_duration ∷ ms) = counted_results ms

-- The results that a status may be counted under.
abbrev pub HasResult : ℕ → IssuanceResult → Type 0
HasResult status result_ok = status ≡ 200
HasResult status result_unauthorized = status ≡ 401
HasResult status result_forbidden = status ≡ 403
HasResult status result_unavailable = status ≡ 503
HasResult status result_bad_request = status ≡ 400
HasResult status result_server_error = (status ≡ 500) ⊎ (status ≡ 501)
HasResult status result_rate_limited = status ≡ 429

-- The request is counted once, under a result that goes with its status.
abbrev pub IsCounted : Outcome → Type 0
IsCounted o = (x : IssuanceResult) × (counted_results o.metrics ≡ x ∷ []) × HasResult o.status x

-- The event says that credentials were issued.
abbrev pub is_issue : AuditEvent → Bool
is_issue (issued aud ha generation robot seconds) = true
is_issue _ = false

-- The audit of an outcome: at most one line, none where the token was not judged; and the line says
-- "credential issued" exactly where credentials are written, with status 200.
abbrev pub IsAudited : Outcome → Type 0
IsAudited o =
    (l : AuditLine) × (o.audit ≡ l ∷ [])
    × (((is_issue l.event ≡ true) × (o.status ≡ 200) × (resp : Response) × (o.response ≡ some resp))
        ⊎ ((is_issue l.event ≡ false) × (o.response ≡ none)))

refuse-IsCounted :
    (h : Handler) (r : HttpRequest) (image : Bytes) (e : Refusal)
    → h.instrumented ≡ true
    → IsCounted (refuse h r image e)
unfolding refuse answer counted_results
refuse-IsCounted h r image (invalid x) on = elim (Bool-cases x.is_keys_unavailable) [
  | inl e ↦ (result_unavailable, ground arith, ground arith)
  | inr e ↦ (result_unauthorized, ground arith, ground arith)
]
refuse-IsCounted h r image (lookup_failed c m) on = (result_server_error, ground arith, inl refl)
refuse-IsCounted h r image (being_deleted c ha) on = (result_forbidden, ground arith, refl)
refuse-IsCounted h r image (no_match c) on = (result_forbidden, ground arith, refl)
refuse-IsCounted h r image (invalid_spec c ha) on = (result_forbidden, ground arith, refl)
refuse-IsCounted h r image (no_secret c ha owner_mismatch) on =
    (result_forbidden, ground arith, refl)
refuse-IsCounted h r image (no_secret c ha missing) on = (result_unavailable, ground arith, refl)
refuse-IsCounted h r image (no_secret c ha (unreadable m)) on =
    (result_server_error, ground arith, inl refl)
refuse-IsCounted h r image (name_unknown c ha m) on = (result_server_error, ground arith, inl refl)
refuse-IsCounted h r image (previous_identity c ha u w) on =
    (result_unavailable, ground arith, refl)

refuse_early-IsCounted :
    (h : Handler) (e : EarlyRefusal)
    → h.instrumented ≡ true
    → (e ≡ method_not_allowed) ⊎ (e ≡ unknown_path) ⊎ IsCounted (refuse_early h e)
unfolding refuse_early counted_results
refuse_early-IsCounted h method_not_allowed on = inl refl
refuse_early-IsCounted h unknown_path on = inr (inl refl)
refuse_early-IsCounted h rate_limited on = inr (inr (result_rate_limited, ground arith, refl))
refuse_early-IsCounted h not_implemented on =
    inr (inr (result_server_error, ground arith, inr refl))
refuse_early-IsCounted h missing_bearer on = inr (inr (result_unauthorized, ground arith, refl))
refuse_early-IsCounted h invalid_body on = inr (inr (result_bad_request, ground arith, refl))

conclude-IsCounted :
    (h : Handler) (r : HttpRequest) (image : Bytes) (o : Result Refusal Issuance)
    → h.instrumented ≡ true
    → IsCounted (conclude h r image o)
unfolding grant counted_results
conclude-IsCounted h r image (ok i) on = (result_ok, ground arith, refl)
conclude-IsCounted h r image (err e) on = refuse-IsCounted h r image e on

admitted-read :
    (h : Handler) (now : ℕ) (r : HttpRequest) (token image : Bytes)
    → read_request h r ≡ ok (token, image)
    → admitted h now r ≡ conclude h r image (issue h now token)
unfolding admitted
admitted-read h now r token image e = rw (e, admitted) refl

admitted-refused :
    (h : Handler) (now : ℕ) (r : HttpRequest) (x : EarlyRefusal)
    → read_request h r ≡ err x
    → admitted h now r ≡ refuse_early h x
unfolding admitted
admitted-refused h now r x e = rw (e, admitted) refl

-- The refusals of the method and the path, which are not counted, come before that.
read_request-err :
    (h : Handler) (r : HttpRequest) (x : EarlyRefusal)
    → read_request h r ≡ err x
    → (x ≢ method_not_allowed) × (x ≢ unknown_path)
unfolding read_request bearer_token requested_image
read_request-err h r x e = (λ f. absurd (ground arith), λ f. absurd (ground arith))

IsCounted-early :
    (h : Handler) (x : EarlyRefusal)
    → h.instrumented ≡ true
    → (x ≢ method_not_allowed) × (x ≢ unknown_path)
    → IsCounted (refuse_early h x)
IsCounted-early h x on (n, m) = elim (refuse_early-IsCounted h x on) [
  | inl e ↦ absurd (n e)
  | inr (inl e) ↦ absurd (m e)
  | inr (inr c) ↦ c
]

admitted-IsCounted :
    (h : Handler) (now : ℕ) (r : HttpRequest) → h.instrumented ≡ true → IsCounted (admitted h now r)
admitted-IsCounted h now r on = elim (Result-cases (read_request h r)) [
  | inl ((token, image), e) ↦
      subst IsCounted (sym (admitted-read h now r token image e))
        (conclude-IsCounted h r image (issue h now token) on)
  | inr (x, e) ↦
      subst IsCounted (sym (admitted-refused h now r x e))
        (IsCounted-early h x on (read_request-err h r x e))
]

refuse-IsAudited :
    (h : Handler) (r : HttpRequest) (image : Bytes) (e : Refusal) → IsAudited (refuse h r image e)
unfolding refuse answer
refuse-IsAudited h r image (invalid x) = elim (Bool-cases x.is_keys_unavailable) [
  | inl e ↦ (_, refl, inr (ground arith, refl))
  | inr e ↦ (_, refl, inr (ground arith, refl))
]
refuse-IsAudited h r image (lookup_failed c m) = (_, refl, inr (refl, refl))
refuse-IsAudited h r image (being_deleted c ha) = (_, refl, inr (refl, refl))
refuse-IsAudited h r image (no_match c) = (_, refl, inr (refl, refl))
refuse-IsAudited h r image (invalid_spec c ha) = (_, refl, inr (refl, refl))
refuse-IsAudited h r image (no_secret c ha owner_mismatch) = (_, refl, inr (refl, refl))
refuse-IsAudited h r image (no_secret c ha missing) = (_, refl, inr (refl, refl))
refuse-IsAudited h r image (no_secret c ha (unreadable m)) = (_, refl, inr (refl, refl))
refuse-IsAudited h r image (name_unknown c ha m) = (_, refl, inr (refl, refl))
refuse-IsAudited h r image (previous_identity c ha u w) = (_, refl, inr (refl, refl))

conclude-IsAudited :
    (h : Handler) (r : HttpRequest) (image : Bytes) (o : Result Refusal Issuance)
    → IsAudited (conclude h r image o)
unfolding grant
conclude-IsAudited h r image (ok i) = (_, refl, inl (refl, refl, _, refl))
conclude-IsAudited h r image (err e) = refuse-IsAudited h r image e

refuse_early_silent :
    (h : Handler) (x : EarlyRefusal)
    → ((refuse_early h x).audit ≡ []) × ((refuse_early h x).response ≡ none)
unfolding refuse_early
refuse_early_silent h x = ground arith

limited-IsCounted : (h : Handler) → h.instrumented ≡ true → IsCounted (refuse_early h rate_limited)
limited-IsCounted h on =
    IsCounted-early h rate_limited on (λ e. absurd (ground arith), λ e. absurd (ground arith))

module _ {L : Type 0} (new_limiter : L) (allow_n : ℕ → L → Bool × L) where
  module _ (h : Handler) (arrival now : ℕ) (r : HttpRequest)
      (limiter : Option (SourceLimiter L)) where
    abbrev allowed : Bool
    allowed = (allow_or_nil new_limiter allow_n (source_ip h r) arrival limiter).0

    abbrev outcome : Outcome
    outcome = (serve_http new_limiter allow_n h arrival now r limiter).0

    -- The request gets as far as the validation of its token.
    abbrev pub IsJudged : Type 0
    IsJudged =
        (text_eq r.method (codes "POST") ≡ true)
        × (text_eq r.path credentials_path ≡ true)
        × (allowed ≡ true)
        × (p : Bytes × Bytes) × (read_request h r ≡ ok p)

    -- It does not, and leaves neither an audit line nor credentials.
    abbrev pub Quiet : Type 0
    Quiet = (¬ IsJudged) × (outcome.audit ≡ []) × (outcome.response ≡ none)

    -- The four ways through the checks before the body of the handler.
    serve_http-cases :
        ((text_eq r.method (codes "POST") ≡ false) × (outcome ≡ refuse_early h method_not_allowed))
        ⊎ ((text_eq r.path credentials_path ≡ false) × (outcome ≡ refuse_early h unknown_path))
        ⊎ ((allowed ≡ false) × (outcome ≡ refuse_early h rate_limited))
        ⊎ ((text_eq r.method (codes "POST") ≡ true)
            × (text_eq r.path credentials_path ≡ true)
            × (allowed ≡ true)
            × (outcome ≡ admitted h now r))
    unfolding serve_http
    serve_http-cases = ground arith

    -- Of a POST to the credentials path every return counts one result, which goes with its status.
    pub serve_http-IsCounted :
        h.instrumented ≡ true
        → text_eq r.method (codes "POST") ≡ true
        → text_eq r.path credentials_path ≡ true
        → IsCounted outcome
    serve_http-IsCounted on post path = elim serve_http-cases [
      | inl (e, _) ↦ absurd (ground arith)
      | inr (inl (e, _)) ↦ absurd (ground arith)
      | inr (inr (inl (_, e))) ↦ subst IsCounted (sym e) (limited-IsCounted h on)
      | inr (inr (inr (_, _, _, e))) ↦ subst IsCounted (sym e) (admitted-IsCounted h now r on)
    ]

    unjudged : (x : EarlyRefusal) → outcome ≡ refuse_early h x → ¬ IsJudged → Quiet
    unjudged x e n =
        let (quiet, empty) = refuse_early_silent h x in
        (n, ap (λ (o : Outcome). o.audit) e ∙ quiet, ap (λ (o : Outcome). o.response) e ∙ empty)

    -- A request whose token is judged leaves one audit line, which says "credential issued" exactly
    -- where credentials are written, with status 200; any other request leaves none, and no
    -- credentials.
    pub serve_http-IsAudited : Quiet ⊎ (IsJudged × IsAudited outcome)
    serve_http-IsAudited = elim serve_http-cases [
      | inl (e, f) ↦ inl (unjudged method_not_allowed f (λ j. absurd (ground arith)))
      | inr (inl (e, f)) ↦ inl (unjudged unknown_path f (λ j. absurd (ground arith)))
      | inr (inr (inl (e, f))) ↦ inl (unjudged rate_limited f (λ j. absurd (ground arith)))
      | inr (inr (inr (a, b, c, f))) ↦ elim (Result-cases (read_request h r)) [
        | inl ((token, image), e) ↦ inr (
          (a, b, c, (token, image), e),
          subst IsAudited (sym (f ∙ admitted-read h now r token image e))
              (conclude-IsAudited h r image (issue h now token)),
        )
        | inr (x, e) ↦ inl (
            unjudged x (f ∙ admitted-refused h now r x e)
              (λ (_, _, _, p, k). absurd (ground arith)))
      ]
    ]
