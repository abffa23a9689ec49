-- ===== src/Dataplane/Serve/Issued.antt =====
-- When `ServeHTTP` (bridge/dataplane/handler.go) issues credentials, and to whom.
use harbor_workload_identity.Base.{
  ℕ, Bool, true, ◌≡◌, refl, sym, ap, ◌∙◌, List, Option, none, some, Result, ok, err, In,
  Result-cases, subst, inl, inr, arith,
}
use harbor_workload_identity.Text.{Bytes, codes, text_eq, cut_prefix}
use harbor_workload_identity.Text.Prefix.{text_eq_iff}
use harbor_workload_identity.HarborAccess.{HarborAccess, token_ttl_ok}
use harbor_workload_identity.RobotSecret.{Secret, secret_name, credentials, rotation_not_before}
use harbor_workload_identity.RobotSecret.Owners.{NamesOwner}
use harbor_workload_identity.Dataplane.CacheTtl.{cache_duration, whole_seconds}
use harbor_workload_identity.Dataplane.Matching.{Claims}
use harbor_workload_identity.Dataplane.Matching.Selection.{Live, find_harbor_access-matched}
use harbor_workload_identity.Dataplane.Limiter.{SourceLimiter, allow_or_nil}
use harbor_workload_identity.Dataplane.Credentials.{robot_username}
use harbor_workload_identity.Dataplane.Handler.{
  credentials_path, HttpRequest, Handler, Response, EarlyRefusal, method_not_allowed, unknown_path,
  rate_limited, Refusal, Issuance, read_request, bearer_token, issue, source_ip,
}
use harbor_workload_identity.Dataplane.Serve.{
  admitted, serve_http, conclude, grant, refuse, refuse_early,
}
use harbor_workload_identity.Dataplane.Serve.Issuable.{
  IsIssuable, issue-IsIssuable, IsIssuable-issue, read_robot_secret-ok,
}

read_request-ok :
    (h : Handler) (r : HttpRequest) {token image : Bytes}
    → read_request h r ≡ ok (token, image)
    → (h.force_local_validation ≡ true)
      × (cut_prefix (codes "Bearer ") r.authorization ≡ some token)
unfolding read_request bearer_token
read_request-ok h r e = ground arith

-- What stands behind a response with credentials: a bearer token that the validator accepts, an
-- object that serves it and whose deletion has not begun, and that object's own Secret, which holds
-- the username of the object's ServiceAccount.
pub record IsEntitled (h : Handler) (now : ℕ) (r : HttpRequest) (resp : Response) : Type 0 where
  pub token : Bytes
  pub claims : Claims
  pub items : List HarborAccess
  pub ha : HarborAccess
  pub secret : Secret
  pub local_validation : h.force_local_validation ≡ true
  pub bearer : cut_prefix (codes "Bearer ") r.authorization ≡ some token
  pub validated : h.validate token ≡ ok claims
  pub listed : h.list_by_subject claims.subject ≡ ok items
  pub found : In ha items
  pub live : Live h.audience claims ha
  pub ttl_ok : token_ttl_ok ha.spec.token_ttl ≡ true
  pub stored :
      h.get_secret h.bridge_namespace (secret_name h.hash_of ha.namespace ha.name) ≡ ok secret
  pub owned : NamesOwner secret ha.namespace ha.name
  pub held : credentials secret ≡ some (resp.username, resp.password)
  pub named : robot_username h.robot_username_of ha ≡ ok resp.username
  pub cached :
      resp.expires_in_secs
      ≡ whole_seconds
          (cache_duration ha.spec.token_ttl.duration (rotation_not_before h.clock secret) now)

refuse_early-response : (h : Handler) (e : EarlyRefusal) → (refuse_early h e).response ≡ none
unfolding refuse_early
refuse_early-response h e = ground arith

conclude-response :
    (h : Handler) (r : HttpRequest) (image : Bytes) (o : Result Refusal Issuance) {resp : Response}
    → (conclude h r image o).response ≡ some resp
    → (i : Issuance) × (o ≡ ok i)
      × (resp ≡ record {
        username = i.creds.username;
        password = i.creds.password;
        expires_in_secs = whole_seconds i.ttl;
      })
unfolding refuse grant
conclude-response h r image (ok i) e = (i, refl, ground arith)
conclude-response h r image (err e) f = absurd (ground arith)

admitted-response :
    (h : Handler) (now : ℕ) (r : HttpRequest) {resp : Response}
    → (admitted h now r).response ≡ some resp
    → (token : Bytes) × (image : Bytes) × (i : Issuance) × (read_request h r ≡ ok (token, image))
      × (issue h now token ≡ ok i)
      × (resp ≡ record {
        username = i.creds.username;
        password = i.creds.password;
        expires_in_secs = whole_seconds i.ttl;
      })
unfolding admitted
admitted-response h now r {resp} e = elim (Result-cases (read_request h r)) [
  | inl ((token, image), f) ↦
      let shown : (conclude h r image (issue h now token)).response ≡ some resp = ground arith in
      let (i, j, k) = conclude-response h r image (issue h now token) {resp = resp} shown in
      (token, image, i, f, j, k)
  | inr (x, f) ↦ absurd (ground (arith, refuse_early-response h x))
]

admitted-IsEntitled :
    (h : Handler) (now : ℕ) (r : HttpRequest) (resp : Response)
    → (admitted h now r).response ≡ some resp
    → IsEntitled h now r resp
admitted-IsEntitled h now r resp e =
    let (token, image, i, f, g, shape) = admitted-response h now r {resp = resp} e in
    let (local, bearer) = read_request-ok h r {token = token} {image = image} f in
    let p = issue-IsIssuable h now token i g in
    let (inside, live, _, _) =
      find_harbor_access-matched h.audience i.claims p.items
        {m = record { ha = i.matched; aud = i.aud_matched }} p.selected in
    let (s, got, own, complete, promise) =
      read_robot_secret-ok h i.matched {creds = i.creds} p.read in
    subst (IsEntitled h now r) (sym shape) (record {
      token = token;
      claims = i.claims;
      items = p.items;
      ha = i.matched;
      secret = s;
      local_validation = local;
      bearer = bearer;
      validated = p.validated;
      listed = p.listed;
      found = inside;
      live = live;
      ttl_ok = p.ttl_ok;
      stored = got;
      owned = own;
      held = complete;
      named = p.named;
      cached =
          ap whole_seconds
            (p.cached ∙ ap (λ o. cache_duration i.matched.spec.token_ttl.duration o now) promise);
    })

admitted-ok :
    (h : Handler) (now : ℕ) (r : HttpRequest) (token image : Bytes) (i : Issuance)
    → read_request h r ≡ ok (token, image)
    → issue h now token ≡ ok i
    → admitted h now r ≡ grant h r image i
unfolding admitted
admitted-ok h now r token image i read issues = rw (read, admitted) (ap (conclude h r image) issues)

module _ {L : Type 0} (new_limiter : L) (allow_n : ℕ → L → Bool × L) where
  serve_http-response :
      (h : Handler) (arrival now : ℕ) (r : HttpRequest) (limiter : Option (SourceLimiter L))
      {resp : Response}
      → (serve_http new_limiter allow_n h arrival now r limiter).0.response ≡ some resp
      → (text_eq r.method (codes "POST") ≡ true)
        × (text_eq r.path credentials_path ≡ true)
        × ((allow_or_nil new_limiter allow_n (source_ip h r) arrival limiter).0 ≡ true)
        × ((admitted h now r).response ≡ some resp)
  unfolding serve_http
  serve_http-response h arrival now r limiter e = ground (
    arith,
    refuse_early-response h method_not_allowed,
    refuse_early-response h unknown_path,
    refuse_early-response h rate_limited,
  )

  -- Credentials are written only for a POST to the credentials path that the limiter let pass, and
  -- only if everything `IsEntitled` asks stands behind them.
  pub serve_http-IsEntitled :
      (h : Handler) (arrival now : ℕ) (r : HttpRequest) (limiter : Option (SourceLimiter L))
      (resp : Response)
      → (serve_http new_limiter allow_n h arrival now r limiter).0.response ≡ some resp
      → (r.method ≡ codes "POST")
        × (r.path ≡ credentials_path)
        × ((allow_or_nil new_limiter allow_n (source_ip h r) arrival limiter).0 ≡ true)
        × IsEntitled h now r resp
  serve_http-IsEntitled h arrival now r limiter resp e =
      let (post, path, allowed, shown) =
        serve_http-response h arrival now r limiter {resp = resp} e in
      (
        (text_eq_iff r.method (codes "POST")).0 post,
        (text_eq_iff r.path credentials_path).0 path,
        allowed,
        admitted-IsEntitled h now r resp shown,
      )

  -- A request that passes the limiter, whose parts are well formed and behind whose token stands all
  -- that an issuance rests on, is granted that issuance.
  pub serve_http_grants :
      (h : Handler) (arrival now : ℕ) (r : HttpRequest) (limiter : Option (SourceLimiter L))
      (token image : Bytes) (i : Issuance)
      → r.method ≡ codes "POST"
      → r.path ≡ credentials_path
      → (allow_or_nil new_limiter allow_n (source_ip h r) arrival limiter).0 ≡ true
      → read_request h r ≡ ok (token, image)
      → IsIssuable h now token i
      → (serve_http new_limiter allow_n h arrival now r limiter).0 ≡ grant h r image i
  unfolding serve_http
  serve_http_grants h arrival now r limiter token image i post path allowed read p =
      let is_post = (text_eq_iff r.method (codes "POST")).1 post in
      let at_path = (text_eq_iff r.path credentials_path).1 path in
      let issues = IsIssuable-issue h now token i p in
      rw (is_post, at_path, allowed) (admitted-ok h now r token image i read issues)
