-- ===== src/Dataplane/Serve/Answered.antt =====
-- Which requests `ServeHTTP` (bridge/dataplane/handler.go) answers with credentials.
use harbor_workload_identity.Base.{
  ℕ, Bool, true, false, ◌≡◌, ◌⊎◌, refl, sym, ap, ◌∙◌, [], Option, none, some, ok, In, inl, inr,
  take, arith,
}
use harbor_workload_identity.Text.{Bytes, codes, is_empty, cut_prefix}
use harbor_workload_identity.HarborAccess.{HarborAccess}
use harbor_workload_identity.RobotSecret.{Secret, credentials, rotation_not_before, secret_name}
use harbor_workload_identity.RobotSecret.Owners.{NamesOwner, stamped_for_other_iff}
use harbor_workload_identity.Dataplane.CacheTtl.{cache_duration}
use harbor_workload_identity.Dataplane.Matching.{name_less}
use harbor_workload_identity.Dataplane.Matching.Selection.{
  Live, KeysDetermine, match_of, find_harbor_access-first,
}
use harbor_workload_identity.Dataplane.Limiter.{SourceLimiter, allow_or_nil}
use harbor_workload_identity.Dataplane.Credentials.{RobotCreds, robot_creds, read_robot_secret}
use harbor_workload_identity.Dataplane.Handler.{
  credentials_path, max_request_body_bytes, HttpRequest, Handler, Response, Outcome, Issuance,
  read_request, bearer_token, requested_image, source_ip,
}
use harbor_workload_identity.Dataplane.Serve.{serve_http, grant}
use harbor_workload_identity.Dataplane.Serve.Issuable.{IsIssuable}
use harbor_workload_identity.Dataplane.Serve.Issued.{IsEntitled, serve_http_grants}

-- The request has no body, or the bounded part of it is decoded.
abbrev pub IsReadable : Handler → HttpRequest → Type 0
IsReadable h r =
    (r.body ≡ none)
    ⊎ ((body : Bytes) × (image : Bytes) × (r.body ≡ some body)
        × (h.decode_image (take max_request_body_bytes body) ≡ some image))

IsReadable-image :
    (h : Handler) (r : HttpRequest)
    → IsReadable h r
    → (image : Bytes) × (requested_image h r ≡ ok image)
unfolding requested_image
IsReadable-image h r (inl e) = ([], rw (e, requested_image) refl)
IsReadable-image h r (inr (body, image, e, d)) =
    (image, rw (e, requested_image) (rw (d, requested_image) refl))

read_request-of :
    (h : Handler) (r : HttpRequest) (token image : Bytes)
    → h.force_local_validation ≡ true
    → cut_prefix (codes "Bearer ") r.authorization ≡ some token
    → is_empty token ≡ false
    → requested_image h r ≡ ok image
    → read_request h r ≡ ok (token, image)
unfolding read_request bearer_token
read_request-of h r token image local bearer given asked = ground arith

robot_creds-of :
    (h : Handler) (ha : HarborAccess) (s : Secret) (username password : Bytes)
    → NamesOwner s ha.namespace ha.name
    → credentials s ≡ some (username, password)
    → robot_creds h.clock ha s
      ≡ ok (record {
        username = username;
        password = password;
        rotation_not_before = rotation_not_before h.clock s;
      })
unfolding robot_creds
robot_creds-of h ha s username password owned held =
    let (managed, own) = (stamped_for_other_iff s ha.namespace ha.name).1 owned in
    rw (managed, robot_creds) (rw own (rw (held, robot_creds) refl))

read_robot_secret-of :
    (h : Handler) (ha : HarborAccess) (s : Secret) (creds : RobotCreds)
    → h.get_secret h.bridge_namespace (secret_name h.hash_of ha.namespace ha.name) ≡ ok s
    → robot_creds h.clock ha s ≡ ok creds
    → read_robot_secret h.clock h.hash_of h.get_secret h.bridge_namespace ha ≡ ok creds
unfolding read_robot_secret
read_robot_secret-of h ha s creds got e = rw (got, read_robot_secret) e

-- The entitled object comes first by namespace and name among those that could be served.
abbrev pub IsFirst :
    {h : Handler}
    → {now : ℕ} → {r : HttpRequest} → {resp : Response} → IsEntitled h now r resp
    → Type 0
IsFirst {h} p =
    (other : HarborAccess)
    → In other p.items
    → Live h.audience p.claims other
    → name_less (match_of other) (match_of p.ha) ≡ false

-- The issuance behind a response.
abbrev issuance_of :
    {h : Handler}
    → {now : ℕ} → {r : HttpRequest} → {resp : Response} → IsEntitled h now r resp
    → Issuance
issuance_of {h} {now} {r} {resp} p = record {
  claims = p.claims;
  matched = p.ha;
  aud_matched = p.ha.spec.trust_policy.audience;
  creds = record {
    username = resp.username;
    password = resp.password;
    rotation_not_before = rotation_not_before h.clock p.secret;
  };
  ttl = cache_duration p.ha.spec.token_ttl.duration (rotation_not_before h.clock p.secret) now;
}

IsEntitled-IsIssuable :
    (h : Handler) (now : ℕ) (r : HttpRequest) (resp : Response) (p : IsEntitled h now r resp)
    → KeysDetermine p.items
    → IsFirst p
    → IsIssuable h now p.token (issuance_of p)
IsEntitled-IsIssuable h now r resp p keys leads = record {
  items = p.items;
  validated = p.validated;
  listed = p.listed;
  selected = find_harbor_access-first h.audience p.claims p.items p.ha p.found p.live keys leads;
  ttl_ok = p.ttl_ok;
  read =
      read_robot_secret-of h p.ha p.secret _ p.stored
        (robot_creds-of h p.ha p.secret resp.username resp.password p.owned p.held);
  named = p.named;
  cached = refl;
}

module _ {L : Type 0} (new_limiter : L) (allow_n : ℕ → L → Bool × L) where
  -- A POST to the credentials path that the limiter lets pass, with a token that is not empty and a body
  -- that is read, is answered with status 200 and with a response to which it is entitled, the object
  -- behind it coming first by namespace and name among the live ones, and the listed objects being
  -- determined by namespace and name.
  pub serve_http_issues :
      (h : Handler) (arrival now : ℕ) (r : HttpRequest) (limiter : Option (SourceLimiter L))
      (resp : Response) (p : IsEntitled h now r resp)
      → r.method ≡ codes "POST"
      → r.path ≡ credentials_path
      → (allow_or_nil new_limiter allow_n (source_ip h r) arrival limiter).0 ≡ true
      → is_empty p.token ≡ false
      → IsReadable h r
      → KeysDetermine p.items
      → IsFirst p
      → ((serve_http new_limiter allow_n h arrival now r limiter).0.status ≡ 200)
        × ((serve_http new_limiter allow_n h arrival now r limiter).0.response ≡ some resp)
  unfolding grant
  serve_http_issues h arrival now r limiter resp p post path allowed given readable keys leads =
      let (image, asked) = IsReadable-image h r readable in
      let granted =
        serve_http_grants new_limiter allow_n h arrival now r limiter p.token image (issuance_of p)
          post path allowed
          (read_request-of h r p.token image p.local_validation p.bearer given asked)
          (IsEntitled-IsIssuable h now r resp p keys leads) in
      (
        ap (λ (o : Outcome). o.status) granted,
        ap (λ (o : Outcome). o.response) granted ∙ ap some (same_response p.cached),
      )
    where
      same_response :
          {n : ℕ}
          → resp.expires_in_secs ≡ n
          → ◌≡◌ {A = Response}
              (record { username = resp.username; password = resp.password; expires_in_secs = n })
              resp
      same_response e = λ t. record {
        username = resp.username;
        password = resp.password;
        expires_in_secs = sym e t;
      }
