-- ===== src/Tests/Endpoint.antt =====
-- A request with a valid token, answered with the robot's credentials.
use harbor_workload_identity.Base.{
  ℕ, ◌+◌, ◌*◌, Bool, true, false, ◌≡◌, ◌⊎◌, ◌↔◌, refl, sym, ap, ◌∙◌, inl, inr, [], ◌∷◌, none, some,
  ok, In, arith,
}
use harbor_workload_identity.Text.{Bytes, codes, text_eq}
use harbor_workload_identity.Instant.{minute, hour}
use harbor_workload_identity.HarborAccess.{HarborAccess}
use harbor_workload_identity.RobotSecret.{Secret}
use harbor_workload_identity.Dataplane.CacheTtl.{cache_duration, effective_ttl}
use harbor_workload_identity.Dataplane.Matching.{Claims, Match, name_less, find_harbor_access}
use harbor_workload_identity.Dataplane.Matching.Selection.{
  Live, SameObjects, KeysDetermine, find_harbor_access-matched, find_harbor_access-none_iff,
  find_harbor_access_order,
}
use harbor_workload_identity.Dataplane.Limiter.{
  SourceBucket, SourceLimiter, allow, allow_or_nil, find_bucket,
}
use harbor_workload_identity.Dataplane.Limiter.Isolation.{allow_other}
use harbor_workload_identity.Dataplane.Limiter.Memory.{allow_all, IsRecent, allow_all-IsRecent}
use harbor_workload_identity.Dataplane.Credentials.{ApiError, not_found}
use harbor_workload_identity.Dataplane.Handler.{
  credentials_path, HttpRequest, Handler, Response, Issuance, Outcome, read_request, source_ip,
}
use harbor_workload_identity.Dataplane.Serve.{serve_http, grant}
use harbor_workload_identity.Dataplane.Serve.Issuable.{IsIssuable}
use harbor_workload_identity.Dataplane.Serve.Issued.{
  IsEntitled, serve_http-IsEntitled, serve_http_grants,
}
use harbor_workload_identity.Dataplane.Serve.Answered.{IsFirst, serve_http_issues}
use harbor_workload_identity.Dataplane.Serve.Trail.{
  IsAudited, IsJudged, Quiet, serve_http-IsAudited,
}
use harbor_workload_identity.Tests.Samples.{
  digest, clock, issuer, audience, access, wire_name, secret_of_pull,
}

abbrev claims_of_builder : Claims
claims_of_builder = record {
  issuer = issuer;
  subject = codes "system:serviceaccount:team:builder";
  audience = codes "other" ∷ audience ∷ [];
  pod = codes "p";
  pod_uid = codes "1";
  node = codes "n";
}

-- Its collaborators answer as they do for the samples.
abbrev handler : Handler
handler = record {
  bridge_namespace = codes "bridge";
  force_local_validation = true;
  audience = audience;
  robot_username_of = some (λ ns sa. ok wire_name);
  instrumented = true;
  validate = λ token. ok claims_of_builder;
  list_by_subject = λ subject. ok (access ∷ []);
  get_secret = λ ns name. ok secret_of_pull;
  decode_image = λ body. some (codes "images/app");
  split_host = λ addr. some (codes "10.0.0.1");
  to_lower = λ s. s;
  hash_of = digest;
  clock = clock;
}

abbrev request : HttpRequest
request = record {
  method = codes "POST";
  path = credentials_path;
  remote_addr = codes "10.0.0.1:4711";
  client_cert = none;
  authorization = codes "Bearer t0ken";
  body = some (codes "{}");
}

-- A bucket that counts what it lets pass.
abbrev allow_n : ℕ → ℕ → Bool × ℕ
allow_n now n = (true, n + 1)

abbrev expected : Response
expected = record { username = wire_name; password = codes "hunter2"; expires_in_secs = 3600 }

serve_http-IsAudited_example :
    Quiet 0 allow_n handler (40 * hour) (40 * hour) request none
    ⊎ (IsJudged 0 allow_n handler (40 * hour) (40 * hour) request none
        × IsAudited (serve_http 0 allow_n handler (40 * hour) (40 * hour) request none).0)
serve_http-IsAudited_example =
    serve_http-IsAudited 0 allow_n handler (40 * hour) (40 * hour) request none

is_post : text_eq (codes "POST") (codes "POST") ≡ true
unfolding text_eq
is_post = refl

at_path : text_eq credentials_path credentials_path ≡ true
unfolding text_eq
at_path = refl

abbrev issuance : Issuance
issuance = record {
  claims = claims_of_builder;
  matched = access;
  aud_matched = audience;
  creds = record {
    username = wire_name;
    password = codes "hunter2";
    rotation_not_before = some (50 * hour);
  };
  ttl = hour;
}

issuable : IsIssuable handler (40 * hour) (codes "t0ken") issuance
unfolding find_harbor_access harbor_workload_identity.Dataplane.Matching.collect
    harbor_workload_identity.Dataplane.Matching.kept_match
    harbor_workload_identity.Dataplane.Matching.matching_audience
    harbor_workload_identity.Dataplane.Matching.harbor_access_subject
    harbor_workload_identity.Dataplane.Matching.find_audience
    harbor_workload_identity.Dataplane.Matching.by_name
    harbor_workload_identity.Dataplane.Matching.insert_by_name
    harbor_workload_identity.HarborAccess.token_ttl_ok
    harbor_workload_identity.Dataplane.Credentials.read_robot_secret
    harbor_workload_identity.Dataplane.Credentials.robot_creds
    harbor_workload_identity.RobotSecret.is_managed harbor_workload_identity.Dict.get
    harbor_workload_identity.RobotSecret.stamped_for_other
    harbor_workload_identity.RobotSecret.credentials
    harbor_workload_identity.RobotSecret.rotation_not_before
    harbor_workload_identity.Dataplane.Credentials.robot_username text_eq cache_duration
    effective_ttl
issuable = record {
  items = access ∷ [];
  validated = refl;
  listed = refl;
  selected = refl;
  ttl_ok = refl;
  read = refl;
  named = refl;
  cached = refl;
}

request_read : read_request handler request ≡ ok (codes "t0ken", codes "images/app")
unfolding read_request harbor_workload_identity.Text.cut_prefix
request_read = refl

passes : (allow_or_nil 0 allow_n (source_ip handler request) (40 * hour) none).0 ≡ true
unfolding allow_or_nil
passes = refl

is_granted :
    (serve_http 0 allow_n handler (40 * hour) (40 * hour) request none).0
    ≡ grant handler request (codes "images/app") issuance
is_granted =
    serve_http_grants 0 allow_n handler (40 * hour) (40 * hour) request none (codes "t0ken")
      (codes "images/app") issuance refl refl passes request_read issuable

granted : (grant handler request (codes "images/app") issuance).response ≡ some expected
unfolding grant
granted = refl

served :
    (serve_http 0 allow_n handler (40 * hour) (40 * hour) request none).0.response ≡ some expected
served = ap (λ (o : Outcome). o.response) is_granted ∙ granted

-- What stands behind the answer, written out.
unfoldable entitled : IsEntitled handler (40 * hour) request expected
unfolding harbor_workload_identity.Text.cut_prefix
    harbor_workload_identity.Dataplane.Matching.harbor_access_subject
    harbor_workload_identity.HarborAccess.token_ttl_ok harbor_workload_identity.Dict.get text_eq
    harbor_workload_identity.RobotSecret.credentials
    harbor_workload_identity.Dataplane.Credentials.robot_username cache_duration
    harbor_workload_identity.RobotSecret.rotation_not_before
entitled = record {
  token = codes "t0ken";
  claims = claims_of_builder;
  items = access ∷ [];
  ha = access;
  secret = secret_of_pull;
  local_validation = refl;
  bearer = refl;
  validated = refl;
  listed = refl;
  found = inl refl;
  live = (
    record {
      audience_ne_nil = λ e. absurd cc;
      issuer_ne_nil = λ e. absurd cc;
      audience_served = refl;
      subject_matches = refl;
      issuer_matches = refl;
      audience_in_token = inr (inl refl);
    },
    refl,
  );
  ttl_ok = refl;
  stored = refl;
  owned = (refl, refl, refl);
  held = refl;
  named = refl;
  cached = refl;
}

only_access : KeysDetermine (access ∷ [])
only_access a b (inl e) (inl f) in_ns named = e ∙ sym f
only_access a b (inl e) (inr j) in_ns named = absurd j
only_access a b (inr i) j in_ns named = absurd i

leads : IsFirst entitled
unfolding entitled name_less text_eq harbor_workload_identity.Text.text_lt
leads other (inl e) live = rw e refl
leads other (inr i) live = absurd i

serve_http_issues_example :
    ((serve_http 0 allow_n handler (40 * hour) (40 * hour) request none).0.status ≡ 200)
    × ((serve_http 0 allow_n handler (40 * hour) (40 * hour) request none).0.response
        ≡ some expected)
unfolding entitled
serve_http_issues_example =
    serve_http_issues 0 allow_n handler (40 * hour) (40 * hour) request none expected entitled refl
      refl passes refl (inr (codes "{}", codes "images/app", refl, refl)) only_access leads

serve_http-IsEntitled_example :
    (request.method ≡ codes "POST")
    × (request.path ≡ credentials_path)
    × ((allow_or_nil 0 allow_n (source_ip handler request) (40 * hour) none).0 ≡ true)
    × IsEntitled handler (40 * hour) request expected
serve_http-IsEntitled_example =
    serve_http-IsEntitled 0 allow_n handler (40 * hour) (40 * hour) request none expected served

abbrev match_of_pull : Match
match_of_pull = record { ha = access; aud = audience }

selected :
    (find_harbor_access audience claims_of_builder (access ∷ [])).matched ≡ some match_of_pull
unfolding find_harbor_access harbor_workload_identity.Dataplane.Matching.collect
    harbor_workload_identity.Dataplane.Matching.kept_match
    harbor_workload_identity.Dataplane.Matching.matching_audience text_eq
    harbor_workload_identity.Dataplane.Matching.harbor_access_subject
    harbor_workload_identity.Dataplane.Matching.find_audience
    harbor_workload_identity.Dataplane.Matching.by_name
    harbor_workload_identity.Dataplane.Matching.insert_by_name
selected = refl

find_harbor_access-matched_example :
    In access (access ∷ [])
    × Live audience claims_of_builder access
    × (audience ≡ audience)
    × ((ha : HarborAccess)
        → In ha (access ∷ [])
        → Live audience claims_of_builder ha
        → name_less (record { ha = ha; aud = ha.spec.trust_policy.audience }) match_of_pull ≡ false)
find_harbor_access-matched_example =
    find_harbor_access-matched audience claims_of_builder (access ∷ []) {m = match_of_pull} selected

find_harbor_access-none_iff_example :
    ((find_harbor_access audience claims_of_builder []).matched ≡ none)
    ↔ ((ha : HarborAccess) → In ha [] → ¬ Live audience claims_of_builder ha)
find_harbor_access-none_iff_example = find_harbor_access-none_iff audience claims_of_builder []

twice : SameObjects (access ∷ []) (access ∷ access ∷ [])
twice ha = (λ i. inr i, λ i. elim i [ inl e ↦ inl e | inr j ↦ j ])

one_key : KeysDetermine (access ∷ [])
one_key a b (inl e) (inl f) ns name = cc
one_key a b (inr i) (inl f) ns name = absurd i
one_key a b (inl e) (inr j) ns name = absurd j
one_key a b (inr i) (inr j) ns name = absurd i

find_harbor_access_order_example :
    (find_harbor_access audience claims_of_builder (access ∷ [])).matched
    ≡ (find_harbor_access audience claims_of_builder (access ∷ access ∷ [])).matched
find_harbor_access_order_example =
    find_harbor_access_order audience claims_of_builder (access ∷ []) (access ∷ access ∷ []) twice
      one_key

abbrev first_source : Bytes
first_source = codes "10.0.0.1"

abbrev other_source : Bytes
other_source = codes "10.0.0.2"

abbrev bucket : SourceBucket ℕ
bucket = record { source = other_source; limiter = 4; seen = 10 * minute }

abbrev limiter : SourceLimiter ℕ
limiter = record { sources = bucket ∷ []; last_prune = 0 }

there : find_bucket other_source (bucket ∷ []) ≡ some bucket
unfolding find_bucket text_eq
there = refl

allow_other_example :
    find_bucket other_source (allow 0 allow_n first_source (15 * minute) limiter).1.sources
    ≡ some bucket
allow_other_example =
    allow_other 0 allow_n first_source other_source (15 * minute) limiter bucket (λ e. ground arith)
      there (omega arith)

allow_all-IsRecent_example : IsRecent (15 * minute) (
    allow_all 0 allow_n
      ((first_source, minute) ∷ (other_source, 15 * minute) ∷ [])
      (record { sources = []; last_prune = 0 }))
allow_all-IsRecent_example =
    allow_all-IsRecent 0 allow_n ((first_source, minute) ∷ (other_source, 15 * minute) ∷ [])
      (omega arith, (omega arith, tt))
