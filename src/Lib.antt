-- ===== src/Lib.antt =====
-- Harbor Workload Identity Bridge.
--
-- The bridge gives a Kubernetes workload the password of a Harbor robot account in exchange for its
-- ServiceAccount token. Its control plane (bridge/controlplane) keeps one robot and one Secret per
-- HarborAccess object; its data plane (bridge/dataplane) validates a token, finds the object that
-- serves it and hands out the Secret's credentials; both agree on the Secret's format
-- (bridge/internal/robotsecret) and on an instant before which a password is not rotated.
--
-- The modules:
--   Base, Text, Decimal, Dict, Instant: native numbers, Go strings as bytes, strconv's decimals,
--     string maps, instants and durations in nanoseconds.
--   Naming (bridge/controlplane/harbor/naming.go): robot names (RobotName is robot_name), ownership by
--     name, Harbor's rule for names.
--   RobotSecret (bridge/internal/robotsecret/robotsecret.go): names, labels, annotations and keys of
--     the Secret; every function keeps its name in lower case.
--   HarborAccess (bridge/api/v1alpha1 and the methods of Config): the objects and the configuration.
--   Contract (bridge/controlplane/contract.go): the description on a robot and who owns a robot.
--   Dataplane (bridge/dataplane): CacheTtl is cacheDuration, Matching is findHarborAccess, Limiter is
--     ratelimit.go, Oidc is classifyOIDCError, Credentials is readRobotSecret, Audit is what is logged
--     and counted. Handler is ServeHTTP as a chain in which every early return is a refusal, Serve what
--     each return writes; serve_http composes them as the source does.
--     Validation is Validate and VerifySignature, KeySet the refresh of the signing keys as a step
--     relation: the steps are lookups, refreshes and the ends of fetches, in the order of the mutex.
--   Controlplane.Settings (bridge/controlplane/config.go): load_from_env is LoadFromEnv; os.Getenv is a
--     function. SettingChecks holds the checks of one setting, require_url being requireURL.
--   Plugin (plugin/main.go, plugin/bridge_client.go): what kubelet runs on a node; run is run, fetch the
--     request to the bridge with its retry, load_config is loadConfig.
--   Controlplane (bridge/controlplane): Rotation is the decision to rotate and to come back; Effect is
--     a type of programs over the calls to Harbor and the API server; Secrets, Deletion, Suspension,
--     Provision (ensureFinalizer, ensureRobot), Storage (putRobotSecret, writeRobotSecret), Convergence
--     (Reconcile, reconcileNormal), with Outcomes (markReady and what a pass reports), Janitor
--     and Release (releaseUnselected) are such programs. Safe says that every call of a run is allowed
--     by the history before it, whatever is answered.
--   HarborClient (bridge/controlplane/harbor/client.go): Permissions is normalizePermissions and
--     PermissionsMatch, Robots is toHarborPermissions and fromHarborRobot, Listing is list and
--     GetByName over the pages that Harbor answers, Operations is Create, Delete, RefreshSecret and
--     Update with the requests they send.
--   Sorting: sort.Strings and sort.Slice as insertion.
--   Tests: the theorems at concrete inputs.
--
-- Go's time.Time is a natural number of nanoseconds since its zero time and time.Duration an
-- integer of them, a difference of instants being cut to its range; an error is a value. Loops are
-- structural recursions over lists; the pages of a listing are counted down from a thousand, as the
-- source does, and the retries of a Secret's writing from the number that the backoff allows. Only
-- the digits of a decimal are written on fuel, the number plus one, which is more than it has
-- digits.
--
-- Parameters stand for code outside the repository: SHA-256 (only the digest's length is assumed), RFC
-- 3339 (a whole second before the year 10000 is read back as written), FNV-1a, the token bucket of
-- golang.org/x/time/rate, net.SplitHostPort, strings.ToLower, url.Parse, strconv.ParseBool,
-- time.ParseDuration, the JSON decoder, the checks of go-oidc and go-jose, the HTTP transport under the
-- plugin, label selectors, the helpers of controller-runtime and apimachinery, and the answers of the
-- API server and of Harbor.
--
-- Not modelled: the messages of conditions, errors and logs, the order of the janitor's
-- sweeps, the transports and TLS settings, the wiring of the OIDC validator and the wait for its
-- fetches, the reading of the admin credentials, the installer, and the wiring in the commands.
pub mod Base
pub mod Text
pub mod Decimal
pub mod Dict
pub mod Instant
pub mod Sorting
pub mod HarborClient
pub mod Naming
pub mod RobotSecret
pub mod HarborAccess
pub mod Contract
pub mod Dataplane
pub mod Controlplane
pub mod Plugin
pub mod Tests
