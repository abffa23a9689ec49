-- ===== src/Tests/Node.antt =====
-- A pull on a node: the plugin asks twice, and kubelet caches what it got.
use harbor_workload_identity.Base.{
  ℕ, zero, suc, ◌+◌, ◌*◌, ◌≤◌, ◌≡◌, ◌⊎◌, refl, [], ◌∷◌, some, ok, err, arith,
}
use harbor_workload_identity.Base.Int.{pos}
use harbor_workload_identity.Text.{Bytes, codes}
use harbor_workload_identity.Instant.{second, hour}
use harbor_workload_identity.RobotSecret.{rotation_not_before}
use harbor_workload_identity.Dataplane.CacheTtl.{cache_duration, whole_seconds}
use harbor_workload_identity.Plugin.{
  ProviderRequest, ProviderResponse, BridgeResponse, World, Reply, bridge_refused,
  credential_provider_api_version, request_kind, cache_key_type_image, fetch, run, refused_response,
  kubelet_duration,
}
use harbor_workload_identity.Plugin.Served.{IsServed, HandsOn, run-HandsOn}
use harbor_workload_identity.Plugin.Cached.{kubelet_duration-rotation_reason}
use harbor_workload_identity.Tests.Samples.{clock, access, secret_of_pull, robot_of_pull}
use harbor_workload_identity.Tests.Passes.{promise_read, rotated_on_schedule}

-- The bridge is not ready at first.
abbrev answer_of : ℕ → Reply
answer_of zero = record { status = 503; body = some [] }
answer_of (suc n) = record { status = 200; body = some (codes "{}") }

abbrev decoded : BridgeResponse
decoded = record {
  username = codes "robot";
  password = codes "secret";
  expires_in_secs = some (pos 90000);
  cache_key_type = cache_key_type_image;
}

abbrev bridge : World
bridge = record { post = λ n image token. some (answer_of n); decode = λ body. some decoded }

abbrev request : ProviderRequest
request = record {
  api_version = credential_provider_api_version;
  kind = request_kind;
  image = codes "harbor/images/app";
  service_account_token = codes "t";
}

abbrev handed : ProviderResponse
handed = record {
  cache_key_type = cache_key_type_image;
  cache_duration = 24 * hour;
  auth = record { host = codes "harbor"; username = codes "robot"; password = codes "secret" } ∷ [];
}

run_retried : run bridge (some request) ≡ ok handed
unfolding run harbor_workload_identity.Plugin.check_request harbor_workload_identity.Text.text_eq
    fetch harbor_workload_identity.Plugin.do_post harbor_workload_identity.Plugin.read_reply
    harbor_workload_identity.Plugin.bounded harbor_workload_identity.Plugin.judge_reply
    harbor_workload_identity.Plugin.check_response harbor_workload_identity.Plugin.ok_response
    harbor_workload_identity.Plugin.image_host harbor_workload_identity.Text.cut
    harbor_workload_identity.Plugin.is_cache_key_type kubelet_duration
    harbor_workload_identity.Plugin.not_negative
run_retried = refl

run-HandsOn_example :
    ((fetch bridge (codes "harbor/images/app") (codes "t") ≡ err bridge_refused)
      × (handed ≡ refused_response))
    ⊎ ((out : BridgeResponse) × IsServed bridge (codes "harbor/images/app") (codes "t") out
        × HandsOn bridge (codes "harbor/images/app") out handed)
run-HandsOn_example = run-HandsOn bridge request handed run_retried

in_time :
    40 * hour + 5 * second ≤ 40 * hour + harbor_workload_identity.Contract.rotation_safety_margin
in_time = omega arith

kubelet_duration-rotation_reason_example :
    (kubelet_duration (
        pos (
          whole_seconds
            (cache_duration (pos hour) (rotation_not_before clock secret_of_pull) (40 * hour))))
      ≡ 0)
    ⊎ (40 * hour
          + 5 * second
          + kubelet_duration (
              pos (
                whole_seconds (
                  cache_duration
                    (pos hour)
                    (rotation_not_before clock secret_of_pull)
                    (40 * hour))))
        ≤ 51 * hour)
kubelet_duration-rotation_reason_example =
    kubelet_duration-rotation_reason clock access secret_of_pull robot_of_pull (pos hour)
      (50 * hour) (40 * hour) (40 * hour + 5 * second) (51 * hour) promise_read rotated_on_schedule
      in_time
