-- ===== src/Grpc/Constants.antt =====
-- The provider object of internal/grpcserver/server.go, and its calls that answer with constants.
use homelab_autoscaler.Prelude.{String, []}
use homelab_autoscaler.Action.{Act, pure, raise, status, unimplemented}
use homelab_autoscaler.Api.Maps.{StringMap, set}

-- The fields but for the API client, which the calls take as a parameter, and the scheme. A GPU type
-- is its name with an empty message.
pub record HomeClusterProviderServer : Type 0 where
  pub gpu_types : StringMap

abbrev pub initialize_mock_data : HomeClusterProviderServer → HomeClusterProviderServer
initialize_mock_data s = record {
  gpu_types = set (set s.gpu_types "nvidia-tesla-v100" "") "nvidia-tesla-t4" "";
}

abbrev pub new_home_cluster_provider_server : HomeClusterProviderServer
new_home_cluster_provider_server = initialize_mock_data (record { gpu_types = [] })

module _ {W : Type 0} where
  abbrev pub pricing_pod_price : Act W String
  pricing_pod_price = raise (status unimplemented)

  abbrev pub gpu_label : Act W String
  gpu_label = pure "accelerator"

  abbrev pub get_available_gpu_types : HomeClusterProviderServer → Act W StringMap
  get_available_gpu_types s = pure s.gpu_types

  abbrev pub cleanup : Act W (Unit {0})
  cleanup = pure tt

  abbrev pub refresh : Act W (Unit {0})
  refresh = pure tt
