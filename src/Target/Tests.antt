-- ===== src/Target/Tests.antt =====
-- Runs of the factory, and the theorems at two clusters.
use rpaas_operator.Prelude.{String, ◌≡◌, refl, true, false, List, [], ◌∷◌, none}
use rpaas_operator.Prelude.Keyed.{find, store}
use rpaas_operator.Result.{ok, err}
use rpaas_operator.Errors.{plain}
use rpaas_operator.Target.{
  ClusterConfig, ClusterManager, is_key, Headers, select_from, validation_disabled, Surroundings,
  ca_data_of, bearer_token_of, kube_config_of, get_kube_config, new_manager, manager,
}
use rpaas_operator.Target.Cache.{
  IsManagerFor, key_of, new_factory, after, manager-IsManagerFor, manager_cached,
}

abbrev cluster : String → String → ClusterConfig
cluster name address = record {
  name = name;
  is_default = true;
  disable_validation = false;
  address = address;
  token = "secret";
  token_file = "";
  ca = "";
  auth_provider = none;
  exec_provider = none;
}

abbrev clusters : List ClusterConfig
clusters = cluster "east" "" ∷ cluster "west" "https://west" ∷ []

abbrev env : Surroundings
env = record {
  decode_string = λ s. ok [];
  read_file = λ f. err (plain "no such file");
  new_client = λ r. ok tt;
}

abbrev request : String → String → Headers
request name header = record {
  cluster_name = name;
  addresses = "https://given";
  disable_validation = header;
  pool_name = "pool";
}

abbrev made : String → String → ClusterManager
made name host = record {
  rest_config = record {
    host = host;
    bearer_token = "secret";
    auth_provider = none;
    exec_provider = none;
    ca_data = [];
  };
  cluster_name = name;
  pool_name = "pool";
  validates = true;
}

-- The named cluster has no address of its own; an unknown name is served by the last default cluster.
manager_east :
    (manager env (request "east" "") (new_factory clusters)).0 ≡ ok (made "east" "https://given")
unfolding manager find is_key new_manager get_kube_config select_from kube_config_of ca_data_of
    bearer_token_of validation_disabled new_factory
manager_east = refl

manager_north :
    (manager env
      (request "north" "")
      (after env clusters (request "east" "" ∷ []) (new_factory clusters))).0
    ≡ ok (made "north" "https://west")
unfolding manager find is_key new_manager get_kube_config select_from kube_config_of ca_data_of
    bearer_token_of validation_disabled new_factory store
manager_north = refl

manager-IsManagerFor_example :
    IsManagerFor clusters (key_of (request "north" "")) (made "north" "https://west")
manager-IsManagerFor_example =
    manager-IsManagerFor env clusters (request "east" "" ∷ []) (request "north" "")
      (made "north" "https://west") manager_north

-- A manager that is made without validation.
abbrev unchecked : ClusterManager
unchecked = record (made "east" "https://given") { validates = false }

east_unchecked : (manager env (request "east" "yes") (new_factory clusters)).0 ≡ ok unchecked
unfolding manager find is_key new_manager get_kube_config select_from kube_config_of ca_data_of
    bearer_token_of validation_disabled new_factory
east_unchecked = refl

manager_cached_example :
    (manager env
      (request "east" "")
      (manager env (request "east" "yes") (new_factory clusters)).1).0
    ≡ ok unchecked
manager_cached_example =
    manager_cached env (request "east" "yes") (new_factory clusters) unchecked "" east_unchecked
