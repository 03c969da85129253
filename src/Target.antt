-- ===== src/Target.antt =====
-- pkg/web/target/multi-cluster.go: which cluster a request of the web API is for, and the cache of the
-- managers of the clusters (multiClusterFactory). One request is served after the other.
pub mod Laws
pub mod Cache
mod Tests
use rpaas_operator.Prelude.{
  String, ◌==◌, ◌≡◌, ◌↔◌, Bool, true, false, not, ◌&&◌, List, [], ◌∷◌, Option, none, some, is_some,
  arith, eq_iff, if◌then◌else◌,
}
use rpaas_operator.Prelude.Keyed.{Keyed, find, store}
use rpaas_operator.Errors.{Error, validation, plain}
use rpaas_operator.Result.{Result, ok, err, and_then}
use rpaas_operator.ByteMaps.{Bytes}
use rpaas_operator.Labels.{by_label}

-- internal/config/config.go; the authentication and exec providers, which are only handed on, are texts.
pub record ClusterConfig : Type 0 where
  pub name : String
  pub is_default : Bool
  pub disable_validation : Bool
  pub address : String
  pub token : String
  pub token_file : String
  pub ca : String
  pub auth_provider : Option String
  pub exec_provider : Option String

-- rest.Config
pub record RestConfig : Type 0 where
  pub host : String
  pub bearer_token : String
  pub auth_provider : Option String
  pub exec_provider : Option String
  pub ca_data : Bytes

-- The manager that NewK8S makes, and whether it is wrapped by the validation manager.
pub record ClusterManager : Type 0 where
  pub rest_config : RestConfig
  pub cluster_name : String
  pub pool_name : String
  pub validates : Bool

pub record ManagersCacheKey : Type 0 where
  pub cluster_name : String
  pub pool_name : String
  pub cluster_address : String

unfoldable pub is_key : ManagersCacheKey → ManagersCacheKey × ClusterManager → Bool
is_key k entry =
    entry.0.cluster_name == k.cluster_name
    && (entry.0.pool_name == k.pool_name && entry.0.cluster_address == k.cluster_address)

key-eq :
    {k l : ManagersCacheKey}
    → k.cluster_name ≡ l.cluster_name
    → k.pool_name ≡ l.pool_name
    → k.cluster_address ≡ l.cluster_address
    → k ≡ l
key-eq p q r = cc

pub is_key_iff :
    (k : ManagersCacheKey) (entry : ManagersCacheKey × ClusterManager)
    → (is_key k entry ≡ true) ↔ (entry.0 ≡ k)
unfolding is_key
is_key_iff k entry = (
  λ h.
      key-eq ((eq_iff entry.0.cluster_name k.cluster_name).0 (ground (arith, h)))
        ((eq_iff entry.0.pool_name k.pool_name).0 (ground (arith, h)))
        ((eq_iff entry.0.cluster_address k.cluster_address).0 (ground (arith, h))),
  λ e. rw e (
      ground (
        arith,
        eq_iff k.cluster_name k.cluster_name,
        eq_iff k.pool_name k.pool_name,
        eq_iff k.cluster_address k.cluster_address,
      )),
)

abbrev pub by_key : Keyed ManagersCacheKey (ManagersCacheKey × ClusterManager)
by_key = record { key = λ entry. entry.0; test = is_key; test_iff = is_key_iff }

pub record MultiClusterFactory : Type 0 where
  pub tokens : List (String × String)
  pub clusters : List ClusterConfig
  pub managers : List (ManagersCacheKey × ClusterManager)

-- The headers that are read, with Go's empty string for one that is missing.
pub record Headers : Type 0 where
  pub cluster_name : String
  pub addresses : String
  pub disable_validation : String
  pub pool_name : String

-- The loop of getKubeConfig, from the cluster that is selected so far: the last default one, until the
-- named one is met.
unfoldable pub select_from :
    Option ClusterConfig → String → List ClusterConfig → Option ClusterConfig
select_from selected name [] = selected
select_from selected name (c ∷ cs) =
    let rest = select_from (if c.is_default then some c else selected) name cs in
    if c.name == name then some c else rest

-- `validationDisabled`
unfoldable pub validation_disabled : String → List ClusterConfig → Bool
validation_disabled name [] = false
validation_disabled name (c ∷ cs) =
    let rest = validation_disabled name cs in if c.name == name then c.disable_validation else rest

-- What the factory uses of its surroundings: the decoder of base64, the files, and the client of
-- controller-runtime, which may be refused for a configuration.
pub record Surroundings : Type 0 where
  pub decode_string : String → Result Bytes
  pub read_file : String → Result String
  pub new_client : RestConfig → Result (Unit {0})

module _ (env : Surroundings) where
  unfoldable pub read_token_file :
      String → MultiClusterFactory → Result String × MultiClusterFactory
  unfolding find store
  read_token_file token_file m = elim (find by_label token_file m.tokens) [
    | some entry ↦ (ok entry.1, m)
    | none ↦ elim (env.read_file token_file) [
      | err e ↦ (err e, m)
      | ok token ↦ (ok token, record m { tokens = store by_label (token_file, token) m.tokens })
    ]
  ]

  -- The decoded certificate, if there is one.
  unfoldable pub ca_data_of : ClusterConfig → Result Bytes
  ca_data_of c = if c.ca == "" then ok [] else env.decode_string c.ca

  -- The token that is written in the configuration, or that of its file.
  unfoldable pub bearer_token_of :
      ClusterConfig → MultiClusterFactory → Result String × MultiClusterFactory
  unfolding read_token_file
  bearer_token_of c m =
      if c.token_file == "" then (ok c.token, m) else read_token_file c.token_file m

  -- What follows the selection of the cluster.
  unfoldable pub kube_config_of :
      ClusterConfig → String → MultiClusterFactory → Result RestConfig × MultiClusterFactory
  unfolding ca_data_of bearer_token_of
  kube_config_of c address m =
      if c.name == ""
      then (err (plain "cluster not found"), m)
      else and_then (ca_data_of c, m)
          λ ca m₁. and_then (bearer_token_of c m₁) λ token m₂. (
            ok (record {
              host = if c.address == "" then address else c.address;
              bearer_token = token;
              auth_provider = c.auth_provider;
              exec_provider = c.exec_provider;
              ca_data = ca;
            }),
            m₂,
          )

  unfoldable pub get_kube_config :
      String → String → MultiClusterFactory → Result RestConfig × MultiClusterFactory
  unfolding select_from kube_config_of
  get_kube_config name address m = elim (select_from none name m.clusters) [
    | none ↦ (err (plain "cluster not found"), m)
    | some c ↦ kube_config_of c address m
  ]

  -- The manager for a key that is not in the cache.
  unfoldable pub new_manager :
      Headers → MultiClusterFactory → Result ClusterManager × MultiClusterFactory
  unfolding get_kube_config validation_disabled store
  new_manager h m = and_then (get_kube_config h.cluster_name h.addresses m) λ rest m₁.
      and_then (env.new_client rest, m₁)
        λ _ m₂.
          let manager : ClusterManager = record {
            rest_config = rest;
            cluster_name = h.cluster_name;
            pool_name = h.pool_name;
            validates =
                h.disable_validation == "" && not (validation_disabled h.cluster_name m.clusters);
          } in
          let key : ManagersCacheKey = record {
            cluster_name = h.cluster_name;
            pool_name = h.pool_name;
            cluster_address = h.addresses;
          } in
          (ok manager, record m₂ { managers = store by_key (key, manager) m₂.managers })

  unfoldable pub manager :
      Headers → MultiClusterFactory → Result ClusterManager × MultiClusterFactory
  unfolding find new_manager
  manager h m =
      let key : ManagersCacheKey = record {
        cluster_name = h.cluster_name;
        pool_name = h.pool_name;
        cluster_address = h.addresses;
      } in
      if h.addresses == ""
      then (err (validation "No cluster address provided"), m)
      else elim (find by_key key m.managers) [
        | some entry ↦ (ok entry.1, m)
        | none ↦ new_manager h m
      ]
