-- ===== src/Target/Laws.antt =====
-- What the cache of the managers hands out.
use rpaas_operator.Prelude.{
  String, ◌==◌, ◌≡◌, ◌⊎◌, inl, inr, refl, sym, ap, List, [], ◌∷◌, Option, none, some, arith, eq_iff,
  Bool-cases, Option-cases, if◌then◌else◌,
}
use rpaas_operator.Prelude.Keyed.{Keyed, find}
use rpaas_operator.Result.{Result, ok, and_then_elim, Result-cases}
use rpaas_operator.Labels.{by_label}
use rpaas_operator.Target.{
  ClusterConfig, RestConfig, MultiClusterFactory, select_from, Surroundings, read_token_file,
  ca_data_of, bearer_token_of, kube_config_of, get_kube_config,
}

-- A cluster of the settings, by its name.
abbrev pub by_cluster : Keyed String ClusterConfig
by_cluster = record {
  key = λ c. c.name;
  test = λ k c. c.name == k;
  test_iff = λ k c. eq_iff c.name k;
}

abbrev pub last_default : List ClusterConfig → Option ClusterConfig
last_default [] = none
last_default (c ∷ cs) = elim (last_default cs) [
  | some d ↦ some d
  | none ↦ if c.is_default then some c else none
]

-- The named cluster, or the last default one if none has the name.
select_from-find :
    (selected : Option ClusterConfig) (name : String) (cs : List ClusterConfig)
    → select_from selected name cs ≡ elim (find by_cluster name cs) [
      | some c ↦ some c
      | none ↦ elim (last_default cs) [ some d ↦ some d | none ↦ selected ]
    ]
unfolding select_from find
select_from-find selected name [] = refl
select_from-find selected name (c ∷ cs) =
    ground (arith, select_from-find (if c.is_default then some c else selected) name cs)

abbrev pub IsSelected : List ClusterConfig → String → ClusterConfig → Type 0
IsSelected cs name c =
    (find by_cluster name cs ≡ some c)
    ⊎ ((find by_cluster name cs ≡ none) × (last_default cs ≡ some c))

select_from-IsSelected :
    (name : String) (cs : List ClusterConfig) (c : ClusterConfig)
    → select_from none name cs ≡ some c
    → IsSelected cs name c
select_from-IsSelected name cs c h = elim (Option-cases (find by_cluster name cs)) [
  | inr (d, e) ↦ inl (ground (arith, h, e, select_from-find none name cs))
  | inl n ↦ elim (Option-cases (last_default cs)) [
    | inr (d, e) ↦ inr (n, ground (arith, h, n, e, select_from-find none name cs))
    | inl m ↦ absurd (ground (arith, h, n, m, select_from-find none name cs))
  ]
]

-- A configuration for the cluster that is named, or for the default one: at the address of the settings,
-- or at the one given if the settings have none.
pub record IsFor (cs : List ClusterConfig) (name address : String) (r : RestConfig) : Type 0 where
  pub cluster : ClusterConfig
  pub selected : IsSelected cs name cluster
  pub host : r.host ≡ (if cluster.address == "" then address else cluster.address)
  pub auth_provider : r.auth_provider ≡ cluster.auth_provider
  pub exec_provider : r.exec_provider ≡ cluster.exec_provider

-- What stays while the configuration is made: all but the tokens.
abbrev pub Stays : MultiClusterFactory → MultiClusterFactory → Type 0
Stays m n = (n.clusters ≡ m.clusters) × (n.managers ≡ m.managers)

module _ (env : Surroundings) where
  read_token_file-Stays :
      (token_file : String) (m : MultiClusterFactory) → Stays m (read_token_file env token_file m).1
  unfolding read_token_file
  read_token_file-Stays token_file m = elim (Option-cases (find by_label token_file m.tokens)) [
    | inr (entry, e) ↦ rw (e, read_token_file) (refl, refl)
    | inl n ↦
        rw (n, read_token_file)
          (elim (Result-cases (env.read_file token_file)) [
            | inl (token, r) ↦ rw (r, read_token_file) (refl, refl)
            | inr (e, r) ↦ rw (r, read_token_file) (refl, refl)
          ])
  ]

  bearer_token_of-Stays :
      (c : ClusterConfig) (m : MultiClusterFactory) → Stays m (bearer_token_of env c m).1
  unfolding bearer_token_of
  bearer_token_of-Stays c m = elim (Bool-cases (c.token_file == "")) [
    | inl t ↦ rw (t, bearer_token_of) (refl, refl)
    | inr t ↦ rw (t, bearer_token_of) (read_token_file-Stays c.token_file m)
  ]

  -- What getKubeConfig leaves: nothing but the tokens changed, and a configuration of that cluster.
  abbrev Configures :
      ClusterConfig
      → String
      → MultiClusterFactory
      → Result RestConfig × MultiClusterFactory
      → Type 0
  Configures c address m r =
      Stays m r.1
      × ((rest : RestConfig)
          → r.0 ≡ ok rest
          → (rest.host ≡ (if c.address == "" then address else c.address))
            × (rest.auth_provider ≡ c.auth_provider)
            × (rest.exec_provider ≡ c.exec_provider))

  kube_config_of-Configures :
      (c : ClusterConfig) (address : String) (m : MultiClusterFactory)
      → Configures c address m (kube_config_of env c address m)
  unfolding kube_config_of
  kube_config_of-Configures c address m = elim (Bool-cases (c.name == "")) [
    | inl t ↦ rw (t, kube_config_of) ((refl, refl), λ rest p. cc)
    | inr t ↦
        rw (t, kube_config_of)
          (and_then_elim (Configures c address m) (ca_data_of env c, m) _
            (λ e p. ((refl, refl), λ rest q. cc))
            λ ca p.
              and_then_elim (Configures c address m) (bearer_token_of env c m) _
                (λ e q. (bearer_token_of-Stays c m, λ rest z. cc))
                λ token q. (bearer_token_of-Stays c m, λ rest z. same (inside z)))
  ]
    where
      inside : {a b : RestConfig} → ok a ≡ ok b → a ≡ b
      inside z = cc

      same :
          {ca : rpaas_operator.ByteMaps.Bytes} {token : String} {rest : RestConfig}
          → record {
            host = if c.address == "" then address else c.address;
            bearer_token = token;
            auth_provider = c.auth_provider;
            exec_provider = c.exec_provider;
            ca_data = ca;
          }
            ≡ rest
          → (rest.host ≡ (if c.address == "" then address else c.address))
            × (rest.auth_provider ≡ c.auth_provider)
            × (rest.exec_provider ≡ c.exec_provider)
      same e = (
        sym (ap (λ r. r.host) e),
        sym (ap (λ r. r.auth_provider) e),
        sym (ap (λ r. r.exec_provider) e),
      )

  pub get_kube_config-IsFor :
      (name address : String) (m : MultiClusterFactory)
      → Stays m (get_kube_config env name address m).1
        × ((rest : RestConfig)
            → (get_kube_config env name address m).0 ≡ ok rest
            → IsFor m.clusters name address rest)
  unfolding get_kube_config
  get_kube_config-IsFor name address m = elim (Option-cases (select_from none name m.clusters)) [
    | inl n ↦ rw (n, get_kube_config) ((refl, refl), λ rest p. cc)
    | inr (c, e) ↦
        let (stays, made) = kube_config_of-Configures c address m in
        rw (e, get_kube_config)
          (
            stays,
            λ rest p.
                let (host, auth, exec) = made rest p in
                record {
                  cluster = c;
                  selected = select_from-IsSelected name m.clusters c e;
                  host = host;
                  auth_provider = auth;
                  exec_provider = exec;
                },
          )
  ]
