-- ===== src/Target/Cache.antt =====
-- The managers that are handed out over any requests, one after the other.
use mathlib.Core.Path.{subst}
use rpaas_operator.Prelude.{
  String, ◌==◌, ◌≡◌, inl, inr, refl, sym, ap, ◌∙◌, true, false, not, ◌&&◌, List, [], ◌∷◌, some,
  Bool-cases, Option-cases,
}
use rpaas_operator.Prelude.Keyed.{find, store}
use rpaas_operator.Prelude.Keyed.Laws.{find-store, find-store_self}
use rpaas_operator.Errors.{Error}
use rpaas_operator.Result.{Result, ok, err, and_then_elim}
use rpaas_operator.Target.{
  ClusterConfig, RestConfig, ClusterManager, ManagersCacheKey, is_key_iff, by_key,
  MultiClusterFactory, Headers, Surroundings, get_kube_config, validation_disabled, new_manager,
  manager,
}
use rpaas_operator.Target.Laws.{IsFor, get_kube_config-IsFor}

-- A manager for a key: of its cluster and pool.
pub record IsManagerFor (cs : List ClusterConfig) (k : ManagersCacheKey) (mg : ClusterManager)
    : Type 0 where
  pub rest_config : IsFor cs k.cluster_name k.cluster_address mg.rest_config
  pub cluster_name : mg.cluster_name ≡ k.cluster_name
  pub pool_name : mg.pool_name ≡ k.pool_name

-- Each manager of the cache is for its key.
abbrev IsSound : List ClusterConfig → MultiClusterFactory → Type 0
IsSound cs m =
    (m.clusters ≡ cs)
    × ((k : ManagersCacheKey) (e : ManagersCacheKey × ClusterManager)
        → find by_key k m.managers ≡ some e
        → IsManagerFor cs k e.1)

abbrev pub key_of : Headers → ManagersCacheKey
key_of h = record {
  cluster_name = h.cluster_name;
  pool_name = h.pool_name;
  cluster_address = h.addresses;
}

abbrev Serves : List ClusterConfig → Headers → Result ClusterManager × MultiClusterFactory → Type 0
Serves cs h r =
    IsSound cs r.1 × ((mg : ClusterManager) → r.0 ≡ ok mg → IsManagerFor cs (key_of h) mg)

-- The factory as NewMultiClustersFactory makes it.
unfoldable pub new_factory : List ClusterConfig → MultiClusterFactory
new_factory cs = record { tokens = []; clusters = cs; managers = [] }

module _ (env : Surroundings) (cs : List ClusterConfig) where
  stays-IsSound :
      (m n : MultiClusterFactory)
      → (n.clusters ≡ m.clusters) × (n.managers ≡ m.managers)
      → IsSound cs m
      → IsSound cs n
  stays-IsSound m n (same_clusters, same_managers) (clusters, sound) = (
    same_clusters ∙ clusters,
    λ k e f. sound k e (ap (λ l. find by_key k l) (sym same_managers) ∙ f),
  )

  stored-IsSound :
      (h : Headers) (mg : ClusterManager) (m : MultiClusterFactory)
      → IsManagerFor cs (key_of h) mg
      → IsSound cs m
      → IsSound cs (record m { managers = store by_key (key_of h, mg) m.managers })
  stored-IsSound h mg m good (clusters, sound) = (
    clusters,
    λ k e f. elim (Bool-cases (by_key.test k (key_of h, mg))) [
      | inl t ↦
          let same : key_of h ≡ k = (is_key_iff k (key_of h, mg)).0 t in
          let entry : (key_of h, mg) ≡ e = inside (sym (found k t) ∙ f) in
          subst (λ x. IsManagerFor cs x e.1) same
            (subst (λ x. IsManagerFor cs (key_of h) x) (ap (λ x. x.1) entry) good)
      | inr t ↦ sound k e (sym (missed k t) ∙ f)
    ],
  )
    where
      inside : {a b : ManagersCacheKey × ClusterManager} → some a ≡ some b → a ≡ b
      inside p = cc

      found :
          (k : ManagersCacheKey)
          → by_key.test k (key_of h, mg) ≡ true
          → find by_key k (store by_key (key_of h, mg) m.managers) ≡ some (key_of h, mg)
      found k t = find-store by_key k (key_of h, mg) m.managers ∙ rw t refl

      missed :
          (k : ManagersCacheKey)
          → by_key.test k (key_of h, mg) ≡ false
          → find by_key k (store by_key (key_of h, mg) m.managers) ≡ find by_key k m.managers
      missed k t = find-store by_key k (key_of h, mg) m.managers ∙ rw t refl

  new_manager-Serves :
      (h : Headers) (m : MultiClusterFactory) → IsSound cs m → Serves cs h (new_manager env h m)
  unfolding new_manager
  new_manager-Serves h m sound =
      let (stays, made) = get_kube_config-IsFor env h.cluster_name h.addresses m in
      let kept = stays-IsSound m (get_kube_config env h.cluster_name h.addresses m).1 stays sound in
      and_then_elim (Serves cs h) (get_kube_config env h.cluster_name h.addresses m) _
        (λ e p. (kept, λ mg q. cc))
        λ rest p.
          and_then_elim (Serves cs h)
            (env.new_client rest, (get_kube_config env h.cluster_name h.addresses m).1) _
            (λ e q. (kept, λ mg z. cc))
            λ u q.
              let good = made_for rest (made rest p) in
              (
                stored-IsSound h _ (get_kube_config env h.cluster_name h.addresses m).1 good kept,
                λ mg z. subst (IsManagerFor cs (key_of h)) (inside z) good,
              )
    where
      inside : {a b : ClusterManager} → ok a ≡ ok b → a ≡ b
      inside p = cc

      made_for :
          (rest : RestConfig)
          → IsFor m.clusters h.cluster_name h.addresses rest
          → IsManagerFor cs (key_of h) (record {
            rest_config = rest;
            cluster_name = h.cluster_name;
            pool_name = h.pool_name;
            validates =
                h.disable_validation == "" && not (validation_disabled h.cluster_name m.clusters);
          })
      made_for rest r = record {
        rest_config = subst (λ l. IsFor l h.cluster_name h.addresses rest) sound.0 r;
        cluster_name = refl;
        pool_name = refl;
      }

  manager-Serves :
      (h : Headers) (m : MultiClusterFactory) → IsSound cs m → Serves cs h (manager env h m)
  unfolding manager
  manager-Serves h m sound = elim (Bool-cases (h.addresses == "")) [
    | inl t ↦ rw (t, manager) (sound, λ mg p. cc)
    | inr t ↦
        rw (t, manager)
          (elim (Option-cases (find by_key (key_of h) m.managers)) [
            | inl n ↦ rw (n, manager) (new_manager-Serves h m sound)
            | inr (e, f) ↦
                rw (f, manager)
                  (
                    sound,
                    λ mg p. subst (IsManagerFor cs (key_of h)) (inside p) (sound.1 (key_of h) e f),
                  )
          ])
  ]
    where
      inside : {a b : ClusterManager} → ok a ≡ ok b → a ≡ b
      inside p = cc

  -- The factory after some requests, the first one first.
  abbrev pub after : List Headers → MultiClusterFactory → MultiClusterFactory
  after [] m = m
  after (h ∷ hs) m = after hs (manager env h m).1

  after-IsSound :
      (hs : List Headers) (m : MultiClusterFactory) → IsSound cs m → IsSound cs (after hs m)
  after-IsSound [] m sound = sound
  after-IsSound (h ∷ hs) m sound = after-IsSound hs (manager env h m).1 (manager-Serves h m sound).0

  -- Whatever requests the factory has served since it was made, a manager that it returns has the cluster
  -- name and the pool of the request, and the auth and exec providers of the cluster with that name in the
  -- settings, or of the last default one if none has it; its host is the address of that cluster, or that
  -- of the request if the settings have none.
  pub manager-IsManagerFor :
      (hs : List Headers) (h : Headers) (mg : ClusterManager)
      → (manager env h (after hs (new_factory cs))).0 ≡ ok mg
      → IsManagerFor cs (key_of h) mg
  manager-IsManagerFor hs h mg =
      (manager-Serves h (after hs (new_factory cs)) (after-IsSound hs (new_factory cs) start)).1 mg
    where
      start : IsSound cs (new_factory cs)
      start = unfold new_factory in (refl, λ k e f. unfold find in cc)

-- The cache has the manager that is returned.
abbrev IsCached : Headers → Result ClusterManager × MultiClusterFactory → Type 0
IsCached h r =
    (mg : ClusterManager)
    → r.0 ≡ ok mg
    → (e : ManagersCacheKey × ClusterManager) × (find by_key (key_of h) r.1.managers ≡ some e)
      × (e.1 ≡ mg)

new_manager-IsCached :
    (env : Surroundings) (h : Headers) (m : MultiClusterFactory) → IsCached h (new_manager env h m)
unfolding new_manager
new_manager-IsCached env h m =
    and_then_elim (IsCached h) (get_kube_config env h.cluster_name h.addresses m) _ (λ e p mg q. cc)
      λ rest p.
        and_then_elim (IsCached h)
          (env.new_client rest, (get_kube_config env h.cluster_name h.addresses m).1) _
          (λ e q mg z. cc)
          λ u q mg z. (
            (key_of h, _),
            find-store_self by_key (key_of h, _)
                (get_kube_config env h.cluster_name h.addresses m).1.managers,
            inside z,
          )
  where
    inside : {a b : ClusterManager} → ok a ≡ ok b → a ≡ b
    inside p = cc

manager-IsCached :
    (env : Surroundings) (h : Headers) (m : MultiClusterFactory)
    → (h.addresses == "") ≡ false
    → IsCached h (manager env h m)
unfolding manager
manager-IsCached env h m t =
    rw (t, manager)
      (elim (Option-cases (find by_key (key_of h) m.managers)) [
        | inl n ↦ rw (n, manager) (new_manager-IsCached env h m)
        | inr (e, f) ↦ rw (f, manager) λ mg p. (e, f, inside p)
      ])
  where
    inside : {a b : ClusterManager} → ok a ≡ ok b → a ≡ b
    inside p = cc

manager_found :
    (env : Surroundings) (h : Headers) (m : MultiClusterFactory)
    (e : ManagersCacheKey × ClusterManager)
    → (h.addresses == "") ≡ false
    → find by_key (key_of h) m.managers ≡ some e
    → (manager env h m).0 ≡ ok e.1
unfolding manager
manager_found env h m e t f = rw (t, manager) (rw (f, manager) refl)

manager_no_address :
    (env : Surroundings) (h : Headers) (m : MultiClusterFactory)
    → (h.addresses == "") ≡ true
    → (manager env h m).0 ≡ err (rpaas_operator.Errors.validation "No cluster address provided")
unfolding manager
manager_no_address env h m t = rw (t, manager) refl

-- A manager that was returned stays in the cache: the next request with its cluster, pool and address gets
-- the same one, whatever the validation header of either request was.
pub manager_cached :
    (env : Surroundings) (h : Headers) (m : MultiClusterFactory) (mg : ClusterManager)
    (header : String)
    → (manager env h m).0 ≡ ok mg
    → (manager env (record h { disable_validation = header }) (manager env h m).1).0 ≡ ok mg
manager_cached env h m mg header p = elim (Bool-cases (h.addresses == "")) [
  | inl t ↦ absurd (refused (sym (manager_no_address env h m t) ∙ p))
  | inr t ↦
      let (e, f, same) = manager-IsCached env h m t mg p in
      manager_found env (record h { disable_validation = header }) (manager env h m).1 e t f
      ∙ ap (λ x. ok x) same
]
  where
    refused : {e : Error} → err e ≡ ok mg → ⊥
    refused q = cc
