-- ===== src/Client.antt =====
-- What the manager uses of its surroundings: the configuration (internal/config/config.go) and the
-- Kubernetes client of controller-runtime, which is not part of the repository.
use rpaas_operator.Prelude.{String, ◌≡◌, ◌≢◌, ◌⊎◌, Bool, List, Option}
use rpaas_operator.Prelude.Int.{ℤ}
use rpaas_operator.Errors.{Error}
use rpaas_operator.Result.{Result, ok, err}
use rpaas_operator.Api.{RpaasInstance}

-- The settings that the modelled operations read. A deny pattern is its match function.
pub record RpaasConfig : Type 0 where
  pub service_name : String
  pub namespaced_instances : Bool
  pub enable_cert_manager : Bool
  pub default_cert_manager_issuer : String
  pub config_deny_patterns : List (String → Bool)
  pub new_instance_replicas : ℤ
  pub load_balancer_name_label_key : String
  pub forbidden_annotations_prefixes : List String
  pub default_affinity : Option String
  pub team_affinity : List (String × String)

-- The client, over the state of the cluster. `get namespace name` reads an instance;
-- `patch original updated` sends the merge patch between the two; `update` writes an instance.
pub record Client : Type 1 where
  pub World : Type 0
  pub get : String → String → World → Result RpaasInstance
  pub patch : RpaasInstance → RpaasInstance → World → Result (Unit {0}) × World
  pub update : RpaasInstance → World → Result (Unit {0}) × World

-- What the API documents of reads and writes, while nobody else writes in between: an object is
-- stored under its own name; a patch made against the stored object leaves the updated one in its
-- place, and so does an update; other objects stay, and a refused write changes nothing.
pub record ClientLaws (c : Client) : Type 0 where
  pub get_key :
      (ns n : String) (i : RpaasInstance) (w : c.World)
      → c.get ns n w ≡ ok i
      → (i.namespace ≡ ns) × (i.name ≡ n)
  pub patch_same :
      (i j : RpaasInstance) (w : c.World)
      → c.get i.namespace i.name w ≡ ok i
      → j.namespace ≡ i.namespace
      → j.name ≡ i.name
      → (c.patch i j w).0 ≡ ok tt
      → c.get i.namespace i.name (c.patch i j w).1 ≡ ok j
  pub patch_other :
      (i j : RpaasInstance) (ns n : String) (w : c.World)
      → (ns ≢ i.namespace) ⊎ (n ≢ i.name)
      → c.get ns n (c.patch i j w).1 ≡ c.get ns n w
  pub patch_failed :
      (i j : RpaasInstance) (ns n : String) (w : c.World) (e : Error)
      → (c.patch i j w).0 ≡ err e
      → c.get ns n (c.patch i j w).1 ≡ c.get ns n w
  pub update_same :
      (j : RpaasInstance) (w : c.World)
      → (c.update j w).0 ≡ ok tt
      → c.get j.namespace j.name (c.update j w).1 ≡ ok j
  pub update_other :
      (j : RpaasInstance) (ns n : String) (w : c.World)
      → (ns ≢ j.namespace) ⊎ (n ≢ j.name)
      → c.get ns n (c.update j w).1 ≡ c.get ns n w
  pub update_failed :
      (j : RpaasInstance) (ns n : String) (w : c.World) (e : Error)
      → (c.update j w).0 ≡ err e
      → c.get ns n (c.update j w).1 ≡ c.get ns n w
