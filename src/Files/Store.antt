-- ===== src/Files/Store.antt =====
-- The config maps in which the extra files are kept, as the Kubernetes client gives access to them.
use rpaas_operator.Prelude.{
  String, ◌==◌, ◌≡◌, ◌≢◌, Bool, true, false, ◌&&◌, List, [], ◌∷◌, none, some,
}
use rpaas_operator.Prelude.Keyed.{find}
use rpaas_operator.Errors.{Error, not_found}
use rpaas_operator.Result.{Result, ok, err}
use rpaas_operator.Api.{StringMap}
use rpaas_operator.ByteMaps.{ByteMap}
use rpaas_operator.Labels.{by_label}

-- corev1.ConfigMap, without the owner reference. The server names a config map that is created from
-- its GenerateName, which is `name` until then.
pub record ConfigMap : Type 0 where
  pub name : String
  pub namespace : String
  pub labels : StringMap
  pub binary_data : ByteMap

pub record ConfigMapClient (World : Type 0) : Type 0 where
  pub list : String → StringMap → World → Result (List ConfigMap)
  pub create : ConfigMap → World → Result ConfigMap × World
  pub update : ConfigMap → World → Result (Unit {0}) × World
  pub delete : ConfigMap → World → Result (Unit {0}) × World

-- labels.SelectorFromSet: the labels have each entry of the selector.
unfoldable pub matches : StringMap → StringMap → Bool
unfolding find
matches [] labels = true
matches ((k, v) ∷ selector) labels =
    elim (find by_label k labels) [ none ↦ false | some entry ↦ entry.1 == v ]
    && matches selector labels

module _ {World : Type 0} (c : ConfigMapClient World) where
  -- Exactly this config map is listed under the selector.
  abbrev pub IsListed : StringMap → ConfigMap → World → Type 0
  IsListed selector x w = c.list x.namespace selector w ≡ ok (x ∷ [])

  -- What the API documents of the list of the objects with some labels after each write, while nobody
  -- else writes in between. A name stands for one object of a namespace.
  pub record ConfigMapLaws : Type 0 where
    -- An error of the API is no error of the manager's own.
    pub listed_error :
        (ns : String) (selector : StringMap) (e : Error) (w : World)
        → c.list ns selector w ≡ err e
        → e ≢ not_found "extra file not found"
    pub listed :
        (ns : String) (selector : StringMap) (x : ConfigMap) (w : World)
        → c.list ns selector w ≡ ok (x ∷ [])
        → (x.namespace ≡ ns) × (matches selector x.labels ≡ true)
    pub created :
        (x y : ConfigMap) (w : World) → (c.create x w).0 ≡ ok y → y ≡ record x { name = y.name }
    pub created_same :
        (selector : StringMap) (x y : ConfigMap) (w : World)
        → (c.create x w).0 ≡ ok y
        → matches selector x.labels ≡ true
        → c.list x.namespace selector w ≡ ok []
        → c.list x.namespace selector (c.create x w).1 ≡ ok (y ∷ [])
    pub created_other :
        (selector : StringMap) (x y : ConfigMap) (w : World)
        → (c.create x w).0 ≡ ok y
        → matches selector x.labels ≡ false
        → c.list x.namespace selector (c.create x w).1 ≡ c.list x.namespace selector w
    pub updated_same :
        (selector : StringMap) (x old : ConfigMap) (w : World)
        → (c.update x w).0 ≡ ok tt
        → IsListed selector old w
        → x ≡ record old { binary_data = x.binary_data }
        → IsListed selector x (c.update x w).1
    pub updated_other :
        (own selector : StringMap) (x old : ConfigMap) (w : World)
        → (c.update x w).0 ≡ ok tt
        → IsListed own old w
        → x ≡ record old { binary_data = x.binary_data }
        → matches selector x.labels ≡ false
        → c.list x.namespace selector (c.update x w).1 ≡ c.list x.namespace selector w
    pub deleted_same :
        (selector : StringMap) (x : ConfigMap) (w : World)
        → (c.delete x w).0 ≡ ok tt
        → IsListed selector x w
        → c.list x.namespace selector (c.delete x w).1 ≡ ok []
    pub deleted_other :
        (own selector : StringMap) (x : ConfigMap) (w : World)
        → (c.delete x w).0 ≡ ok tt
        → IsListed own x w
        → matches selector x.labels ≡ false
        → c.list x.namespace selector (c.delete x w).1 ≡ c.list x.namespace selector w
