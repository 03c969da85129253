-- ===== src/Controller/Settled.antt =====
-- The frame of the reconciler gone through twice: the laws of the client, and what of a revision matters.
use rpaas_operator.Prelude.{String, ◌≡◌, true, Option, none, some}
use rpaas_operator.Errors.{Error}
use rpaas_operator.Result.{ok, err}
use rpaas_operator.Manager.{is_api_missing}
use rpaas_operator.Controller.{Object, Objects}

module _ {World Spec : Type 0} (o : Objects World Spec) where
  -- The object is there, as the server admits it: with its labels, and with `admit` of its spec, which
  -- is the spec with the server's defaults filled in.
  abbrev pub IsStored : (Spec → Spec) → Object Spec → World → Type 0
  IsStored admit x w =
      (y : Object Spec) × (o.get x.namespace x.name w ≡ ok y)
      × (y.spec ≡ admit x.spec)
      × (y.labels ≡ x.labels)

  abbrev pub IsGone : Object Spec → World → Type 0
  IsGone x w = (e : Error) × (o.get x.namespace x.name w ≡ err e) × (is_api_missing e ≡ true)

  -- What the API documents of reads and writes of one kind, while nobody else writes in between.
  pub record ObjectLaws (admit : Spec → Spec) : Type 0 where
    pub get_key :
        (ns n : String) (x : Object Spec) (w : World)
        → o.get ns n w ≡ ok x
        → (x.namespace ≡ ns) × (x.name ≡ n)
    pub create_same :
        (x : Object Spec) (w : World) → (o.create x w).0 ≡ ok tt → IsStored admit x (o.create x w).1
    pub update_same :
        (x : Object Spec) (w : World) → (o.update x w).0 ≡ ok tt → IsStored admit x (o.update x w).1
    pub delete_same :
        (x : Object Spec) (w : World) → (o.delete x w).0 ≡ ok tt → IsGone x (o.delete x w).1

  -- A server that answers: a read finds the object or none, one that is missing can be created, one
  -- that was found can be updated and deleted.
  pub record IsHealthy : Type 0 where
    pub reads :
        (ns n : String) (w : World) (e : Error) → o.get ns n w ≡ err e → is_api_missing e ≡ true
    pub creates :
        (x : Object Spec) (w : World) (e : Error)
        → o.get x.namespace x.name w ≡ err e
        → (o.create x w).0 ≡ ok tt
    pub updates :
        (x old : Object Spec) (w : World)
        → o.get x.namespace x.name w ≡ ok old
        → (o.update x w).0 ≡ ok tt
    pub deletes :
        (ns n : String) (x : Object Spec) (w : World)
        → o.get ns n w ≡ ok x
        → (o.delete x w).0 ≡ ok tt

  -- What a method wants of its object in one run, and what it wants in the next one: the same key, and
  -- no more to change in what the first run has left.
  pub record IsSettling (admit : Spec → Spec) (first next : Object Spec)
      (revise revise_next : Object Spec → Option (Object Spec)) : Type 0 where
    pub same_key : (next.namespace ≡ first.namespace) × (next.name ≡ first.name)
    pub keeps_key :
        (old x : Object Spec)
        → old.namespace ≡ first.namespace
        → old.name ≡ first.name
        → revise old ≡ some x
        → (x.namespace ≡ first.namespace) × (x.name ≡ first.name)
    pub created :
        (y : Object Spec)
        → y.spec ≡ admit first.spec
        → y.labels ≡ first.labels
        → revise_next y ≡ none
    pub revised :
        (old x y : Object Spec)
        → revise old ≡ some x
        → y.spec ≡ admit x.spec
        → y.labels ≡ x.labels
        → revise_next y ≡ none
    pub kept : (old : Object Spec) → revise old ≡ none → revise_next old ≡ none
