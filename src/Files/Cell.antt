-- ===== src/Files/Cell.antt =====
-- A cluster with one instance and room for one config map.
use rpaas_operator.Prelude.{
  String, ◌==◌, ◌≡◌, refl, sym, ap, ◌∙◌, Bool, true, false, ◌&&◌, List, [], ◌∷◌, Option, none, some,
  arith, eq_iff, if◌then◌else◌, Bool-cases, inl, inr,
}
use rpaas_operator.Errors.{api, already_exists, is_missing}
use rpaas_operator.Result.{Result, ok, err}
use rpaas_operator.Api.{RpaasInstance, StringMap}
use rpaas_operator.Client.{Client, ClientLaws}
use rpaas_operator.Samples.{single, single_laws, plain_config}
use rpaas_operator.Manager.{Manager}
use rpaas_operator.Files.Store.{ConfigMap, ConfigMapClient, ConfigMapLaws, matches}
use rpaas_operator.Files.Laws.{AreApart}

abbrev pub World : Type 0
World = RpaasInstance × Option ConfigMap

abbrev pub pair : Client
pair = record {
  World = World;
  get = λ ns n (i, x). single.get ns n i;
  patch = λ i j (w, x). let (r, v) = single.patch i j w in (r, (v, x));
  update = λ j (w, x). let (r, v) = single.update j w in (r, (v, x));
}

pub pair_laws : ClientLaws pair
pair_laws = record {
  get_key = λ ns n i (w, x). single_laws.get_key ns n i w;
  patch_same = λ i j (w, x). single_laws.patch_same i j w;
  patch_other = λ i j ns n (w, x). single_laws.patch_other i j ns n w;
  patch_failed = λ i j ns n (w, x). single_laws.patch_failed i j ns n w;
  update_same = λ j (w, x). single_laws.update_same j w;
  update_other = λ j ns n (w, x). single_laws.update_other j ns n w;
  update_failed = λ j ns n (w, x). single_laws.update_failed j ns n w;
}

abbrev pub pair_manager : Manager
pair_manager = record { cli = pair; cluster_name = ""; pool_name = ""; config = plain_config }

abbrev is_listed : String → StringMap → ConfigMap → Bool
is_listed ns selector x = x.namespace == ns && matches selector x.labels

abbrev list : String → StringMap → Option ConfigMap → List ConfigMap
list ns selector none = []
list ns selector (some x) = if is_listed ns selector x then x ∷ [] else []

abbrev create : ConfigMap → Option ConfigMap → Result ConfigMap × Option ConfigMap
create x none = let y : ConfigMap = record x { name = "web-extra-files-x7" } in (ok y, some y)
create x (some z) = (err (api already_exists), some z)

abbrev update : ConfigMap → Option ConfigMap → Result (Unit {0}) × Option ConfigMap
update x none = (err (api is_missing), none)
update x (some z) = (ok tt, some x)

abbrev pub maps : ConfigMapClient World
maps = record {
  list = λ ns selector (i, w). ok (list ns selector w);
  create = λ x (i, w). let (r, v) = create x w in (r, (i, v));
  update = λ x (i, w). let (r, v) = update x w in (r, (i, v));
  delete = λ x (i, w). (ok tt, (i, none));
}

pub maps_apart : AreApart pair_manager maps
maps_apart = record {
  created = λ ns n x (i, w). refl;
  updated = λ ns n x (i, w). refl;
  deleted = λ ns n x (i, w). refl;
  patched = λ ns selector i j (v, w). refl;
}

-- What is listed is what there is.
list-only :
    (ns : String) (selector : StringMap) (x : ConfigMap) (w : Option ConfigMap)
    → list ns selector w ≡ x ∷ []
    → (w ≡ some x) × (x.namespace ≡ ns) × (matches selector x.labels ≡ true)
list-only ns selector x none h = cc
list-only ns selector x (some z) h = elim (Bool-cases (is_listed ns selector z)) [
  | inr t ↦ cc (rw t at h)
  | inl t ↦
      let same : z ≡ x = head (rw t at h) in
      (
        ap (λ y. some y) same,
        rw (← same) (ground (arith, t, eq_iff z.namespace ns)),
        rw (← same) (ground (arith, t)),
      )
]
  where
    head : {a b : ConfigMap} → (a ∷ []) ≡ (b ∷ []) → a ≡ b
    head p = cc

list_self :
    (selector : StringMap) (x : ConfigMap)
    → matches selector x.labels ≡ true
    → list x.namespace selector (some x) ≡ x ∷ []
list_self selector x h = rw h (rw ((eq_iff x.namespace x.namespace).1 refl))

list_away :
    (ns : String) (selector : StringMap) (x : ConfigMap)
    → matches selector x.labels ≡ false
    → list ns selector (some x) ≡ []
list_away ns selector x h = ground (arith, h)

within : {a b : List ConfigMap} → ok a ≡ ok b → a ≡ b
within p = cc

value : {a b : ConfigMap} → ok a ≡ ok b → a ≡ b
value p = cc

create_name :
    (x y : ConfigMap) (w : Option ConfigMap)
    → (create x w).0 ≡ ok y
    → y ≡ record x { name = y.name }
create_name x y none h = let e = value h in rw (← e) refl
create_name x y (some z) h = cc

list-create :
    (selector : StringMap) (x y : ConfigMap) (w : Option ConfigMap)
    → (create x w).0 ≡ ok y
    → matches selector x.labels ≡ true
    → list x.namespace selector (create x w).1 ≡ y ∷ []
list-create selector x y none h m =
    list_self selector (record x { name = "web-extra-files-x7" }) m ∙ ap (λ z. z ∷ []) (value h)
list-create selector x y (some z) h m = cc

list-create_other :
    (selector : StringMap) (x y : ConfigMap) (w : Option ConfigMap)
    → (create x w).0 ≡ ok y
    → matches selector x.labels ≡ false
    → list x.namespace selector (create x w).1 ≡ list x.namespace selector w
list-create_other selector x y none h m =
    list_away x.namespace selector (record x { name = "web-extra-files-x7" }) m
list-create_other selector x y (some z) h m = cc

update-some :
    (x : ConfigMap) (w : Option ConfigMap) → (update x w).0 ≡ ok tt → (update x w).1 ≡ some x
update-some x none h = cc
update-some x (some z) h = refl

-- What was listed under another selector is listed under this one only if it matches.
not_listed :
    (own selector : StringMap) (ns : String) (x : ConfigMap) (w : Option ConfigMap)
    → list x.namespace own w ≡ x ∷ []
    → matches selector x.labels ≡ false
    → list ns selector w ≡ []
not_listed own selector ns x w h m =
    let (is, p, q) = list-only x.namespace own x w h in
    ap (λ v. list ns selector v) is ∙ list_away ns selector x m

pub maps_laws : ConfigMapLaws maps
maps_laws = record {
  listed_error = λ ns selector e (i, w) h d. cc;
  listed = λ ns selector x (i, w) h. let (_, p, q) = list-only ns selector x w (within h) in (p, q);
  created = λ x y (i, w) h. create_name x y w h;
  created_same = λ selector x y (i, w) h m l. ap (λ t. ok t) (list-create selector x y w h m);
  created_other = λ selector x y (i, w) h m. ap (λ t. ok t) (list-create_other selector x y w h m);
  updated_same = λ selector x old (i, w) h l e.
      let (_, _, q) = list-only old.namespace selector old w (within l) in
      ap (λ t. ok t)
        (ap (λ v. list x.namespace selector v) (update-some x w h)
          ∙ list_self selector x (ap (λ z. matches selector z.labels) e ∙ q));
  updated_other = λ own selector x old (i, w) h l e m.
      ap (λ t. ok t)
        (ap (λ v. list x.namespace selector v) (update-some x w h)
          ∙ list_away x.namespace selector x m
          ∙ sym (
              not_listed own selector x.namespace old w (within l)
                (sym (ap (λ z. matches selector z.labels) e) ∙ m)));
  deleted_same = λ selector x (i, w) h l. refl;
  deleted_other = λ own selector x (i, w) h l m.
      ap (λ t. ok t) (sym (not_listed own selector x.namespace x w (within l) m));
}
