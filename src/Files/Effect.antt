-- ===== src/Files/Effect.antt =====
-- What the config maps of the files hold after the files were written.
use mathlib.Core.Path.{subst}
use rpaas_operator.Prelude.{
  String, ◌==◌, ◌≡◌, ◌≢◌, inl, inr, refl, sym, ap, ◌∙◌, false, List, [], ◌∷◌, Option, none, some,
  arith, eq_iff, Bool-cases, clash, if◌then◌else◌,
}
use rpaas_operator.Prelude.Keyed.{Keyed}
use rpaas_operator.Prelude.Keyed.Laws.{find_last}
use rpaas_operator.Errors.{Error, not_found}
use rpaas_operator.Result.{Result, ok, err, ◌>>=◌, and_then, and_then-ok}
use rpaas_operator.Api.{RpaasInstance}
use rpaas_operator.ByteMaps.{Bytes, value_at, data_eq}
use rpaas_operator.ByteMaps.Laws.{value_at-cons}
use rpaas_operator.Manager.{Manager}
use rpaas_operator.Files.Store.{ConfigMap, ConfigMapClient, ConfigMapLaws, IsListed}
use rpaas_operator.Files.{
  File, labels_selector_for_file, new_config_map_for_file, is_no_such_extra_file,
  err_no_such_extra_file, only_config_map,
}
use rpaas_operator.Files.Operations.{update_file_in_config_map}
use rpaas_operator.Files.Laws.{
  AreApart, maps_of, changed, list-cases, selector-Self, matches_other, run_fails, run_creates,
  run_updates, run_refuses, run_conflicts,
}

no_such_false : (e : Error) → e ≢ err_no_such_extra_file → is_no_such_extra_file e ≡ false
unfolding is_no_such_extra_file
no_such_false (not_found s) d = elim (Bool-cases (s == "extra file not found")) [
  | inl t ↦ absurd (d (ap (λ x. not_found x) ((eq_iff s "extra file not found").0 t)))
  | inr t ↦ t
]
no_such_false (rpaas_operator.Errors.not_modified s) d = refl
no_such_false (rpaas_operator.Errors.validation s) d = refl
no_such_false (rpaas_operator.Errors.conflict s) d = refl
no_such_false (rpaas_operator.Errors.api r) d = refl
no_such_false (rpaas_operator.Errors.plain s) d = refl

value_at_own : (n : String) (v : Bytes) → value_at ((n, v) ∷ []) n ≡ some v
value_at_own n v = ground (arith, value_at-cons n n v [], eq_iff n n)

-- A file that is given, by its name.
abbrev pub by_name : Keyed String File
by_name = record { key = λ f. f.name; test = λ k f. f.name == k; test_iff = λ k f. eq_iff f.name k }

abbrev pub content_of : String → Result ConfigMap → Option Bytes
content_of n (err _) = none
content_of n (ok x) = value_at x.binary_data n

module _ (m : Manager) (maps : ConfigMapClient m.cli.World) (ns instance : String) where
  abbrev pub maps_at : String → m.cli.World → Result (List ConfigMap)
  maps_at n w = maps.list ns (labels_selector_for_file m.config instance n) w

  -- The bytes of a file, if one config map has them.
  abbrev pub content_at : String → m.cli.World → Option Bytes
  content_at n w = content_of n (maps_at n w >>= only_config_map)

  -- The file, and nothing else, was written: its one config map holds its content, the config maps of
  -- other names and the instances are as before.
  pub record IsWritten (f : File) (w v : m.cli.World) : Type 0 where
    pub holds :
        (x : ConfigMap) × (maps_at f.name v ≡ ok (x ∷ []))
        × (value_at x.binary_data f.name ≡ some f.content)
    pub others : (k : String) → k ≢ f.name → maps_at k v ≡ maps_at k w
    pub instances : (ns n : String) → m.cli.get ns n v ≡ m.cli.get ns n w

  -- The same of the files one after the other.
  pub record AreWritten (fs : List File) (w v : m.cli.World) : Type 0 where
    pub contents :
        (k : String)
        → content_at k v
          ≡ elim (find_last by_name k fs) [ none ↦ content_at k w | some f ↦ some f.content ]
    pub instances : (ns n : String) → m.cli.get ns n v ≡ m.cli.get ns n w

  content-IsWritten :
      (f : File) (w v : m.cli.World) (k : String)
      → IsWritten f w v
      → content_at k v ≡ (if f.name == k then some f.content else content_at k w)
  unfolding only_config_map
  content-IsWritten f w v k done = elim (Bool-cases (f.name == k)) [
    | inl t ↦
        let (x, there, value) = done.holds in
        rw t (
          rw (← (eq_iff f.name k).0 t)
            (ap (λ r. content_of f.name (r >>= only_config_map)) there ∙ value))
    | inr t ↦ rw t (
        ap (λ r. content_of k (r >>= only_config_map))
          (done.others k λ e. clash t ((eq_iff f.name k).1 (sym e))))
  ]

  pub AreWritten-cons :
      (f : File) (fs : List File) (w v u : m.cli.World)
      → IsWritten f w v
      → AreWritten fs v u
      → AreWritten (f ∷ fs) w u
  unfolding find_last
  AreWritten-cons f fs w v u first rest = record {
    contents = λ k. rest.contents k ∙ ground (arith, content-IsWritten f w v k first);
    instances = λ a n. rest.instances a n ∙ first.instances a n;
  }

module _ (m : Manager) (maps : ConfigMapClient m.cli.World) (laws : ConfigMapLaws maps)
    (apart : AreApart m maps) (i : RpaasInstance) where
  module _ (f : File) (w : m.cli.World) where
    abbrev Writes : Result ConfigMap × m.cli.World → Type 0
    Writes r = (x : ConfigMap) → r.0 ≡ ok x → IsWritten m maps i.namespace i.name f w r.1

    created-Writes :
        maps_of m maps i f.name w ≡ ok []
        → Writes (maps.create (new_config_map_for_file m.config i f) w)
    unfolding new_config_map_for_file
    created-Writes g y p =
        let new = new_config_map_for_file m.config i f in
        record {
          holds = (
            y,
            laws.created_same (labels_selector_for_file m.config i.name f.name) new y w p
                (selector-Self m.config i.name f.name) g,
            subst (λ z. value_at z.binary_data f.name ≡ some f.content)
                (sym (laws.created new y w p)) (value_at_own f.name f.content),
          );
          others = λ k d.
              laws.created_other (labels_selector_for_file m.config i.name k) new y w p (
                matches_other m.config i.name f.name k new.labels d
                  (selector-Self m.config i.name f.name));
          instances = λ ns n. apart.created ns n new w;
        }

    updated-Writes :
        (x : ConfigMap)
        → maps_of m maps i f.name w ≡ ok (x ∷ [])
        → Writes
            (and_then (maps.update (changed m maps i x f) w) λ _ v. (ok (changed m maps i x f), v))
    updated-Writes x g y p =
        let (u, done, run) = and_then-ok (maps.update (changed m maps i x f) w) _ p in
        let own = labels_selector_for_file m.config i.name f.name in
        let (ns, own_labels) = laws.listed i.namespace own x w g in
        let there : IsListed maps own x w =
          subst (λ a. maps.list a own w ≡ ok (x ∷ [])) (sym ns) g in
        subst (λ r. IsWritten m maps i.namespace i.name f w r.1) (sym run)
          (record {
            holds = (
              changed m maps i x f,
              subst
                  (λ a.
                    maps.list a own (maps.update (changed m maps i x f) w).1
                    ≡ ok (changed m maps i x f ∷ []))
                  ns (laws.updated_same own (changed m maps i x f) x w done there refl),
              value_at_own f.name f.content,
            );
            others = λ k d.
                subst
                  (λ a.
                    maps.list a (labels_selector_for_file m.config i.name k)
                      (maps.update (changed m maps i x f) w).1
                    ≡ maps.list a (labels_selector_for_file m.config i.name k) w)
                  ns
                  (laws.updated_other own (labels_selector_for_file m.config i.name k)
                    (changed m maps i x f) x w done there refl
                    (matches_other m.config i.name f.name k x.labels d own_labels));
            instances = λ ns n. apart.updated ns n (changed m maps i x f) w;
          })

    pub update_file-IsWritten : Writes (update_file_in_config_map m maps i f w)
    update_file-IsWritten = elim (list-cases (maps_of m maps i f.name w)) [
      | inl (e, g) ↦
          subst Writes
            (sym (
              run_fails m maps i f w e g (no_such_false e (laws.listed_error i.namespace _ e w g))))
            λ y p. cc
      | inr (inl g) ↦ subst Writes (sym (run_creates m maps i f w g)) (created-Writes g)
      | inr (inr (inl (x, g))) ↦
          elim (Bool-cases (data_eq x.binary_data ((f.name, f.content) ∷ []))) [
            | inl t ↦ subst Writes (sym (run_refuses m maps i f w x g t)) λ y p. cc
            | inr t ↦ subst Writes (sym (run_updates m maps i f w x g t)) (updated-Writes x g)
          ]
      | inr (inr (inr (x, y, l, g))) ↦
          subst Writes (sym (run_conflicts m maps i f w x y l g)) λ z p. cc
    ]
