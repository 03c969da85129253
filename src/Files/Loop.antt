-- ===== src/Files/Loop.antt =====
-- The loop that writes the files, and the method around it: read the instance, write the files, send the
-- patch.
use mathlib.Core.Path.{subst, subst₂}
use rpaas_operator.Prelude.{
  String, ◌==◌, ◌≡◌, inl, inr, refl, sym, ap, ◌∙◌, Bool, true, false, not, ◌||◌, List, [], ◌∷◌,
  ◌++◌, is_some, arith, eq_iff, Bool-cases, if◌then◌else◌,
}
use rpaas_operator.Prelude.Keyed.{find}
use rpaas_operator.Prelude.Keyed.Laws.{find_last}
use rpaas_operator.Errors.{Error}
use rpaas_operator.Result.{Result, ok, err, and_then, and_then-ok}
use rpaas_operator.Api.{RpaasInstance}
use rpaas_operator.Manager.{Manager}
use rpaas_operator.Files.Store.{ConfigMap, ConfigMapClient, ConfigMapLaws}
use rpaas_operator.Files.{File, by_file, with_file}
use rpaas_operator.Files.Operations.{update_file_in_config_map, write_file, write_files}
use rpaas_operator.Files.Laws.{AreApart}
use rpaas_operator.Files.Effect.{
  by_name, IsWritten, AreWritten, AreWritten-cons, update_file-IsWritten,
}

find-append :
    (k : String) (fs : List rpaas_operator.Api.File) (f : rpaas_operator.Api.File)
    → is_some (find by_file k (fs ++ f ∷ [])) ≡ (f.name == k || is_some (find by_file k fs))
unfolding find
find-append k [] f = ground arith
find-append k (g ∷ fs) f = ground (arith, find-append k fs f)

ok-injective {ℓ} : {A : Type ℓ} {a b : A} → ok a ≡ ok b → a ≡ b
ok-injective p = cc

-- The instance after some turns of the loop has the same key, and the names of the files in its list.
pub record AreListed (fs : List File) (i j : RpaasInstance) : Type 0 where
  pub same_key : (j.namespace ≡ i.namespace) × (j.name ≡ i.name)
  pub names :
      (k : String)
      → is_some (find by_file k j.spec.files)
        ≡ (is_some (find_last by_name k fs) || is_some (find by_file k i.spec.files))

-- The instance after one turn.
abbrev pub turned : Bool → File → RpaasInstance → ConfigMap → RpaasInstance
turned creating f i cm = if creating then with_file f cm i else i

pub turned-names :
    (creating : Bool) (f : File) (i : RpaasInstance) (cm : ConfigMap)
    → (creating ≡ false → is_some (find by_file f.name i.spec.files) ≡ true)
    → (k : String)
    → is_some (find by_file k (turned creating f i cm).spec.files)
      ≡ (f.name == k || is_some (find by_file k i.spec.files))
unfolding with_file
turned-names true f i cm h k = find-append k i.spec.files _
turned-names false f i cm h k = elim (Bool-cases (f.name == k)) [
  | inl t ↦ rw t (rw (← (eq_iff f.name k).0 t) (h refl))
  | inr t ↦ rw t
]

turned-key :
    (creating : Bool) (f : File) (i : RpaasInstance) (cm : ConfigMap)
    → ((turned creating f i cm).namespace ≡ i.namespace) × ((turned creating f i cm).name ≡ i.name)
unfolding with_file
turned-key true f i cm = (refl, refl)
turned-key false f i cm = (refl, refl)

module _ (m : Manager) (maps : ConfigMapClient m.cli.World) (creating : Bool) (f : File)
    (i : RpaasInstance) (w : m.cli.World) where
  -- A file that is to be created, and is in the list already, is refused.
  pub write_file_exists :
      creating ≡ true
      → is_some (find by_file f.name i.spec.files) ≡ true
      → write_file m maps creating f i w
        ≡ (err (rpaas_operator.Errors.conflict "file already exists"), w)
  unfolding write_file
  write_file_exists c h = rw (c, h)

  write_file_absent :
      creating ≡ false
      → is_some (find by_file f.name i.spec.files) ≡ false
      → write_file m maps creating f i w ≡ (err rpaas_operator.Files.err_no_such_extra_file, w)
  unfolding write_file
  write_file_absent c h = rw (c, h)

  pub write_file_passes :
      is_some (find by_file f.name i.spec.files) ≡ not creating
      → write_file m maps creating f i w
        ≡ and_then (update_file_in_config_map m maps i f w) λ cm v. (ok (turned creating f i cm), v)
  unfolding write_file
  write_file_passes h = rw h (elim (Bool-cases creating) [ inl c ↦ rw c refl | inr c ↦ rw c refl ])

module _ (m : Manager) (maps : ConfigMapClient m.cli.World) (laws : ConfigMapLaws maps)
    (apart : AreApart m maps) (creating : Bool) where
  -- What a turn, or the loop, leaves if it returns no error.
  abbrev Done :
      List File → RpaasInstance → m.cli.World → Result RpaasInstance × m.cli.World → Type 0
  Done fs i w r =
      (j : RpaasInstance)
      → r.0 ≡ ok j
      → AreListed fs i j × AreWritten m maps i.namespace i.name fs w r.1

  one : (f : File) (k : String) → is_some (find_last by_name k (f ∷ [])) ≡ (f.name == k)
  unfolding find_last
  one f k = ground arith

  AreWritten-one :
      (f : File) (i : RpaasInstance) (w v : m.cli.World)
      → IsWritten m maps i.namespace i.name f w v
      → AreWritten m maps i.namespace i.name (f ∷ []) w v
  unfolding find_last
  AreWritten-one f i w v done =
      AreWritten-cons m maps i.namespace i.name f [] w v v done
        (record { contents = λ k. refl; instances = λ ns n. refl })

  write_file-Done :
      (f : File) (i : RpaasInstance) (w : m.cli.World)
      → Done (f ∷ []) i w (write_file m maps creating f i w)
  write_file-Done f i w = elim (Bool-cases creating) [
    | inl c ↦ elim (Bool-cases (is_some (find by_file f.name i.spec.files))) [
      | inl h ↦
          subst (Done (f ∷ []) i w) (sym (write_file_exists m maps creating f i w c h)) λ j p. cc
      | inr h ↦ passed (rw (c, h))
    ]
    | inr c ↦ elim (Bool-cases (is_some (find by_file f.name i.spec.files))) [
      | inl h ↦ passed (rw (c, h))
      | inr h ↦
          subst (Done (f ∷ []) i w) (sym (write_file_absent m maps creating f i w c h)) λ j p. cc
    ]
  ]
    where
      passed :
          is_some (find by_file f.name i.spec.files) ≡ not creating
          → Done (f ∷ []) i w (write_file m maps creating f i w)
      passed h = subst (Done (f ∷ []) i w) (sym (write_file_passes m maps creating f i w h)) λ j p.
          let (cm, done, run) = and_then-ok (update_file_in_config_map m maps i f w) _ p in
          let same : turned creating f i cm ≡ j = ok-injective (sym (ap (λ r. r.0) run) ∙ p) in
          (
            subst (AreListed (f ∷ []) i) same (record {
              same_key = turned-key creating f i cm;
              names = λ k.
                  turned-names creating f i cm (λ c. h ∙ ap (λ b. not b) c) k
                  ∙ ap (λ b. b || is_some (find by_file k i.spec.files)) (sym (one f k));
            }),
            subst (λ r. AreWritten m maps i.namespace i.name (f ∷ []) w r.1) (sym run)
                (AreWritten-one f i w (update_file_in_config_map m maps i f w).1
                  (update_file-IsWritten m maps laws apart i f w cm done)),
          )

  then-Done :
      (f : File) (fs : List File) (i j k : RpaasInstance) (w v u : m.cli.World)
      → AreListed (f ∷ []) i j
      → AreWritten m maps i.namespace i.name (f ∷ []) w v
      → AreListed fs j k
      → AreWritten m maps j.namespace j.name fs v u
      → AreListed (f ∷ fs) i k × AreWritten m maps i.namespace i.name (f ∷ fs) w u
  unfolding find_last
  then-Done f fs i j k w v u listed written listed' written' =
      let (ns, name) = listed.same_key in
      let now : AreWritten m maps i.namespace i.name fs v u =
        subst₂ (λ a b. AreWritten m maps a b fs v u) ns name written' in
      (
        record {
          same_key = (listed'.same_key.0 ∙ ns, listed'.same_key.1 ∙ name);
          names = λ n. ground (arith, listed'.names n, listed.names n);
        },
        record {
          contents = λ n. ground (arith, now.contents n, written.contents n);
          instances = λ a n. now.instances a n ∙ written.instances a n;
        },
      )

  -- The loop, if it returns no error.
  pub write_files-Done :
      (fs : List File) (i : RpaasInstance) (w : m.cli.World)
      → Done fs i w (write_files m maps creating fs i w)
  unfolding write_files
  write_files-Done [] i w j p =
      let same : i ≡ j = ok-injective p in
      (
        subst (AreListed [] i) same
            (record { same_key = (refl, refl); names = λ k. unfold find_last in refl }),
        record { contents = λ k. unfold find_last in refl; instances = λ ns n. refl },
      )
  write_files-Done (f ∷ fs) i w k p =
      let (j, done, run) = and_then-ok (write_file m maps creating f i w) _ p in
      let (listed, written) = write_file-Done f i w j done in
      let (listed', written') =
        write_files-Done fs j (write_file m maps creating f i w).1 k
          (sym (ap (λ r. r.0) run) ∙ p) in
      subst (λ r. AreListed (f ∷ fs) i k × AreWritten m maps i.namespace i.name (f ∷ fs) w r.1)
        (sym run)
        (then-Done f fs i j k w (write_file m maps creating f i w).1 _ listed written listed'
          written')
