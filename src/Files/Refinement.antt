-- ===== src/Files/Refinement.antt =====
-- CreateExtraFiles and UpdateExtraFiles against what they are for: a map from file names to bytes.
use mathlib.Core.Path.{subst}
use rpaas_operator.Prelude.{
  String, ◌≡◌, ◌≢◌, inl, inr, refl, sym, ap, ◌∙◌, Bool, ◌||◌, List, [], none, some, is_some,
}
use rpaas_operator.Prelude.Keyed.{find}
use rpaas_operator.Prelude.Keyed.Laws.{find_last}
use rpaas_operator.Errors.{Error}
use rpaas_operator.Result.{Result-cases, Result, ok, err, ◌>>=◌, and_then, and_then-ok}
use rpaas_operator.Api.{RpaasInstance}
use rpaas_operator.Client.{ClientLaws}
use rpaas_operator.Manager.{Manager, get_instance}
use rpaas_operator.Manager.Frame.{get_instance_cong, patch-commits}
use rpaas_operator.Files.Store.{ConfigMapClient, ConfigMapLaws}
use rpaas_operator.Files.{File, by_file, only_config_map, validate_files, with_last_update}
use rpaas_operator.Files.Valid.{AreFilesValid, validate_files_iff}
use rpaas_operator.Files.Operations.{write_files, patch_files, add_or_update_extra_files}
use rpaas_operator.Files.Laws.{AreApart}
use rpaas_operator.Files.Effect.{by_name, content_at, content_of, AreWritten}
use rpaas_operator.Files.Loop.{AreListed, write_files-Done}

with_last_update-key :
    (time : String) (i : RpaasInstance)
    → ((with_last_update time i).namespace ≡ i.namespace)
      × ((with_last_update time i).name ≡ i.name)
      × ((with_last_update time i).spec.files ≡ i.spec.files)
unfolding with_last_update
with_last_update-key time i = (refl, refl, refl)

-- What a method leaves of the files: the names in the list of the instance, and the bytes of each file.
pub record HasWritten (m : Manager) (maps : ConfigMapClient m.cli.World) (instance_name : String)
    (i : RpaasInstance) (fs : List File) (w v : m.cli.World) : Type 0 where
  pub instance : RpaasInstance
  pub read : get_instance m instance_name v ≡ ok instance
  pub same_key : (instance.namespace ≡ i.namespace) × (instance.name ≡ i.name)
  pub names :
      (k : String)
      → is_some (find by_file k instance.spec.files)
        ≡ (is_some (find_last by_name k fs) || is_some (find by_file k i.spec.files))
  pub contents :
      (k : String)
      → content_at m maps i.namespace i.name k v ≡ elim (find_last by_name k fs) [
        | none ↦ content_at m maps i.namespace i.name k w
        | some f ↦ some f.content
      ]

module _ (m : Manager) (maps : ConfigMapClient m.cli.World) where
  pub sends :
      (creating : Bool) (time instance_name : String) (fs : List File) (w : m.cli.World)
      (i : RpaasInstance) (u : Unit {0})
      → validate_files fs ≡ ok u
      → get_instance m instance_name w ≡ ok i
      → add_or_update_extra_files m maps creating time instance_name fs w
        ≡ and_then (write_files m maps creating fs i w) (patch_files m maps time i)
  unfolding add_or_update_extra_files
  sends creating time instance_name fs w i u valid g =
      rw (valid, add_or_update_extra_files) (rw (g, add_or_update_extra_files))

module _ (m : Manager) (maps : ConfigMapClient m.cli.World) (client_laws : ClientLaws m.cli)
    (laws : ConfigMapLaws maps) (apart : AreApart m maps) where
  -- The patch after the loop.
  patched :
      (time instance_name : String) (fs : List File) (w v : m.cli.World) (i k : RpaasInstance)
      → get_instance m instance_name w ≡ ok i
      → AreListed fs i k
      → AreWritten m maps i.namespace i.name fs w v
      → (patch_files m maps time i k v).0 ≡ ok tt
      → HasWritten m maps instance_name i fs w (patch_files m maps time i k v).1
  unfolding patch_files
  patched time instance_name fs w v i k g listed written done =
      let now = with_last_update time k in
      let (ns, name, files) = with_last_update-key time k in
      let found =
        get_instance_cong m instance_name v w (λ a. written.instances a instance_name) ∙ g in
      record {
        instance = now;
        read =
            patch-commits m client_laws instance_name v i now found (ns ∙ listed.same_key.0)
              (name ∙ listed.same_key.1) done;
        same_key = (ns ∙ listed.same_key.0, name ∙ listed.same_key.1);
        names = λ n. ap (λ l. is_some (find by_file n l)) files ∙ listed.names n;
        contents = λ n.
            ap (λ r. content_of n (r >>= only_config_map)) (apart.patched _ _ i now v)
            ∙ written.contents n;
      }

  outcome :
      (creating : Bool) (time instance_name : String) (fs : List File) (w : m.cli.World)
      (i : RpaasInstance)
      → get_instance m instance_name w ≡ ok i
      → (r : Result RpaasInstance × m.cli.World) → write_files m maps creating fs i w ≡ r
      → (and_then r (patch_files m maps time i)).0 ≡ ok tt
      → HasWritten m maps instance_name i fs w (and_then r (patch_files m maps time i)).1
  outcome creating time instance_name fs w i g r e p =
      let (k, done, run) = and_then-ok r (patch_files m maps time i) p in
      let (listed, written) =
        write_files-Done m maps laws apart creating fs i w k (ap (λ x. x.0) e ∙ done) in
      subst (λ x. HasWritten m maps instance_name i fs w x.1) (sym run)
        (patched time instance_name fs w r.1 i k g listed
          (subst (λ x. AreWritten m maps i.namespace i.name fs w x.1) e written)
          (sym (ap (λ x. x.0) run) ∙ p))

  -- A CreateExtraFiles or UpdateExtraFiles that returned no error was of valid files, one or more; a read
  -- then finds the instance, under the same key, with the names that it had and the names given; under each
  -- name that was given there are the bytes given last for it, and under every other name the bytes that
  -- were there, if any.
  pub add_or_update_extra_files-HasWritten :
      (creating : Bool) (time instance_name : String) (fs : List File) (w : m.cli.World)
      (i : RpaasInstance)
      → get_instance m instance_name w ≡ ok i
      → (add_or_update_extra_files m maps creating time instance_name fs w).0 ≡ ok tt
      → (fs ≢ [])
        × AreFilesValid fs
        × HasWritten m maps instance_name i fs w
            (add_or_update_extra_files m maps creating time instance_name fs w).1
  add_or_update_extra_files-HasWritten creating time instance_name fs w i g =
      elim (Result-cases (validate_files fs)) [
        | inr (e, refused) ↦
            subst
              (λ r.
                r.0 ≡ ok tt
                → (fs ≢ []) × AreFilesValid fs × HasWritten m maps instance_name i fs w r.1)
              (sym (refuses e refused)) λ p. cc
        | inl (u, valid) ↦
            let (some_file, all) = (validate_files_iff fs).0 (rw valid) in
            subst
              (λ r.
                r.0 ≡ ok tt
                → (fs ≢ []) × AreFilesValid fs × HasWritten m maps instance_name i fs w r.1)
              (sym (sends m maps creating time instance_name fs w i u valid g))
              λ p. (
                some_file,
                all,
                outcome creating time instance_name fs w i g (write_files m maps creating fs i w)
                    refl p,
              )
      ]
    where
      refuses :
          (e : Error)
          → validate_files fs ≡ err e
          → add_or_update_extra_files m maps creating time instance_name fs w ≡ (err e, w)
      refuses e h = unfold add_or_update_extra_files in rw (h, add_or_update_extra_files)
