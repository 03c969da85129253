-- ===== src/Metadata/Reserved.antt =====
-- internal/pkg/rpaas/metadata.go: the labels and annotations that the operator keeps for itself.
use rpaas_operator.Prelude.{
  String, ◌==◌, ◌≡◌, inl, inr, refl, ap, ◌∙◌, true, false, List, [], ◌∷◌, none, arith, eq_iff,
  Bool-cases, clash,
}
use rpaas_operator.Prelude.Keyed.{find}
use rpaas_operator.Prelude.Keyed.Laws.{find_last}
use rpaas_operator.Result.{ok}
use rpaas_operator.Api.{RpaasInstance}
use rpaas_operator.Client.{ClientLaws}
use rpaas_operator.Labels.{by_label}
use rpaas_operator.Manager.{Manager, get_instance}
use rpaas_operator.Manager.Frame.{KeepsKey, modify-keeps}
use rpaas_operator.Metadata.{
  Metadata, MetadataItem, is_valid_metadata_key, validate_metadata, with_metadata, without_metadata,
  set_metadata, unset_metadata,
}
use rpaas_operator.Metadata.Laws.{
  is_named, with_metadata-ok, without_metadata-ok, with_metadata-effect,
}

-- The reserved labels and annotations of the two instances are the same.
abbrev pub KeepsReserved : RpaasInstance → RpaasInstance → Type 0
KeepsReserved i j =
    (k : String)
    → is_valid_metadata_key k ≡ false
    → (find by_label k j.labels ≡ find by_label k i.labels)
      × (find by_label k j.annotations ≡ find by_label k i.annotations)

validate_metadata-cons :
    (item : MetadataItem) (items : List MetadataItem)
    → validate_metadata (item ∷ items) ≡ ok tt
    → (is_valid_metadata_key item.0 ≡ true) × (validate_metadata items ≡ ok tt)
unfolding validate_metadata
validate_metadata-cons item items h = ground arith

-- No accepted item has a reserved name.
is_named-reserved :
    (items : List MetadataItem) (k : String)
    → validate_metadata items ≡ ok tt
    → is_valid_metadata_key k ≡ false
    → is_named k items ≡ false
unfolding is_named
is_named-reserved [] k h r = refl
is_named-reserved (item ∷ items) k h r =
    let (valid, rest) = validate_metadata-cons item items h in
    elim (Bool-cases (item.0 == k)) [
      | inl e ↦ absurd (clash r (rw (← (eq_iff item.0 k).0 e) valid))
      | inr e ↦ rw e (is_named-reserved items k rest r)
    ]

find_last-unnamed :
    (items : List MetadataItem) (k : String)
    → is_named k items ≡ false
    → find_last by_label k items ≡ none
unfolding is_named find_last
find_last-unnamed [] k h = refl
find_last-unnamed (item ∷ items) k h = ground (arith, find_last-unnamed items k)

with_metadata-KeepsReserved :
    (md : Metadata) (i j : RpaasInstance) → with_metadata md i ≡ ok j → KeepsReserved i j
with_metadata-KeepsReserved md i j h k r =
    let (v, v', _) = with_metadata-ok md i j h in
    let (l, a, _) = with_metadata-effect md i j h in
    (
      rw (find_last-unnamed md.labels k (is_named-reserved md.labels k v r)) at (l k),
      rw (find_last-unnamed md.annotations k (is_named-reserved md.annotations k v' r)) at (a k),
    )

without_metadata-KeepsReserved :
    (md : Metadata) (i j : RpaasInstance) → without_metadata md i ≡ ok j → KeepsReserved i j
without_metadata-KeepsReserved md i j h k r =
    let (v, v', l, a, _) = without_metadata-ok md i j h in
    (
      rw (is_named-reserved md.labels k v r) at (l k),
      rw (is_named-reserved md.annotations k v' r) at (a k),
    )

with_metadata-key : (md : Metadata) → KeepsKey (with_metadata md)
with_metadata-key md i j h =
    let (_, _, same) = with_metadata-ok md i j h in
    (ap (λ (k : RpaasInstance). k.namespace) same, ap (λ (k : RpaasInstance). k.name) same)

without_metadata-key : (md : Metadata) → KeepsKey (without_metadata md)
without_metadata-key md i j h =
    let (_, _, _, _, same) = without_metadata-ok md i j h in
    (ap (λ (k : RpaasInstance). k.namespace) same, ap (λ (k : RpaasInstance). k.name) same)

chain : (i j k : RpaasInstance) → KeepsReserved i j → KeepsReserved j k → KeepsReserved i k
chain i j k s t key r = ((t key r).0 ∙ (s key r).0, (t key r).1 ∙ (s key r).1)

-- A request to the API for the metadata of one instance.
pub data MetadataCall : Type 0 where
  set unset : Metadata → MetadataCall

module _ (m : Manager) (name : String) where
  unfoldable pub serve_metadata : List MetadataCall → m.cli.World → m.cli.World
  unfolding set_metadata unset_metadata
  serve_metadata [] w = w
  serve_metadata (set md ∷ calls) w = serve_metadata calls (set_metadata m name md w).1
  serve_metadata (unset md ∷ calls) w = serve_metadata calls (unset_metadata m name md w).1

  serve_from :
      ClientLaws m.cli
      → (first : RpaasInstance) (calls : List MetadataCall) (w : m.cli.World) (i : RpaasInstance)
      → get_instance m name w ≡ ok i
      → KeepsReserved first i
      → (k : RpaasInstance) × (get_instance m name (serve_metadata calls w) ≡ ok k)
        × KeepsReserved first k
  unfolding serve_metadata
  serve_from laws first [] w i h s = (i, h, s)
  serve_from laws first (set md ∷ calls) w i h s =
      let (k, now, t) =
        modify-keeps m laws name (with_metadata md) w {P = KeepsReserved first} i
          (with_metadata-key md) (λ j r. chain first i j s (with_metadata-KeepsReserved md i j r)) s
          h in
      serve_from laws first calls _ k now t
  serve_from laws first (unset md ∷ calls) w i h s =
      let (k, now, t) =
        modify-keeps m laws name (without_metadata md) w {P = KeepsReserved first} i
          (without_metadata-key md)
          (λ j r. chain first i j s (without_metadata-KeepsReserved md i j r)) s h in
      serve_from laws first calls _ k now t

  -- Whatever metadata requests are served, failed ones included: the instance is still found, with
  -- every reserved label and annotation as at first.
  pub serve_metadata-KeepsReserved :
      ClientLaws m.cli
      → (calls : List MetadataCall) (w : m.cli.World) (i : RpaasInstance)
      → get_instance m name w ≡ ok i
      → (k : RpaasInstance) × (get_instance m name (serve_metadata calls w) ≡ ok k)
        × KeepsReserved i k
  serve_metadata-KeepsReserved laws calls w i h =
      serve_from laws i calls w i h (λ k r. (refl, refl))
