-- ===== src/Servers/Serving.antt =====
-- The locations of the servers before the certificates are added.
use mathlib.Core.Path.{subst}
use mathlib.Core.Option
use rpaas_operator.Prelude.{
  String, ◌≡◌, ◌≢◌, inl, inr, refl, sym, ap, ◌∙◌, List, [], ◌∷◌, map, Option, none, some, arith,
  Option-cases,
}
use rpaas_operator.Prelude.Keyed.{find, Distinct}
use rpaas_operator.Api.{Location, RpaasInstanceSpec}
use rpaas_operator.Mutation.Routes.{locations}
use rpaas_operator.Servers.{
  Server, by_server, by_path, default_locations, default_locations_index, with_default_locations,
  place_locations, named_servers,
}
use rpaas_operator.Servers.Laws.{
  by_location_path, index_of, find-default_locations, default_locations-Distinct,
  find-default_locations_index,
}
use rpaas_operator.Servers.Placing.{IsAligned, IsIndex, overlaid}
use rpaas_operator.Servers.Turns.{place-Serves, place_absent}
use rpaas_operator.Servers.Starting.{
  AreEmpty, find-map_defaults, started, started-AreEmpty, named_servers-some, named_servers-none,
}

none-index_of :
    (p : String) (ls : List Location) → index_of p ls ≡ none → find by_location_path p ls ≡ none
unfolding find
none-index_of p [] h = refl
none-index_of p (l ∷ ls) h = ground (arith, none-index_of p ls, h)

default_locations_index-IsIndex :
    (ds : List Location) → Distinct by_location_path ds → IsIndex ds (default_locations_index ds [])
default_locations_index-IsIndex ds d p =
    ground (arith, find-default_locations_index p ds [] d λ q h. unfold find in refl, empty)
  where
    empty : find by_path p [] ≡ none
    empty = unfold find in refl

some-injective {ℓ} : {A : Type ℓ} {a b : A} → some a ≡ some b → a ≡ b
some-injective p = cc

-- What the locations of a server are after the last loop.
placed-locations :
    (spec : RpaasInstanceSpec) (started : List Server) (s : String) (t : Server)
    → Distinct locations spec.locations
    → s ≢ ""
    → AreEmpty started
    → find by_server s (
        place_locations
          (default_locations_index (default_locations spec.locations) [])
          spec.locations
          (map (with_default_locations (default_locations spec.locations)) started))
      ≡ some t
    → (p : String)
    → find by_location_path p t.locations
      ≡ overlaid [] (find locations (s, p) spec.locations) (find locations ("", p) spec.locations)
placed-locations spec started s t d named empty f p =
    let ds = default_locations spec.locations in
    let index = default_locations_index ds [] in
    let is = default_locations_index-IsIndex ds (default_locations-Distinct spec.locations d) in
    let start = map (with_default_locations ds) started in
    elim (Option-cases (find by_server s started)) [
      | inl n ↦ absurd (
          none_some
            (place_absent ds index is s named spec.locations start (
              find-map_defaults ds s started
              ∙ ap (λ o. Option.map (with_default_locations ds) o) n))
            f)
      | inr (u, e) ↦
          let v = with_default_locations ds u in
          let all : v.locations ≡ ds = defaults ds u (empty s u e) in
          let (t', here, at_path) =
            place-Serves ds index is s named spec.locations start v d
              (find-map_defaults ds s started
                ∙ ap (λ o. Option.map (with_default_locations ds) o) e)
              (
                subst (λ l. IsAligned ds l) (sym all) (λ q k i. i),
                λ q n h. ap (λ l. find by_location_path q l) all ∙ none-index_of q ds n,
              ) in
          ap (λ x. find by_location_path p x.locations) (some-injective (sym f ∙ here))
          ∙ at_path p
          ∙ ap (λ x. overlaid [] (find locations (s, p) spec.locations) x)
              (ap (λ l. find by_location_path p l) all ∙ find-default_locations p spec.locations)
    ]
  where
    none_some : {o : Option Server} → o ≡ none → o ≡ some t → ⊥
    none_some a b = cc

    defaults :
        (ds : List Location) (u : Server)
        → u.locations ≡ []
        → (with_default_locations ds u).locations ≡ ds
    defaults ds u e = unfold with_default_locations in rw e refl

-- If no two locations of the resource have one server name and path, then a named server, before the
-- certificates are added, has at each path the location that the resource has for the server and the path,
-- and where it has none, the one for the path without a server name, if any.
pub named_servers-locations :
    (spec : RpaasInstanceSpec) (servers : List Server) (s : String) (t : Server)
    → Distinct locations spec.locations
    → s ≢ ""
    → named_servers spec ≡ some servers
    → find by_server s servers ≡ some t
    → (p : String)
    → find by_location_path p t.locations ≡ elim (find locations (s, p) spec.locations) [
      | none ↦ find locations ("", p) spec.locations
      | some l ↦ some l
    ]
named_servers-locations spec servers s t d named e f = elim (Option-cases (started spec)) [
  | inl n ↦ absurd (none_some (named_servers-none spec n) e)
  | inr (first, b) ↦ placed-locations spec first s t d named (started-AreEmpty spec first b) (
      ap (λ l. find by_server s l) (some-injective (sym (named_servers-some spec first b) ∙ e)) ∙ f)
]
  where
    none_some : {o : Option (List Server)} → o ≡ none → o ≡ some servers → ⊥
    none_some a b = cc
