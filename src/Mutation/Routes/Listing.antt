-- ===== src/Mutation/Routes/Listing.antt =====
-- What GetRoutes lists after UpdateRoute.
use mathlib.Core.Path.{subst}
use rpaas_operator.Prelude.{
  String, ◌≡◌, ◌↔◌, inl, inr, sym, ap, ◌∙◌, Bool, true, false, ◌&&◌, List, [], ◌∷◌, some, arith,
  eq_iff, ◌==◌, if◌then◌else◌, Bool-cases,
}
use rpaas_operator.Prelude.Keyed.{Keyed, find, store}
use rpaas_operator.Prelude.Keyed.Laws.{store-cons, test_key}
use rpaas_operator.Result.{ok, >>=-eq-ok}
use rpaas_operator.Api.{Location, RpaasInstanceSpec}
use rpaas_operator.Client.{RpaasConfig}
use rpaas_operator.Values.{ConfigMaps, get_value}
use rpaas_operator.Mutation.Routes.{
  Route, locations, is_location, location_of, update_route, list_routes, location_content,
}
use rpaas_operator.Mutation.Routes.Laws.{IsRouteValid, update_route-ok}

-- A listed route, by its server name and path.
abbrev is_route : String × String → Route → Bool
is_route k r = r.server_name == k.0 && r.path == k.1

pub is_route_iff :
    (k : String × String) (r : Route) → (is_route k r ≡ true) ↔ ((r.server_name, r.path) ≡ k)
is_route_iff (server_name, path) r =
    ground (arith, eq_iff r.server_name server_name, eq_iff r.path path)

abbrev pub routes : Keyed (String × String) Route
routes = record { key = λ r. (r.server_name, r.path); test = is_route; test_iff = is_route_iff }

module _ (maps : ConfigMaps) (namespace : String) where
  abbrev route_of : Location → String → Route
  route_of l content = record {
    server_name = l.server_name;
    path = l.path;
    destination = l.destination;
    content = content;
    https_only = l.force_https;
  }

  list_routes-cons :
      (l : Location) (rest : List Location) (rs : List Route)
      → list_routes maps namespace (l ∷ rest) ≡ ok rs
      → (content : String) × (later : List Route) × (location_content maps namespace l.content
          ≡ ok content)
        × (list_routes maps namespace rest ≡ ok later)
        × (rs
            ≡ (if l.destination == "" && content == "" then later else route_of l content ∷ later))
  unfolding list_routes
  list_routes-cons l rest rs h =
      let (content, c, h₁) = >>=-eq-ok (location_content maps namespace l.content) _ h in
      let (later, t, h₂) = >>=-eq-ok (list_routes maps namespace rest) _ h₁ in
      (content, later, c, t, cc)

  -- The route of a valid request is listed as it was given.
  content_of_route :
      (config : RpaasConfig) (r : Route)
      → IsRouteValid config r
      → location_content maps namespace (location_of r).content ≡ ok r.content
  unfolding location_content location_of
  content_of_route config r v = elim (Bool-cases (r.content == "")) [
    | inl e ↦ rw e (ap ok (sym ((eq_iff r.content "").0 e)))
    | inr e ↦ rw e (unfold get_value in rw e)
  ]

  is_listed :
      (config : RpaasConfig) (r : Route)
      → IsRouteValid config r
      → (r.destination == "" && r.content == "") ≡ false
  is_listed config r v = ground (arith, eq_iff r.content "", eq_iff r.destination "")

  -- A location is listed under its own server name and path, or left out.
  find-listed_ne :
      (k : String × String) (l : Location) (skipped : Bool) (content : String) (later : List Route)
      → is_location k l ≡ false
      → find routes k (if skipped then later else route_of l content ∷ later) ≡ find routes k later
  unfolding find
  find-listed_ne k l skipped content later other = ground arith

  find-list_routes_head :
      (config : RpaasConfig) (r : Route) (ls : List Location) (rs : List Route)
      → IsRouteValid config r
      → list_routes maps namespace (location_of r ∷ ls) ≡ ok rs
      → find routes (r.server_name, r.path) rs ≡ some r
  unfolding find location_of
  find-list_routes_head config r ls rs v h =
      let (content, later, c, t, same) = list_routes-cons (location_of r) ls rs h in
      let read : content ≡ r.content = cc (content_of_route config r v, c) in
      rw same (rw read (rw (is_listed config r v) (rw (test_key routes r))))

  find-list_routes :
      (config : RpaasConfig) (r : Route) (ls : List Location) (rs : List Route)
      → IsRouteValid config r
      → list_routes maps namespace (store locations (location_of r) ls) ≡ ok rs
      → find routes (r.server_name, r.path) rs ≡ some r
  unfolding location_of
  find-list_routes config r [] rs v h = find-list_routes_head config r [] rs v (unfold store in h)
  find-list_routes config r (l ∷ ls) rs v h =
      elim (Bool-cases (is_location (r.server_name, r.path) l)) [
        | inl t ↦
            find-list_routes_head config r ls rs v
              (subst (λ x. list_routes maps namespace x ≡ ok rs) (overwrites t) h)
        | inr t ↦
            let (content, later, c, rest, same) =
              list_routes-cons l (store locations (location_of r) ls) rs
                (subst (λ x. list_routes maps namespace x ≡ ok rs) (keeps t) h) in
            rw same (
              find-listed_ne (r.server_name, r.path) l (l.destination == "" && content == "")
                content later t
              ∙ find-list_routes config r ls later v rest)
      ]
    where
      overwrites :
          is_location (r.server_name, r.path) l ≡ true
          → store locations (location_of r) (l ∷ ls) ≡ location_of r ∷ ls
      overwrites t = rw store-cons (rw t)

      keeps :
          is_location (r.server_name, r.path) l ≡ false
          → store locations (location_of r) (l ∷ ls) ≡ l ∷ store locations (location_of r) ls
      keeps t = rw store-cons (rw t)

-- A route that UpdateRoute accepted is listed as it was given, where the list of the routes can be
-- read.
pub list_routes-update_route :
    (maps : ConfigMaps) (namespace : String) (config : RpaasConfig) (r : Route)
    (s t : RpaasInstanceSpec) (rs : List Route)
    → update_route config r s ≡ ok t
    → list_routes maps namespace t.locations ≡ ok rs
    → find routes (r.server_name, r.path) rs ≡ some r
list_routes-update_route maps namespace config r s t rs h l =
    let (valid, same) = update_route-ok config r s t h in
    find-list_routes maps namespace config r s.locations rs valid
      (subst (λ t. list_routes maps namespace t.locations ≡ ok rs) same l)
