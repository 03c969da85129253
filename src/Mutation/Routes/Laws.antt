-- ===== src/Mutation/Routes/Laws.antt =====
-- What UpdateRoute accepts, what it and DeleteRoute do to the routes, and what GetRoutes then lists.
use mathlib.Core.Path.{subst}
use rpaas_operator.Prelude.{
  String, ◌≡◌, ◌≢◌, ◌↔◌, ◌⊎◌, inl, inr, refl, sym, true, false, List, none, some, arith, eq_iff,
  Option-cases, is_some, has_prefix,
}
use rpaas_operator.Prelude.Keyed.{find, store, remove, Distinct}
use rpaas_operator.Prelude.Keyed.Laws.{
  find-store_self, find-store_ne, find-remove_self, find-remove_ne, remove-none_iff,
}
use rpaas_operator.Result.{ok, is_ok, >>=-eq-ok}
use rpaas_operator.Api.{Location, RpaasInstanceSpec}
use rpaas_operator.Client.{RpaasConfig}
use rpaas_operator.Mutation.Blocks.Checks.{is_denied, validate_content-is_ok}
use rpaas_operator.Mutation.Routes.{
  Route, locations, location_of, validate_route, update_route, delete_route,
}

abbrev pub IsRouteValid : RpaasConfig → Route → Type 0
IsRouteValid config r =
    (has_prefix r.path "/" ≡ true)
    × (((r.content ≡ "") × (r.destination ≢ ""))
        ⊎ ((r.content ≢ "")
            × (r.destination ≡ "")
            × (r.https_only ≡ false)
            × (is_denied config.config_deny_patterns r.content ≡ false)))

-- validateRoute accepts a route exactly if its path starts with a slash, and it has either a
-- destination and no content, or a content that passes the deny patterns, no destination, and no
-- redirection to https.
pub validate_route_iff :
    (config : RpaasConfig) (r : Route)
    → (is_ok (validate_route config r) ≡ true) ↔ IsRouteValid config r
unfolding validate_route
validate_route_iff config r = ground (
  arith,
  eq_iff r.content "",
  eq_iff r.destination "",
  eq_iff r.path "",
  empty_path,
  validate_content-is_ok config.config_deny_patterns r.content,
)
  where
    empty_path : r.path ≡ "" → has_prefix r.path "/" ≡ false
    empty_path e = rw e (unfold has_prefix in refl)

pub update_route-ok :
    (config : RpaasConfig) (r : Route) (s t : RpaasInstanceSpec)
    → update_route config r s ≡ ok t
    → IsRouteValid config r
      × (t ≡ record s { locations = store locations (location_of r) s.locations })
unfolding update_route
update_route-ok config r s t h =
    let (u, valid, rest) = >>=-eq-ok (validate_route config r) _ h in
    ((validate_route_iff config r).0 (rw valid), ground arith)

-- After a successful UpdateRoute the route's location stands under its server name and path, every
-- other location is as before, and so is the rest of the spec.
pub update_route-effect :
    (config : RpaasConfig) (r : Route) (s t : RpaasInstanceSpec)
    → update_route config r s ≡ ok t
    → (find locations (r.server_name, r.path) t.locations ≡ some (location_of r))
      × ((k : String × String)
          → k ≢ (r.server_name, r.path)
          → find locations k t.locations ≡ find locations k s.locations)
      × (t ≡ record s { locations = t.locations })
unfolding location_of
update_route-effect config r s t h =
    let (_, same) = update_route-ok config r s t h in
    subst
      (λ t.
        (find locations (r.server_name, r.path) t.locations ≡ some (location_of r))
        × ((k : String × String)
            → k ≢ (r.server_name, r.path)
            → find locations k t.locations ≡ find locations k s.locations)
        × (t ≡ record s { locations = t.locations }))
      (sym same)
      (
        find-store_self locations (location_of r) s.locations,
        λ k d. find-store_ne locations k (location_of r) s.locations d,
        refl,
      )

-- What is taken out is the first location of the path.
pub delete_route-ok :
    (server_name path : String) (s t : RpaasInstanceSpec)
    → delete_route server_name path s ≡ ok t
    → (rest : List Location) × (remove locations (server_name, path) s.locations ≡ some rest)
      × (t ≡ record s { locations = rest })
unfolding delete_route
delete_route-ok server_name path s t h =
    elim (Option-cases (remove locations (server_name, path) s.locations)) [
      | inl n ↦ cc (rw (n, delete_route) at h)
      | inr (rest, r) ↦ (rest, r, cc (rw (r, delete_route) at h))
    ]

-- A successful DeleteRoute leaves no location of the path, every other location as before, and so the
-- rest of the spec, if no two locations have one server name and path.
pub delete_route-effect :
    (server_name path : String) (s t : RpaasInstanceSpec)
    → delete_route server_name path s ≡ ok t
    → Distinct locations s.locations
    → (find locations (server_name, path) t.locations ≡ none)
      × ((k : String × String)
          → k ≢ (server_name, path)
          → find locations k t.locations ≡ find locations k s.locations)
      × (t ≡ record s { locations = t.locations })
delete_route-effect server_name path s t h d =
    let (rest, r, same) = delete_route-ok server_name path s t h in
    subst
      (λ t.
        (find locations (server_name, path) t.locations ≡ none)
        × ((k : String × String)
            → k ≢ (server_name, path)
            → find locations k t.locations ≡ find locations k s.locations)
        × (t ≡ record s { locations = t.locations }))
      (sym same)
      (
        find-remove_self locations (server_name, path) s.locations rest d r,
        λ k ne. find-remove_ne locations k (server_name, path) s.locations rest ne r,
        refl,
      )

-- DeleteRoute is refused exactly where there is no such location.
pub delete_route-is_ok :
    (server_name path : String) (s : RpaasInstanceSpec)
    → is_ok (delete_route server_name path s)
      ≡ is_some (find locations (server_name, path) s.locations)
unfolding delete_route
delete_route-is_ok server_name path s =
    ground (arith, remove-none_iff locations (server_name, path) s.locations)
