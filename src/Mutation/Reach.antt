-- ===== src/Mutation/Reach.antt =====
-- Histories of calls that change blocks, routes and binds, failed ones included.
use mathlib.Core.Path.{subst}
use rpaas_operator.Prelude.{String, Bool, ◌≡◌, refl, sym, List, [], ◌∷◌}
use rpaas_operator.Result.{Result, ok}
use rpaas_operator.Api.{RpaasInstance}
use rpaas_operator.Client.{ClientLaws}
use rpaas_operator.Manager.{Manager, get_instance, modify}
use rpaas_operator.Manager.Frame.{KeepsKey, modify-keeps}
use rpaas_operator.Mutation.{in_spec, in_spec-ok, in_spec-key}
use rpaas_operator.Mutation.Blocks.{
  ConfigurationBlock, update_block, delete_block, manager_update_block, manager_delete_block,
}
use rpaas_operator.Mutation.Routes.{
  Route, update_route, delete_route, manager_update_route, manager_delete_route,
}
use rpaas_operator.Mutation.Binds.{
  BindAppArgs, Url, bind_app_to, unbind_app, manager_bind_app, manager_unbind_app,
}
use rpaas_operator.Mutation.Invariant.{
  IsWellFormed, update_block-IsWellFormed, delete_block-IsWellFormed, update_route-IsWellFormed,
  delete_route-IsWellFormed, bind_app-IsWellFormed, unbind_app-IsWellFormed,
}

-- A request to the API that changes the spec of one instance.
pub data MutationCall : Type 0 where
  set_block : ConfigurationBlock → MutationCall
  cut_block : String → String → MutationCall
  set_route : Route → MutationCall
  cut_route : String → String → MutationCall
  bind : BindAppArgs → MutationCall
  unbind : String → MutationCall

module _ (is_domain : String → Bool) (parse : String → Result Url) (m : Manager)
    (name : String) where
  change : MutationCall → RpaasInstance → Result RpaasInstance
  change (set_block block) = in_spec (update_block is_domain m.config block)
  change (cut_block server_name block_name) = in_spec (delete_block server_name block_name)
  change (set_route route) = in_spec (update_route m.config route)
  change (cut_route server_name path) = in_spec (delete_route server_name path)
  change (bind args) = bind_app_to parse args
  change (unbind app_name) = in_spec (unbind_app app_name)

  -- The manager's method for the request.
  unfoldable pub request : MutationCall → m.cli.World → Result (Unit {0}) × m.cli.World
  request (set_block block) = manager_update_block m is_domain name block
  request (cut_block server_name block_name) = manager_delete_block m name server_name block_name
  request (set_route route) = manager_update_route m name route
  request (cut_route server_name path) = manager_delete_route m name server_name path
  request (bind args) = manager_bind_app m parse name args
  request (unbind app_name) = manager_unbind_app m name app_name

  unfoldable pub serve_all : List MutationCall → m.cli.World → m.cli.World
  unfolding request
  serve_all [] w = w
  serve_all (c ∷ calls) w = serve_all calls (request c w).1

  request-modify : (c : MutationCall) (w : m.cli.World) → request c w ≡ modify m name (change c) w
  unfolding request change manager_update_block manager_delete_block manager_update_route
      manager_delete_route manager_bind_app manager_unbind_app
  request-modify (set_block block) w = refl
  request-modify (cut_block server_name block_name) w = refl
  request-modify (set_route route) w = refl
  request-modify (cut_route server_name path) w = refl
  request-modify (bind args) w = refl
  request-modify (unbind app_name) w = refl

  change-key : (c : MutationCall) → KeepsKey (change c)
  unfolding change bind_app_to
  change-key (set_block block) i j h = in_spec-key _ i j h
  change-key (cut_block server_name block_name) i j h = in_spec-key _ i j h
  change-key (set_route route) i j h = in_spec-key _ i j h
  change-key (cut_route server_name path) i j h = in_spec-key _ i j h
  change-key (bind args) i j h = in_spec-key _ i j h
  change-key (unbind app_name) i j h = in_spec-key _ i j h

  change-IsWellFormed :
      (c : MutationCall) (i j : RpaasInstance)
      → change c i ≡ ok j
      → IsWellFormed i.spec
      → IsWellFormed j.spec
  unfolding change bind_app_to
  change-IsWellFormed (set_block block) i j h =
      update_block-IsWellFormed is_domain m.config block i.spec j.spec (in_spec-ok _ i j h).0
  change-IsWellFormed (cut_block server_name block_name) i j h =
      delete_block-IsWellFormed is_domain m.config server_name block_name i.spec j.spec
        (in_spec-ok _ i j h).0
  change-IsWellFormed (set_route route) i j h =
      update_route-IsWellFormed is_domain m.config route i.spec j.spec (in_spec-ok _ i j h).0
  change-IsWellFormed (cut_route server_name path) i j h =
      delete_route-IsWellFormed server_name path i.spec j.spec (in_spec-ok _ i j h).0
  change-IsWellFormed (bind args) i j h =
      bind_app-IsWellFormed parse args _ i.spec j.spec (in_spec-ok _ i j h).0
  change-IsWellFormed (unbind app_name) i j h =
      unbind_app-IsWellFormed app_name i.spec j.spec (in_spec-ok _ i j h).0

  -- Whatever requests are served, in whatever order, and whether they succeed or not: an instance
  -- whose blocks, routes and binds are well-formed is still found afterwards, and they still are.
  pub serve_all-IsWellFormed :
      ClientLaws m.cli
      → (calls : List MutationCall) (w : m.cli.World) (i : RpaasInstance)
      → get_instance m name w ≡ ok i
      → IsWellFormed i.spec
      → (k : RpaasInstance) × (get_instance m name (serve_all calls w) ≡ ok k) × IsWellFormed k.spec
  unfolding serve_all
  serve_all-IsWellFormed laws [] w i h s = (i, h, s)
  serve_all-IsWellFormed laws (c ∷ calls) w i h s =
      let (k, now, t) =
        modify-keeps m laws name (change c) w {P = λ j. IsWellFormed j.spec} i (change-key c)
          (λ j r. change-IsWellFormed c i j r s) s h in
      serve_all-IsWellFormed laws calls _ k
        (subst (λ r. get_instance m name r.1 ≡ ok k) (sym (request-modify c w)) now) t
