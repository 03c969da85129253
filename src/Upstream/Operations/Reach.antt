-- ===== src/Upstream/Operations/Reach.antt =====
-- Histories of calls to the manager, failed ones included.
use rpaas_operator.Prelude.{String, ◌≡◌, List, [], ◌∷◌, ap}
use rpaas_operator.Result.{ok}
use rpaas_operator.Api.{RpaasInstance}
use rpaas_operator.Client.{ClientLaws}
use rpaas_operator.Manager.{Manager, get_instance}
use rpaas_operator.Manager.Frame.{KeepsKey, modify-keeps}
use rpaas_operator.Upstream.Options.{UpstreamOptionsArgs}
use rpaas_operator.Upstream.Invariant.{IsWellFormed}
use rpaas_operator.Upstream.Operations.{
  with_upstream_options, without_upstream_options, ensure_upstream_options, delete_upstream_options,
}
use rpaas_operator.Upstream.Operations.Effect.{
  with_upstream_options-ok, with_upstream_options-IsWellFormed,
}
use rpaas_operator.Upstream.Operations.Delete.{
  without_upstream_options-IsWellFormed, without_upstream_options-key,
}

-- A request to the API for the upstream options of one instance.
pub data OptionsCall : Type 0 where
  ensure : UpstreamOptionsArgs → OptionsCall
  delete : String → OptionsCall

with_upstream_options-key : (args : UpstreamOptionsArgs) → KeepsKey (with_upstream_options args)
with_upstream_options-key args i j h =
    let (_, same) = with_upstream_options-ok args i j h in
    (ap (λ (k : RpaasInstance). k.namespace) same, ap (λ (k : RpaasInstance). k.name) same)

module _ (m : Manager) (name : String) where
  unfoldable pub serve : List OptionsCall → m.cli.World → m.cli.World
  unfolding ensure_upstream_options delete_upstream_options
  serve [] w = w
  serve (ensure args ∷ calls) w = serve calls (ensure_upstream_options m name args w).1
  serve (delete primary ∷ calls) w = serve calls (delete_upstream_options m name primary w).1

  -- Whatever calls are made, in whatever order, and whether they succeed or not: an instance whose
  -- upstream options are well-formed is still found afterwards, with well-formed options.
  pub serve-IsWellFormed :
      ClientLaws m.cli
      → (calls : List OptionsCall) (w : m.cli.World) (i : RpaasInstance)
      → get_instance m name w ≡ ok i
      → IsWellFormed i.spec.upstream_options
      → (k : RpaasInstance) × (get_instance m name (serve calls w) ≡ ok k)
        × IsWellFormed k.spec.upstream_options
  unfolding serve
  serve-IsWellFormed laws [] w i h s = (i, h, s)
  serve-IsWellFormed laws (ensure args ∷ calls) w i h s =
      let (k, now, t) =
        modify-keeps m laws name (with_upstream_options args) w
          {P = λ j. IsWellFormed j.spec.upstream_options} i (with_upstream_options-key args)
          (λ j r. with_upstream_options-IsWellFormed args i j r s) s h in
      serve-IsWellFormed laws calls _ k now t
  serve-IsWellFormed laws (delete primary ∷ calls) w i h s =
      let (k, now, t) =
        modify-keeps m laws name (without_upstream_options primary) w
          {P = λ j. IsWellFormed j.spec.upstream_options} i (without_upstream_options-key primary)
          (λ j r. without_upstream_options-IsWellFormed primary i j r s) s h in
      serve-IsWellFormed laws calls _ k now t
