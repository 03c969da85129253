-- ===== src/Instances/Tagged.antt =====
-- The address that an update takes from the tags of the request.
use Prim.Native.String
use rpaas_operator.Prelude.{String, ◌≡◌, ◌⊎◌, ap, ◌∙◌, List, [], ◌∷◌, ◌++◌, none, some}
use rpaas_operator.Prelude.Keyed.{find}
use rpaas_operator.Result.{ok}
use rpaas_operator.Api.{RpaasInstance, NginxService}
use rpaas_operator.Client.{ClientLaws}
use rpaas_operator.Manager.{Manager, get_instance}
use rpaas_operator.Parameters.{by_parameter, sort_strings, get_ip}
use rpaas_operator.Parameters.Tags.{HaveNone, get_ip-sort_strings}
use rpaas_operator.Plans.{Catalog}
use rpaas_operator.Instances.{UpdateInstanceArgs, Packages}
use rpaas_operator.Instances.Operations.{update_instance}
use rpaas_operator.Instances.Updated.{update_instance-IsUpdated}

module _ (packages : Packages) (m : Manager) (cat : Catalog m.cli.World) (laws : ClientLaws m.cli)
    (instance_name : String) (args : UpdateInstanceArgs) (w : m.cli.World) where
  -- If UpdateInstance returns no error, its request has no parameter `ip`, and only one of its tags starts
  -- with `ip:` or `ip=`, wherever it stands, then the next read finds the instance with what follows that as
  -- the address of its service.
  pub update_instance-tagged_ip :
      (i : RpaasInstance) (before after : List String) (v p : String)
      → get_instance m instance_name w ≡ ok i
      → (update_instance packages m cat instance_name args w).0 ≡ ok tt
      → find by_parameter "ip" args.parameters ≡ none
      → args.tags ≡ before ++ String.◌++◌ p v ∷ after
      → (p ≡ "ip:") ⊎ (p ≡ "ip=")
      → HaveNone ("ip:" ∷ "ip=" ∷ []) before
      → HaveNone ("ip:" ∷ "ip=" ∷ []) after
      → (j : RpaasInstance) × (s : NginxService) × (get_instance m instance_name
            (update_instance packages m cat instance_name args w).1
          ≡ ok j)
        × (j.spec.service ≡ some s)
        × (s.load_balancer_ip ≡ v)
  update_instance-tagged_ip i before after v p read done absent tags which free free' =
      let (j, now, valid, is) =
        update_instance-IsUpdated packages m cat laws instance_name args w i read done in
      let (s, there, ip) = is.ip in
      (
        j,
        s,
        now,
        there,
        ip
            ∙ ap (λ ts. get_ip args.parameters (sort_strings ts)) tags
            ∙ get_ip-sort_strings args.parameters before after v p which free free' absent,
      )
