-- ===== src/Upstream/Tests.antt =====
-- Runs of the upstream operations, and the theorems at concrete inputs.
use rpaas_operator.Prelude.{◌≡◌, refl, [], ◌∷◌}
use rpaas_operator.Prelude.Int.{pos}
use rpaas_operator.Prelude.Keyed.{find, remove}
use rpaas_operator.Result.{ok}
use rpaas_operator.Api.{AllowedUpstream, RpaasInstance}
use rpaas_operator.Manager.{get_instance, modify}
use rpaas_operator.Samples.{single_laws, empty_spec, instance_with, web, manager}
use rpaas_operator.Upstream.{with_upstream, without_upstream, add_upstream, delete_upstream}
use rpaas_operator.Upstream.Allowed.{without_upstream-with_upstream, delete_upstream-add_upstream}

abbrev backend : AllowedUpstream
backend = record { host = "backend.example.org"; port = pos 8080 }

abbrev web_and_backend : RpaasInstance
web_and_backend = instance_with (record empty_spec { allowed_upstreams = backend ∷ [] })

add_backend : with_upstream backend web ≡ ok web_and_backend
unfolding with_upstream find
add_backend = refl

found_web : get_instance manager "web" web ≡ ok web
unfolding get_instance
found_web = refl

add_backend_served : add_upstream manager "web" backend web ≡ (ok tt, web_and_backend)
unfolding add_upstream modify get_instance with_upstream find
add_backend_served = refl

delete_upstream-add_upstream_example :
    get_instance manager "web"
      (delete_upstream manager "web" backend (add_upstream manager "web" backend web).1).1
    ≡ ok web
unfolding add_upstream delete_upstream modify get_instance with_upstream find without_upstream
    remove
delete_upstream-add_upstream_example =
    delete_upstream-add_upstream manager single_laws "web" backend web web web_and_backend refl refl
      refl refl

without_upstream-with_upstream_example : without_upstream backend web_and_backend ≡ ok web
without_upstream-with_upstream_example =
    without_upstream-with_upstream backend web web_and_backend add_backend
