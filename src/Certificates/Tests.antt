-- ===== src/Certificates/Tests.antt =====
-- Runs of the certificate requests, and the theorems at concrete inputs.
use rpaas_operator.Prelude.{
  String, ◌≡◌, ◌≢◌, refl, Bool, true, false, List, [], ◌∷◌, ◌++◌, none, some, split, has_suffix,
  has_prefix, trim_prefix, cut,
}
use rpaas_operator.Prelude.Int.{ℤ, pos}
use rpaas_operator.Prelude.Keyed.{find, store}
use rpaas_operator.Errors.{validation, api, is_missing, other_reason}
use rpaas_operator.Result.{ok, err}
use rpaas_operator.Api.{CertManager, RpaasInstance, StringMap}
use rpaas_operator.Client.{RpaasConfig}
use rpaas_operator.Labels.{label}
use rpaas_operator.Samples.{empty_spec, instance_with, web, plain_config}
use rpaas_operator.Certificates.{
  CertificateRequest, Issuers, issuer_or_default, are_dns_names_allowed, is_exceeded, is_first_name,
  check_request, by_cert_name, store_request, drop_old, with_request, get_issuer_metadata,
  issuer_metadata, cluster_issuer_metadata,
}
use rpaas_operator.Certificates.Laws.{
  Keeps, requests, stored_request, with_request-Keeps, with_request-twice,
}

-- A reader of numbers that knows one of them.
abbrev atoi : String → ℤ
atoi s = rpaas_operator.Prelude.if◌then◌else◌ (text.Mathlib.Text.◌==◌ s "2") (pos 2) (pos 0)

abbrev config : RpaasConfig
config = record plain_config { default_cert_manager_issuer = "lets-encrypt" }

abbrev zones : StringMap
zones =
    ("rpaas.extensions.tsuru.io/allowed-dns-zones", ".example.org,.example.com")
    ∷ ("rpaas.extensions.tsuru.io/cert-manager-max-dns-names", "2")
    ∷ []

-- No Issuer, one ClusterIssuer.
abbrev issuers : Issuers
issuers = record {
  issuer = λ namespace name. err (api is_missing);
  cluster_issuer = λ name. ok zones;
  custom = λ group kind namespace name. err (api is_missing);
}

-- No Issuer, and a ClusterIssuer that cannot be read.
abbrev down : Issuers
down = record issuers { cluster_issuer = λ name. err (api other_reason) }

abbrev www : CertificateRequest
www = record { name = "www"; issuer = ""; dns_names = "www.example.org" ∷ []; ip_addresses = [] }

abbrev with_www : RpaasInstance
with_www = instance_with (record empty_spec {
  dynamic_certificates =
      some (record { cert_manager = none; cert_manager_requests = stored_request config www ∷ [] });
})

request_www : with_request config atoi issuers www web ≡ ok with_www
unfolding with_request get_issuer_metadata issuer_metadata cluster_issuer_metadata check_request
    are_dns_names_allowed is_exceeded is_first_name store_request drop_old store issuer_or_default
    label find split has_suffix has_prefix trim_prefix cut
request_www = refl

with_request-Keeps_example :
    (issuer_or_default config "" ≢ "")
    × ((annotations : StringMap) × (get_issuer_metadata issuers "rpaasv2"
            (issuer_or_default config "")
          ≡ ok annotations)
        × Keeps atoi annotations www)
    × (www.name ≢ ""
        → (find by_cert_name "www" (requests with_www) ≡ some (stored_request config www))
          × ((k : String)
              → k ≢ www.name
              → find by_cert_name k (requests with_www) ≡ find by_cert_name k (requests web)))
with_request-Keeps_example = with_request-Keeps config atoi issuers www web with_www request_www

abbrev unnamed : CertificateRequest
unnamed = record www { name = "" }

abbrev with_unnamed : List CertManager → RpaasInstance
with_unnamed stored = instance_with (record empty_spec {
  dynamic_certificates = some (record { cert_manager = none; cert_manager_requests = stored });
})

abbrev again : CertManager
again = stored_request config unnamed

request_once : with_request config atoi issuers unnamed web ≡ ok (with_unnamed (again ∷ []))
unfolding with_request get_issuer_metadata issuer_metadata cluster_issuer_metadata check_request
    are_dns_names_allowed is_exceeded is_first_name store_request drop_old store issuer_or_default
    label find split has_suffix has_prefix trim_prefix cut
request_once = refl

request_twice :
    with_request config atoi issuers unnamed (with_unnamed (again ∷ []))
    ≡ ok (with_unnamed (again ∷ again ∷ []))
unfolding with_request get_issuer_metadata issuer_metadata cluster_issuer_metadata check_request
    are_dns_names_allowed is_exceeded is_first_name store_request drop_old store issuer_or_default
    label find split has_suffix has_prefix trim_prefix cut
request_twice = refl

with_request-twice_example :
    requests (with_unnamed (again ∷ again ∷ [])) ≡ (requests web ++ again ∷ []) ++ again ∷ []
with_request-twice_example =
    with_request-twice config atoi issuers unnamed web (with_unnamed (again ∷ []))
      (with_unnamed (again ∷ again ∷ [])) refl refl refl request_once request_twice

-- A name outside of the zones is refused where the ClusterIssuer can be read, and accepted where not.
abbrev outside : CertificateRequest
outside = record www { dns_names = "www.example.net" ∷ [] }

outside_refused :
    with_request config atoi issuers outside web
    ≡ err (
        validation
          "there is some DNS name with forbidden suffix (invalid ones: %s - allowed DNS suffixes: %s)")
unfolding with_request get_issuer_metadata issuer_metadata cluster_issuer_metadata check_request
    are_dns_names_allowed issuer_or_default label find split has_suffix cut
outside_refused = refl
