-- ===== src/Certificates.antt =====
-- internal/pkg/rpaas/certificates.go: the requests for certificates that cert-manager issues.
pub mod Laws
mod Tests
use rpaas_operator.Prelude.{
  String, Bool, true, false, not, ◌&&◌, List, [], ◌∷◌, ◌++◌, Option, none, some, ◌==◌, eq_iff,
  if◌then◌else◌, any, length, ltb, split, has_prefix, has_suffix, trim_prefix, find_index, set,
  nat_eq, cut, is_some,
}
use rpaas_operator.Prelude.Int.{ℤ, pos, ltb_ℤ}
use rpaas_operator.Prelude.Keyed.{Keyed, store}
use rpaas_operator.Errors.{validation, conflict, plain}
use rpaas_operator.Result.{Result, ok, err, ◌>>=◌, ◌>>◌, reject_if}
use rpaas_operator.Api.{CertManager, DynamicCertificates, RpaasInstance, StringMap}
use rpaas_operator.Client.{RpaasConfig}
use rpaas_operator.Labels.{label}
use rpaas_operator.Manager.{Manager, get_instance, is_api_missing}

-- pkg/rpaas/client/types/types.go: a request of the API.
pub record CertificateRequest : Type 0 where
  pub name : String
  pub issuer : String
  pub dns_names : List String
  pub ip_addresses : List String

abbrev pub allowed_dns_zones_annotation : String
allowed_dns_zones_annotation = "rpaas.extensions.tsuru.io/allowed-dns-zones"

abbrev pub max_dns_names_annotation : String
max_dns_names_annotation = "rpaas.extensions.tsuru.io/cert-manager-max-dns-names"

abbrev pub strict_names_annotation : String
strict_names_annotation = "rpaas.extensions.tsuru.io/cert-manager-strict-names"

abbrev pub max_ips_annotation : String
max_ips_annotation = "rpaas.extensions.tsuru.io/cert-manager-max-ips"

abbrev pub allow_wildcard_annotation : String
allow_wildcard_annotation = "rpaas.extensions.tsuru.io/cert-manager-allow-wildcard"

unfoldable pub issuer_or_default : RpaasConfig → String → String
issuer_or_default config issuer =
    if issuer == "" then config.default_cert_manager_issuer else issuer

-- Some suffix of the list is a suffix of the name.
abbrev pub has_allowed_suffix : List String → String → Bool
has_allowed_suffix suffixes want = any (λ suffix. has_suffix want suffix) suffixes

unfoldable pub are_dns_names_allowed : List String → List String → Result (Unit {0})
are_dns_names_allowed suffixes dns_names =
    reject_if (any (λ want. not (has_allowed_suffix suffixes want)) dns_names) (
      validation
        "there is some DNS name with forbidden suffix (invalid ones: %s - allowed DNS suffixes: %s)")

-- The number is set, and the length is more than it.
unfoldable pub is_exceeded : (String → ℤ) → String → List String → Bool
is_exceeded atoi maximum items = not (maximum == "") && ltb_ℤ (atoi maximum) (pos (length items))

unfoldable pub is_first_name : String → List String → Bool
is_first_name name [] = true
is_first_name name (d ∷ dns_names) = trim_prefix d "*." == name

-- What the annotations of the issuer ask of a request. `atoi` is the number that strconv.Atoi gives.
unfoldable pub check_request : (String → ℤ) → StringMap → CertificateRequest → Result (Unit {0})
unfolding are_dns_names_allowed is_exceeded is_first_name
check_request atoi annotations req = do
  let note = label annotations
  are_dns_names_allowed (split "," (note allowed_dns_zones_annotation)) req.dns_names
  reject_if (is_exceeded atoi (note max_dns_names_annotation) req.dns_names)
      (validation "maximum number of DNS names exceeded (maximum allowed: %d)")
  reject_if (is_exceeded atoi (note max_ips_annotation) req.ip_addresses)
      (validation "maximum number of IP Addresses exceeded (maximum allowed: %d)")
  reject_if (note strict_names_annotation == "true" && not (is_first_name req.name req.dns_names))
      (validation "the name of this certificate must be: %q")
  reject_if (note allow_wildcard_annotation == "false" && any (λ d. has_prefix d "*") req.dns_names)
      (validation "wildcard DNS names are not allowed on this issuer")

-- The stored requests, found by their name.
abbrev pub by_cert_name : Keyed String CertManager
by_cert_name = record {
  key = λ r. r.name;
  test = λ k r. r.name == k;
  test_iff = λ k r. eq_iff r.name k;
}

-- A request with a name goes to the place of the stored one of that name; one without goes to the place
-- of the first stored one of the issuer that it names itself.
unfoldable pub store_request :
    CertificateRequest → CertManager → List CertManager → List CertManager
store_request req new stored =
    if req.name == ""
    then elim (find_index (λ r. r.issuer == req.issuer) stored) [
      | none ↦ stored ++ new ∷ []
      | some index ↦ set stored index new
    ]
    else store by_cert_name new stored

-- `CertManager`, which older versions wrote, is dropped if it is of the issuer.
unfoldable pub drop_old : String → Option CertManager → Option CertManager
drop_old issuer none = none
drop_old issuer (some old) = if old.issuer == issuer then none else some old

abbrev pub dynamic_certificates_of : Option DynamicCertificates → DynamicCertificates
dynamic_certificates_of none = record { cert_manager = none; cert_manager_requests = [] }
dynamic_certificates_of (some d) = d

-- The client's reads of issuers are parameters. Each gives the annotations: of an Issuer by namespace and
-- name, of a ClusterIssuer by name, and of another resource by group, kind, namespace and name.
pub record Issuers : Type 0 where
  pub issuer : String → String → Result StringMap
  pub cluster_issuer : String → Result StringMap
  pub custom : String → String → String → String → Result StringMap

-- `<resource name>.<resource kind>.<resource group>`, as strings.SplitN cuts it into three.
unfoldable pub get_custom_issuer_metadata : Issuers → String → String → Result StringMap
get_custom_issuer_metadata issuers namespace issuer = elim (cut "." issuer) [
  | none ↦ err (plain "missing information to retrieve custom Cert Manager issuer")
  | some (name, rest) ↦ elim (cut "." rest) [
    | none ↦ err (plain "missing information to retrieve custom Cert Manager issuer")
    | some (kind, group) ↦ issuers.custom group kind namespace name
  ]
]

-- What the read of the ClusterIssuer gives: an error other than a missing object leaves the empty
-- annotations of the zero value.
unfoldable pub cluster_issuer_metadata : Result StringMap → Result StringMap
cluster_issuer_metadata (ok annotations) = ok annotations
cluster_issuer_metadata (err e) =
    if is_api_missing e
    then err (plain "there is no Issuer or ClusterIssuer with %q name")
    else ok []

unfoldable pub issuer_metadata : Result StringMap → Result StringMap → Result StringMap
unfolding cluster_issuer_metadata
issuer_metadata (ok annotations) in_cluster = ok annotations
issuer_metadata (err e) in_cluster =
    if is_api_missing e then cluster_issuer_metadata in_cluster else err e

unfoldable pub get_issuer_metadata : Issuers → String → String → Result StringMap
unfolding issuer_metadata get_custom_issuer_metadata
get_issuer_metadata issuers namespace name =
    if is_some (cut "." name)
    then get_custom_issuer_metadata issuers namespace name
    else issuer_metadata (issuers.issuer namespace name) (issuers.cluster_issuer name)

-- What UpdateCertManagerRequest does to the instance that it has read.
unfoldable pub with_request :
    RpaasConfig → (String → ℤ) → Issuers → CertificateRequest → RpaasInstance → Result RpaasInstance
unfolding issuer_or_default check_request store_request drop_old get_issuer_metadata
with_request config atoi issuers req i = do
  let issuer = issuer_or_default config req.issuer
  let dynamic = dynamic_certificates_of i.spec.dynamic_certificates
  reject_if (issuer == "") (validation "Cert Manager issuer cannot be empty")
  reject_if (nat_eq (length req.dns_names) 0 && nat_eq (length req.ip_addresses) 0)
      (validation "you should provide a list of DNS names or IP addresses")
  annotations ← get_issuer_metadata issuers i.namespace issuer
  check_request atoi annotations req
  let new : CertManager = record {
    name = req.name;
    issuer = issuer;
    dns_names = req.dns_names;
    ip_addresses = req.ip_addresses;
    dns_names_default = false;
  }
  let changed : DynamicCertificates = record {
    cert_manager = drop_old issuer dynamic.cert_manager;
    cert_manager_requests = store_request req new dynamic.cert_manager_requests;
  }
  ok (record i { spec = record (i.spec) { dynamic_certificates = some changed } })

module _ (m : Manager) where
  unfoldable pub update_cert_manager_request :
      (String → ℤ)
      → Issuers
      → String
      → CertificateRequest
      → m.cli.World
      → Result (Unit {0}) × m.cli.World
  unfolding with_request
  update_cert_manager_request atoi issuers instance_name req w =
      if m.config.enable_cert_manager
      then elim (get_instance m instance_name w) [
        | err e ↦ (err e, w)
        | ok i ↦ elim (with_request m.config atoi issuers req i) [
          | err e ↦ (err e, w)
          | ok j ↦ m.cli.update j w
        ]
      ]
      else (err (conflict "Cert Manager integration not enabled"), w)
