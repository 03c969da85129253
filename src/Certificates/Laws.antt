-- ===== src/Certificates/Laws.antt =====
-- What an accepted request for a certificate promises, and where it is stored.
use mathlib.Core.Path.{subst}
use rpaas_operator.Prelude.{
  String, ◌≡◌, ◌≢◌, inl, inr, refl, sym, ap, ◌∙◌, Bool, true, false, not, ◌&&◌, List, [], ◌∷◌, ◌++◌,
  none, some, arith, eq_iff, ◌==◌, any, length, nat_eq, contains, split, has_prefix, Bool-cases,
  clash, find_index,
}
use rpaas_operator.Prelude.Int.{ℤ, pos, ◌≤ℤ◌}
use rpaas_operator.Prelude.Keyed.{find, store}
use rpaas_operator.Prelude.Keyed.Laws.{find-store_self, find-store_ne}
use rpaas_operator.Errors.{Error}
use rpaas_operator.Result.{ok, >>=-eq-ok, reject_if, reject_if-eq-ok}
use rpaas_operator.Api.{CertManager, RpaasInstance, StringMap}
use rpaas_operator.Client.{RpaasConfig}
use rpaas_operator.Labels.{label}
use rpaas_operator.Certificates.{
  CertificateRequest, Issuers, issuer_or_default, has_allowed_suffix, are_dns_names_allowed,
  is_exceeded, is_first_name, check_request, by_cert_name, store_request, with_request,
  get_issuer_metadata, dynamic_certificates_of, allowed_dns_zones_annotation,
  max_dns_names_annotation, max_ips_annotation, strict_names_annotation, allow_wildcard_annotation,
}

abbrev pub requests : RpaasInstance → List CertManager
requests i = (dynamic_certificates_of i.spec.dynamic_certificates).cert_manager_requests

-- The request as it is stored, with the issuer that it resolves to.
abbrev pub stored_request : RpaasConfig → CertificateRequest → CertManager
stored_request config req = record {
  name = req.name;
  issuer = issuer_or_default config req.issuer;
  dns_names = req.dns_names;
  ip_addresses = req.ip_addresses;
  dns_names_default = false;
}

-- What the annotations of an issuer hold a request to.
pub record Keeps (atoi : String → ℤ) (annotations : StringMap) (req : CertificateRequest)
    : Type 0 where
  pub zones :
      (d : String)
      → contains req.dns_names d ≡ true
      → has_allowed_suffix (split "," (label annotations allowed_dns_zones_annotation)) d ≡ true
  pub dns_names :
      label annotations max_dns_names_annotation ≢ ""
      → pos (length req.dns_names) ≤ℤ atoi (label annotations max_dns_names_annotation)
  pub ips :
      label annotations max_ips_annotation ≢ ""
      → pos (length req.ip_addresses) ≤ℤ atoi (label annotations max_ips_annotation)
  pub strict :
      label annotations strict_names_annotation ≡ "true"
      → is_first_name req.name req.dns_names ≡ true
  pub wildcard :
      label annotations allow_wildcard_annotation ≡ "false"
      → (d : String) → contains req.dns_names d ≡ true
      → has_prefix d "*" ≡ false

-- No item of the list passes a test that none of them passes.
none_passes :
    (p : String → Bool) (ds : List String)
    → any p ds ≡ false
    → (d : String) → contains ds d ≡ true
    → p d ≡ false
none_passes p [] h d c = cc
none_passes p (e ∷ ds) h d c = elim (Bool-cases (e == d)) [
  | inl same ↦ subst (λ x. p x ≡ false) ((eq_iff e d).0 same) (ground (arith, h))
  | inr other ↦ none_passes p ds (ground (arith, h)) d (rw other at c)
]

within :
    (atoi : String → ℤ) (maximum : String) (items : List String)
    → is_exceeded atoi maximum items ≡ false
    → maximum ≢ ""
    → pos (length items) ≤ℤ atoi maximum
unfolding is_exceeded
within atoi maximum items h d = ground (arith, eq_iff maximum "")

passed : (wrong : Bool) (e : Error) {u : Unit {0}} → reject_if wrong e ≡ ok u → wrong ≡ false
passed true e h = cc
passed false e h = refl

check_request-Keeps :
    (atoi : String → ℤ) (annotations : StringMap) (req : CertificateRequest)
    → check_request atoi annotations req ≡ ok tt
    → Keeps atoi annotations req
unfolding check_request are_dns_names_allowed
check_request-Keeps atoi annotations req h =
    let note = label annotations in
    let zones = split "," (note allowed_dns_zones_annotation) in
    let (u, h₀, h₁) = >>=-eq-ok (are_dns_names_allowed zones req.dns_names) _ h in
    let (a, h₂) =
      reject_if-eq-ok (is_exceeded atoi (note max_dns_names_annotation) req.dns_names) _ _ h₁ in
    let (b, h₃) =
      reject_if-eq-ok (is_exceeded atoi (note max_ips_annotation) req.ip_addresses) _ _ h₂ in
    let (c, h₄) =
      reject_if-eq-ok
        (note strict_names_annotation == "true" && not (is_first_name req.name req.dns_names)) _ _
        h₃ in
    record {
      zones = λ d k. allowed (
          none_passes (λ want. not (has_allowed_suffix zones want)) req.dns_names (passed _ _ h₀) d
            k);
      dns_names = within atoi _ req.dns_names a;
      ips = within atoi _ req.ip_addresses b;
      strict = λ s. ground (arith, c, s, eq_iff (note strict_names_annotation) "true");
      wildcard = λ s.
          none_passes (λ d. has_prefix d "*") req.dns_names
            (ground (arith, passed _ _ h₄, s, eq_iff (note allow_wildcard_annotation) "false"));
    }
  where
    allowed : {b : Bool} → not b ≡ false → b ≡ true
    allowed h = ground (arith, h)

-- A successful UpdateCertManagerRequest names an issuer of which getIssuerMetadata returned annotations
-- without an error, and keeps to those; a request with a name is then the one stored under that name, and the stored requests
-- of other names are as before.
pub with_request-Keeps :
    (config : RpaasConfig) (atoi : String → ℤ) (issuers : Issuers) (req : CertificateRequest)
    (i j : RpaasInstance)
    → with_request config atoi issuers req i ≡ ok j
    → (issuer_or_default config req.issuer ≢ "")
      × ((annotations : StringMap) × (get_issuer_metadata issuers i.namespace
              (issuer_or_default config req.issuer)
            ≡ ok annotations)
          × Keeps atoi annotations req)
      × (req.name ≢ ""
          → (find by_cert_name req.name (requests j) ≡ some (stored_request config req))
            × ((k : String)
                → k ≢ req.name
                → find by_cert_name k (requests j) ≡ find by_cert_name k (requests i)))
unfolding with_request
with_request-Keeps config atoi issuers req i j h =
    let issuer = issuer_or_default config req.issuer in
    let (named, h₁) = reject_if-eq-ok (issuer == "") _ _ h in
    let (_, h₂) =
      reject_if-eq-ok (nat_eq (length req.dns_names) 0 && nat_eq (length req.ip_addresses) 0) _ _
        h₁ in
    let (annotations, read, h₃) = >>=-eq-ok (get_issuer_metadata issuers i.namespace issuer) _ h₂ in
    let (u, kept, h₄) = >>=-eq-ok (check_request atoi annotations req) _ h₃ in
    let now : store_request req (stored_request config req) (requests i) ≡ requests j = cc in
    (
      λ e. clash named ((eq_iff issuer "").1 e),
      (annotations, read, check_request-Keeps atoi annotations req kept),
      λ d.
          subst
            (λ l.
              (find by_cert_name req.name l ≡ some (stored_request config req))
              × ((k : String)
                  → k ≢ req.name
                  → find by_cert_name k l ≡ find by_cert_name k (requests i)))
            (sym (by_name d) ∙ now)
            (
              find-store_self by_cert_name (stored_request config req) (requests i),
              λ k other.
                  find-store_ne by_cert_name k (stored_request config req) (requests i) other,
            ),
    )
  where
    by_name :
        req.name ≢ ""
        → store_request req (stored_request config req) (requests i)
          ≡ store by_cert_name (stored_request config req) (requests i)
    by_name d = unfold store_request in ground (arith, eq_iff req.name "", d)

-- What a request that passed was held to, and where it is stored.
with_request-requests :
    (config : RpaasConfig) (atoi : String → ℤ) (issuers : Issuers) (req : CertificateRequest)
    (i j : RpaasInstance)
    → with_request config atoi issuers req i ≡ ok j
    → (issuer_or_default config req.issuer ≢ "")
      × (requests j ≡ store_request req (stored_request config req) (requests i))
unfolding with_request
with_request-requests config atoi issuers req i j h =
    let issuer = issuer_or_default config req.issuer in
    let (named, h₁) = reject_if-eq-ok (issuer == "") _ _ h in
    let (_, h₂) =
      reject_if-eq-ok (nat_eq (length req.dns_names) 0 && nat_eq (length req.ip_addresses) 0) _ _
        h₁ in
    let (annotations, read, h₃) = >>=-eq-ok (get_issuer_metadata issuers i.namespace issuer) _ h₂ in
    let (u, kept, h₄) = >>=-eq-ok (check_request atoi annotations req) _ h₃ in
    let now : store_request req (stored_request config req) (requests i) ≡ requests j = cc in
    (λ e. clash named ((eq_iff issuer "").1 e), sym now)

-- Every stored request names an issuer.
abbrev pub AreIssuersNamed : List CertManager → Type 0
AreIssuersNamed stored = any (λ r. r.issuer == "") stored ≡ false

store_request-appends :
    (req : CertificateRequest) (new : CertManager) (stored : List CertManager)
    → req.name ≡ ""
    → req.issuer ≡ ""
    → AreIssuersNamed stored
    → store_request req new stored ≡ stored ++ new ∷ []
unfolding store_request
store_request-appends req new stored n d h = rw ((eq_iff req.name "").1 n) (
    rw (
      subst (λ issuer. find_index (λ r. r.issuer == issuer) stored ≡ none) (sym d)
        (nowhere stored h)))
  where
    nowhere :
        (stored : List CertManager)
        → AreIssuersNamed stored
        → find_index (λ r. r.issuer == "") stored ≡ none
    nowhere [] h = refl
    nowhere (r ∷ stored) h = ground (arith, nowhere stored, h)

named-append :
    (stored : List CertManager) (new : CertManager)
    → AreIssuersNamed stored
    → new.issuer ≢ ""
    → AreIssuersNamed (stored ++ new ∷ [])
named-append [] new h d = ground (arith, eq_iff new.issuer "", d)
named-append (r ∷ stored) new h d = ground (arith, h, named-append stored new)

-- A request with no name, for the default issuer, is stored a second time if it is sent again: it does not
-- take the place of the first one. The requests stored before all name an issuer, as every request that
-- this method stores does.
pub with_request-twice :
    (config : RpaasConfig) (atoi : String → ℤ) (issuers : Issuers) (req : CertificateRequest)
    (i j k : RpaasInstance)
    → req.name ≡ ""
    → req.issuer ≡ ""
    → AreIssuersNamed (requests i)
    → with_request config atoi issuers req i ≡ ok j
    → with_request config atoi issuers req j ≡ ok k
    → requests k ≡ (requests i ++ stored_request config req ∷ []) ++ stored_request config req ∷ []
with_request-twice config atoi issuers req i j k n d named first second =
    let new = stored_request config req in
    let (issued, stored) = with_request-requests config atoi issuers req i j first in
    let (_, again) = with_request-requests config atoi issuers req j k second in
    let once = stored ∙ store_request-appends req new (requests i) n d named in
    let held : AreIssuersNamed (requests j) =
      subst AreIssuersNamed (sym once) (named-append (requests i) new named issued) in
    again ∙ store_request-appends req new (requests j) n d held ∙ ap (λ l. l ++ new ∷ []) once
