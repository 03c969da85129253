-- ===== src/Purge.antt =====
-- internal/pkg/rpaas/nginx/manager.go, PurgeCache of internal/pkg/rpaas/k8s.go and internal/purge/cache.go:
-- how a path is purged from the caches of the nginx servers of an instance. Maps of headers are lists of
-- entries, and the extra headers of a request are walked in the order of their list, which for a Go map
-- is any order.
pub mod Laws
pub mod Pods
mod Tests
use Prim.Native.String
use rpaas_operator.Prelude.{
  ℕ, suc, String, ◌==◌, Bool, true, false, ◌||◌, List, [], ◌∷◌, ◌++◌, map, Option, none, some,
  has_prefix, itoa, nat_eq, if◌then◌else◌,
}
use rpaas_operator.Prelude.{eq_iff}
use rpaas_operator.Prelude.Int.{ℤ, pos, eqb_ℤ}
use rpaas_operator.Prelude.Keyed.{Keyed, find, store}
use rpaas_operator.Errors.{Error, plain, validation, not_found}
use rpaas_operator.Result.{Result, ok, err, and_then}
use rpaas_operator.Api.{StringMap}
use rpaas_operator.Labels.{by_label}

-- http.Header: a name and its values.
abbrev pub Header : Type 0
Header = String × List String

abbrev pub by_header : Keyed String Header
by_header = record { key = λ h. h.0; test = λ k h. h.0 == k; test_iff = λ k h. eq_iff h.0 k }

-- The HTTP client of net/http, which sends a GET request with some headers to a URL and gives the status
-- of the response, and the canonical form of a header's name (textproto).
pub record HttpClient (World : Type 0) : Type 0 where
  pub get : String → StringMap → World → Result ℕ × World
  pub canonical_key : String → String

-- PodStatus of internal/pkg/rpaas/manager.go
pub record PodStatus : Type 0 where
  pub running : Bool
  pub status : String
  pub address : String

pub record PurgeCacheArgs : Type 0 where
  pub path : String
  pub preserve_path : Bool
  pub extra_headers : List Header

pub record PurgeCacheBulkResult : Type 0 where
  pub path : String
  pub instances_purged : ℕ
  pub errors : List Error

-- The count of the pods that purged the path, and the errors of the others.
abbrev pub Purged : Type 0
Purged = ℕ × List Error

-- The purge of a path: what the `switch` on the status makes of a response.
unfoldable pub of_status : ℕ → Result Bool
of_status status =
    if nat_eq status 200
    then ok true
    else if nat_eq status 404
    then ok false
    else err (plain "cannot purge nginx cache - unexpected response from nginx server: %d")

unfoldable pub request_url : String → String → ℤ → String
request_url host path port =
    let the_port = if eqb_ℤ port (pos 0) then pos 8800 else port in
    String.◌++◌ "http://" (String.◌++◌ host (String.◌++◌ ":" (String.◌++◌ (itoa the_port) path)))

-- The separator before the path.
unfoldable pub separated : String → String
separated path = if has_prefix path "/" then path else String.◌++◌ "/" path

unfoldable pub scheme_path : String → String → String
unfolding separated
scheme_path scheme path = String.◌++◌ "/purge/" (String.◌++◌ scheme (separated path))

-- What one pod adds to the count and the errors.
unfoldable pub counted : Result Bool → Purged → Purged
counted (err e) (count, errors) = (count, errors ++ e ∷ [])
counted (ok status) (count, errors) = (if status then suc count else count, errors)

-- The status of a bulk response after some errors.
abbrev pub worse : ℕ → List Error → ℕ
worse status [] = status
worse status (e ∷ errors) = 500

module _ {World : Type 0} (client : HttpClient World) where
  -- `extraHeaders.Get(header)`
  unfoldable pub header_value : List Header → String → String
  unfolding find
  header_value headers name = elim (find by_header (client.canonical_key name) headers) [
    | some (_, value ∷ _) ↦ value
    | _ ↦ ""
  ]

  unfoldable pub purge_request : String → String → ℤ → StringMap → World → Result Bool × World
  unfolding of_status request_url
  purge_request host path port headers w =
      let (response, v) = client.get (request_url host path port) headers w in
      elim response [
        | err e ↦ (err (plain "cannot purge nginx cache - error requesting nginx server: %v"), v)
        | ok status ↦ (of_status status, v)
      ]

  -- The loop over the schemes.
  unfoldable pub purge_schemes :
      List String → String → String → ℤ → StringMap → Bool → World → Result Bool × World
  unfolding purge_request scheme_path
  purge_schemes [] host path port headers purged w = (ok purged, w)
  purge_schemes (scheme ∷ schemes) host path port headers purged w =
      and_then (purge_request host (scheme_path scheme path) port headers w)
        λ status v. purge_schemes schemes host path port headers (status || purged) v

  unfoldable pub purge : String → String → ℤ → Bool → StringMap → World → Result Bool × World
  unfolding purge_request purge_schemes separated
  purge host path port preserve_path headers w =
      if preserve_path
      then purge_request host (String.◌++◌ "/purge" (separated path)) port headers w
      else purge_schemes ("http" ∷ "https" ∷ []) host path port headers false w

  -- The loop over the extra headers that are left, with the map of headers so far and the status of the
  -- request before.
  unfoldable pub purge_each :
      List Header
      → List Header
      → String
      → String
      → ℤ
      → Bool
      → StringMap
      → Bool
      → World
      → Result Bool × World
  unfolding store purge header_value
  purge_each all [] host path port preserve_path headers status w = (ok status, w)
  purge_each all (h ∷ hs) host path port preserve_path headers status w =
      let now = store by_label (h.0, header_value all h.0) headers in
      and_then (purge host path port preserve_path now w)
        λ answered v. purge_each all hs host path port preserve_path now answered v

  -- The requests for one encoding.
  unfoldable pub purge_encoding :
      List Header → String → String → ℤ → Bool → StringMap → World → Result Bool × World
  unfolding purge purge_each
  purge_encoding [] host path port preserve_path headers w =
      purge host path port preserve_path headers w
  purge_encoding (h ∷ hs) host path port preserve_path headers w =
      purge_each (h ∷ hs) (h ∷ hs) host path port preserve_path headers false w

  unfoldable pub purge_encodings :
      List String → String → String → ℤ → Bool → List Header → Bool → World → Result Bool × World
  unfolding purge_encoding
  purge_encodings [] host path port preserve_path extra_headers purged w = (ok purged, w)
  purge_encodings (encoding ∷ encodings) host path port preserve_path extra_headers purged w =
      and_then
        (purge_encoding extra_headers host path port preserve_path
          (("Accept-Encoding", encoding) ∷ []) w)
        λ status v.
          purge_encodings encodings host path port preserve_path extra_headers (status || purged) v

  -- PurgeCache of the nginx manager.
  unfoldable pub purge_cache :
      String → String → ℤ → Bool → List Header → World → Result Bool × World
  unfolding purge_encodings
  purge_cache host path port preserve_path extra_headers w =
      purge_encodings ("gzip" ∷ "identity" ∷ []) host path port preserve_path extra_headers false w

  -- The loop over the pods.
  unfoldable pub purge_pods : List PodStatus → ℤ → PurgeCacheArgs → Purged → World → Purged × World
  unfolding purge_cache counted
  purge_pods [] port args purged w = (purged, w)
  purge_pods (pod ∷ pods) port args purged w =
      let skipped = purge_pods pods port args purged w in
      let (r, v) = purge_cache pod.address args.path port args.preserve_path args.extra_headers w in
      let visited = purge_pods pods port args (counted r purged) v in
      if pod.running then visited else skipped

  -- PurgeCache of the manager: `read` is the status of the instance, with the port of its nginx.
  unfoldable pub purge_instance :
      Result (List PodStatus × ℤ) → PurgeCacheArgs → World → Purged × World
  unfolding purge_pods
  purge_instance (err e) args w = ((0, e ∷ []), w)
  purge_instance (ok (pods, port)) args w =
      if args.path == ""
      then ((0, validation "path is required" ∷ []), w)
      else purge_pods pods port args (0, []) w

  -- PurgeCache of the purge API: `listed` is what its lister gives for the instance.
  unfoldable pub purge_listed :
      Result (List PodStatus × ℤ) → PurgeCacheArgs → World → Purged × World
  unfolding purge_pods
  purge_listed listed args w =
      if args.path == "" then ((0, validation "path is required" ∷ []), w) else elim listed [
        | err e ↦ ((0, not_found "Failed to find pods: %v" ∷ []), w)
        | ok (pods, port) ↦ purge_pods pods port args (0, []) w
      ]

  -- The loop of cachePurgeBulk, with the status of the response.
  unfoldable pub purge_bulk :
      Result (List PodStatus × ℤ)
      → List PurgeCacheArgs
      → ℕ
      → World
      → (ℕ × List PurgeCacheBulkResult) × World
  unfolding purge_listed
  purge_bulk listed [] status w = ((status, []), w)
  purge_bulk listed (args ∷ more) status w =
      let ((count, errors), v) = purge_listed listed args w in
      let ((code, results), u) = purge_bulk listed more (worse status errors) v in
      ((code, record { path = args.path; instances_purged = count; errors = errors } ∷ results), u)
