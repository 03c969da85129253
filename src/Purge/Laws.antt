-- ===== src/Purge/Laws.antt =====
-- A purge from a server that has a cache: what counts as purged, and what is left in the cache.
use mathlib.Core.Path.{subst}
use Prim.Native.String
use rpaas_operator.Prelude.{
  String, ◌≤◌, ◌≡◌, refl, sym, ap, ◌∙◌, Bool, true, false, ◌||◌, List, [], ◌∷◌, ◌++◌, any, length,
  Bool-cases, inl, inr, arith, if◌then◌else◌,
}
use rpaas_operator.Prelude.Int.{ℤ}
use rpaas_operator.Prelude.Keyed.{store}
use rpaas_operator.Result.{Result, ok, err, and_then, and_then-eq}
use rpaas_operator.Api.{StringMap}
use rpaas_operator.Labels.{by_label}
use rpaas_operator.Purge.{
  Header, HttpClient, request_url, separated, scheme_path, header_value, of_status, purge_request,
  purge_schemes, purge, purge_each, purge_encoding, purge_encodings, purge_cache,
}

-- A request to the server: its URL and its headers.
abbrev pub Asked : Type 0
Asked = String × StringMap

-- The requests for one set of headers.
abbrev pub requests : String → String → ℤ → Bool → StringMap → List Asked
requests host path port true headers =
    (request_url host (String.◌++◌ "/purge" (separated path)) port, headers) ∷ []
requests host path port false headers =
    (request_url host (scheme_path "http" path) port, headers)
    ∷ (request_url host (scheme_path "https" path) port, headers)
    ∷ []

abbrev pub encoded : String → StringMap
encoded encoding = ("Accept-Encoding", encoding) ∷ []

pub any-append :
    {A : Type 0} (p : A → Bool) (xs ys : List A) → any p (xs ++ ys) ≡ (any p xs || any p ys)
any-append p [] ys = refl
any-append p (x ∷ xs) ys = ground (arith, any-append p xs ys)

module _ {World : Type 0} (client : HttpClient World) where
  -- The headers with the extra ones.
  abbrev pub with_extra : List Header → List Header → StringMap → StringMap
  with_extra all [] headers = headers
  with_extra all (h ∷ hs) headers =
      with_extra all hs (store by_label (h.0, header_value client all h.0) headers)

  -- The requests of a purge, for both encodings.
  abbrev pub asked : String → String → ℤ → Bool → List Header → List Asked
  asked host path port preserve extra =
      requests host path port preserve (with_extra extra extra (encoded "gzip"))
      ++ requests host path port preserve (with_extra extra extra (encoded "identity"))

  -- A server with a cache: `holds w url headers` tells whether the cache has an entry that the request
  -- names. A request is answered with 200 if it has one, which is then removed, and with 404 if not, which
  -- changes nothing; a request adds no entry.
  pub record CacheServer : Type 0 where
    pub holds : World → String → StringMap → Bool
    pub answer :
        (url : String) (headers : StringMap) (w : World)
        → (client.get url headers w).0 ≡ ok (if holds w url headers then 200 else 404)
    pub removed :
        (url : String) (headers : StringMap) (w : World)
        → holds (client.get url headers w).1 url headers ≡ false
    pub missed :
        (url : String) (headers : StringMap) (w : World)
        → holds w url headers ≡ false
        → (u : String) (h : StringMap) → holds (client.get url headers w).1 u h ≡ holds w u h
    pub no_more :
        (url : String) (headers : StringMap) (w : World) (u : String) (h : StringMap)
        → holds w u h ≡ false
        → holds (client.get url headers w).1 u h ≡ false

module _ {World : Type 0} (client : HttpClient World) (server : CacheServer client) where
  -- The cache has an entry that one of the requests names.
  abbrev pub is_held : World → List Asked → Bool
  is_held w rs = any (λ r. server.holds w r.0 r.1) rs

  -- What is not in the cache before is not in it after.
  abbrev pub Shrinks : World → World → Type 0
  Shrinks w v =
      (u : String) (h : StringMap) → server.holds w u h ≡ false → server.holds v u h ≡ false

  abbrev pub Unchanged : World → World → Type 0
  Unchanged w v = (u : String) (h : StringMap) → server.holds v u h ≡ server.holds w u h

  pub is_held-Shrinks :
      (rs : List Asked) (w v : World) → Shrinks w v → is_held w rs ≡ false → is_held v rs ≡ false
  is_held-Shrinks [] w v shrinks h = refl
  is_held-Shrinks (r ∷ rs) w v shrinks h =
      ground (arith, h, shrinks r.0 r.1, is_held-Shrinks rs w v shrinks)

  pub is_held-Unchanged :
      (rs : List Asked) (w v : World) → Unchanged w v → is_held v rs ≡ is_held w rs
  is_held-Unchanged [] w v same = refl
  is_held-Unchanged (r ∷ rs) w v same = ground (arith, same r.0 r.1, is_held-Unchanged rs w v same)

  -- A call that returns whether the requests found an entry, and removes what they name.
  pub record Purges (rs : List Asked) (w : World) (r : Result Bool × World) : Type 0 where
    pub verdict : r.0 ≡ ok (is_held w rs)
    pub gone : is_held r.1 rs ≡ false
    pub shrinks : Shrinks w r.1
    pub idle : is_held w rs ≡ false → Unchanged w r.1

  purge_request-Purges :
      (host p : String) (port : ℤ) (headers : StringMap) (w : World)
      → Purges
          ((request_url host p port, headers) ∷ [])
          w
          (purge_request client host p port headers w)
  purge_request-Purges host p port headers w =
      let url = request_url host p port in
      subst (Purges ((url, headers) ∷ []) w) (sym requested) (record {
        verdict = ap (λ b. ok b) (or_false (server.holds w url headers));
        gone =
            sym (or_false (server.holds (client.get url headers w).1 url headers))
            ∙ server.removed url headers w;
        shrinks = λ u h n. server.no_more url headers w u h n;
        idle = λ n. server.missed url headers w (or_false (server.holds w url headers) ∙ n);
      })
    where
      or_false : (b : Bool) → b ≡ (b || false)
      or_false b = ground arith

      requested : purge_request client host p port headers w ≡ (
        ok (server.holds w (request_url host p port) headers),
        (client.get (request_url host p port) headers w).1,
      )
      requested =
          unfold purge_request of_status in
          elim (Bool-cases (server.holds w (request_url host p port) headers)) [
            | inl t ↦ rw (server.answer (request_url host p port) headers w, t, purge_request) refl
            | inr t ↦ rw (server.answer (request_url host p port) headers w, t, purge_request) refl
          ]

  -- One call after the other, as for the schemes and for the encodings.
  abbrev in_turn :
      (World → Result Bool × World) → (World → Result Bool × World) → World → Result Bool × World
  in_turn c d w = and_then (c w) λ s v. and_then (d v) λ t u. (ok (t || (s || false)), u)

  in_turn-Purges :
      (rs ts : List Asked) (c d : World → Result Bool × World) (w : World)
      → Purges rs w (c w)
      → Purges ts (c w).1 (d (c w).1)
      → Purges (rs ++ ts) w (in_turn c d w)
  in_turn-Purges rs ts c d w p q =
      let v = (c w).1 in
      subst (Purges (rs ++ ts) w) (sym both) (record {
        verdict = ap (λ b. ok b) (either ∙ sym (any-append _ rs ts));
        gone =
            any-append _ rs ts
            ∙ ground (arith, is_held-Shrinks rs v (d v).1 q.shrinks p.gone, q.gone);
        shrinks = λ u h n. q.shrinks u h (p.shrinks u h n);
        idle = λ n u h.
            let none_first : is_held w rs ≡ false =
              ground (arith, any-append (λ r. server.holds w r.0 r.1) rs ts, n) in
            let none_then : is_held w ts ≡ false =
              ground (arith, any-append (λ r. server.holds w r.0 r.1) rs ts, n) in
            q.idle (is_held-Unchanged ts w v (p.idle none_first) ∙ none_then) u h
            ∙ p.idle none_first u h;
      })
    where
      both : in_turn c d w ≡ (ok (is_held (c w).1 ts || (is_held w rs || false)), (d (c w).1).1)
      both =
          and_then-eq (c w) _ (is_held w rs) p.verdict
          ∙ and_then-eq (d (c w).1) _ (is_held (c w).1 ts) q.verdict

      either : (is_held (c w).1 ts || (is_held w rs || false)) ≡ (is_held w rs || is_held w ts)
      either = elim (Bool-cases (is_held w rs)) [
        | inl t ↦ ground (arith, t)
        | inr t ↦ ground (arith, t, is_held-Unchanged ts w (c w).1 (p.idle t))
      ]

  purge-Purges :
      (host path : String) (port : ℤ) (preserve : Bool) (headers : StringMap) (w : World)
      → Purges
          (requests host path port preserve headers)
          w
          (purge client host path port preserve headers w)
  unfolding purge purge_schemes
  purge-Purges host path port true headers w =
      purge_request-Purges host (String.◌++◌ "/purge" (separated path)) port headers w
  purge-Purges host path port false headers w =
      let ask : String → World → Result Bool × World =
        λ scheme v. purge_request client host (scheme_path scheme path) port headers v in
      in_turn-Purges ((request_url host (scheme_path "http" path) port, headers) ∷ [])
        ((request_url host (scheme_path "https" path) port, headers) ∷ []) (ask "http")
        (ask "https") w (purge_request-Purges host (scheme_path "http" path) port headers w)
        (purge_request-Purges host (scheme_path "https" path) port headers _)

  purge_encoding-Purges :
      (extra : List Header) (host path : String) (port : ℤ) (preserve : Bool) (headers : StringMap)
      (w : World)
      → length extra ≤ 1
      → Purges
          (requests host path port preserve (with_extra client extra extra headers))
          w
          (purge_encoding client extra host path port preserve headers w)
  unfolding purge_encoding purge_each
  purge_encoding-Purges [] host path port preserve headers w one =
      purge-Purges host path port preserve headers w
  purge_encoding-Purges (h ∷ []) host path port preserve headers w one =
      let now = store by_label (h.0, header_value client (h ∷ []) h.0) headers in
      subst (Purges (requests host path port preserve now) w) (sym (as_it_is _))
        (purge-Purges host path port preserve now w)
    where
      as_it_is : (r : Result Bool × World) → and_then r (λ b v. (ok b, v)) ≡ r
      as_it_is (err e, v) = refl
      as_it_is (ok b, v) = refl
  purge_encoding-Purges (h ∷ k ∷ hs) host path port preserve headers w one = absurd (omega arith)

  pub purge_cache-all :
      (host path : String) (port : ℤ) (preserve : Bool) (extra : List Header) (w : World)
      → length extra ≤ 1
      → Purges
          (asked client host path port preserve extra)
          w
          (purge_cache client host path port preserve extra w)
  unfolding purge_cache purge_encodings
  purge_cache-all host path port preserve extra w one =
      let ask : String → World → Result Bool × World =
        λ encoding v. purge_encoding client extra host path port preserve (encoded encoding) v in
      in_turn-Purges
        (requests host path port preserve (with_extra client extra extra (encoded "gzip")))
        (requests host path port preserve (with_extra client extra extra (encoded "identity")))
        (ask "gzip") (ask "identity") w
        (purge_encoding-Purges extra host path port preserve (encoded "gzip") w one)
        (purge_encoding-Purges extra host path port preserve (encoded "identity") _ one)

  -- A purge from a server with a cache, with at most one extra header, counts as one exactly if the cache has
  -- an entry that one of its requests names, for the two encodings and, unless the path is kept as it is,
  -- the two schemes. The cache then has no such entry, and none that it did not have before.
  pub purge_cache-Purges :
      (host path : String) (port : ℤ) (preserve : Bool) (extra : List Header) (w : World)
      → length extra ≤ 1
      → ((purge_cache client host path port preserve extra w).0
          ≡ ok (is_held w (asked client host path port preserve extra)))
        × (is_held
              (purge_cache client host path port preserve extra w).1
              (asked client host path port preserve extra)
            ≡ false)
        × Shrinks w (purge_cache client host path port preserve extra w).1
  purge_cache-Purges host path port preserve extra w one =
      let all = purge_cache-all host path port preserve extra w one in
      (all.verdict, all.gone, all.shrinks)
