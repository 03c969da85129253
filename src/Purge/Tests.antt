-- ===== src/Purge/Tests.antt =====
-- Purges from servers that answer as they like, and the theorems there.
use rpaas_operator.Prelude.{
  String, ◌==◌, ◌≡◌, refl, arith, not, nat_eq, Bool, true, false, ◌&&◌, List, [], ◌∷◌, length, leb,
  has_prefix, itoa, if◌then◌else◌,
}
use rpaas_operator.Prelude.Int.{pos}
use rpaas_operator.Prelude.Keyed.{find, store}
use rpaas_operator.Result.{ok}
use rpaas_operator.Api.{StringMap}
use rpaas_operator.Purge.{
  Header, HttpClient, PodStatus, PurgeCacheArgs, of_status, request_url, separated, scheme_path,
  header_value, purge_request, purge_schemes, purge, purge_each, purge_encoding, purge_encodings,
  purge_cache, purge_listed,
}
use rpaas_operator.Purge.Laws.{asked, CacheServer, is_held, Shrinks, purge_cache-Purges}
use rpaas_operator.Purge.Pods.{asked_of, purge_listed-ArePurged}

-- A server that may have the path under one scheme, for requests with at most one extra header. Its state
-- tells whether it has.
abbrev is_entry : Bool → String → StringMap → Bool
is_entry w url headers =
    w && (url == "http://10.0.0.7:8800/purge/https/index.html" && leb (length headers) 2)

abbrev client : HttpClient Bool
client = record {
  get = λ url headers w. if is_entry w url headers then (ok 200, false) else (ok 404, w);
  canonical_key = λ k. k;
}

server : CacheServer client
server = record {
  holds = is_entry;
  answer = λ url headers w. ground arith;
  removed = λ url headers w. ground arith;
  missed = λ url headers w n u h. ground (arith, n);
  no_more = λ url headers w u h n. ground (arith, n);
}

abbrev one_header : List Header
one_header = ("X-Device", "phone" ∷ []) ∷ []

-- The entry is found once, and then no more.
purge_index :
    purge_cache client "10.0.0.7" "index.html" (pos 0) false one_header true ≡ (ok true, false)
unfolding purge_cache purge_encodings purge_encoding purge_each purge purge_schemes purge_request
    request_url of_status scheme_path separated has_prefix itoa header_value find store
purge_index = refl

-- With a second header the entry is purged as well, by the requests that have the first one only, but the
-- path counts as not purged.
abbrev two_headers : List Header
two_headers = ("X-Device", "phone" ∷ []) ∷ ("X-Country", "br" ∷ []) ∷ []

hidden :
    purge_cache client "10.0.0.7" "index.html" (pos 0) false two_headers true ≡ (ok false, false)
unfolding purge_cache purge_encodings purge_encoding purge purge_each purge_schemes purge_request
    request_url of_status scheme_path separated has_prefix itoa header_value find store
hidden = refl

purge_cache-Purges_example :
    ((purge_cache client "10.0.0.7" "index.html" (pos 0) false one_header true).0
      ≡ ok (
          is_held client server true
            (asked client "10.0.0.7" "index.html" (pos 0) false one_header)))
    × (is_held client server
          (purge_cache client "10.0.0.7" "index.html" (pos 0) false one_header true).1
          (asked client "10.0.0.7" "index.html" (pos 0) false one_header)
        ≡ false)
    × Shrinks client server true
        (purge_cache client "10.0.0.7" "index.html" (pos 0) false one_header true).1
purge_cache-Purges_example =
    purge_cache-Purges client server "10.0.0.7" "index.html" (pos 0) false one_header true
      (omega arith)

abbrev pods : List PodStatus
pods =
    record { running = true; status = ""; address = "10.0.0.7" }
    ∷ record { running = false; status = ""; address = "10.0.0.8" }
    ∷ []

abbrev args : PurgeCacheArgs
args = record { path = "index.html"; preserve_path = false; extra_headers = one_header }

purge_listed-ArePurged_example :
    ((purge_listed client (ok (pods, pos 0)) args true).0.1 ≡ [])
    × (nat_eq (purge_listed client (ok (pods, pos 0)) args true).0.0 0
        ≡ not (is_held client server true (asked_of client (pos 0) args server (omega arith) pods)))
    × (is_held client server
          (purge_listed client (ok (pods, pos 0)) args true).1
          (asked_of client (pos 0) args server (omega arith) pods)
        ≡ false)
    × Shrinks client server true (purge_listed client (ok (pods, pos 0)) args true).1
purge_listed-ArePurged_example =
    purge_listed-ArePurged client (pos 0) args server (omega arith) pods true refl
