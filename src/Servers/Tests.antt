-- ===== src/Servers/Tests.antt =====
-- Runs of the servers of a configuration, and the theorem at a concrete resource.
use rpaas_operator.Prelude.{
  String, ◌≡◌, refl, true, false, [], ◌∷◌, none, some, cut, has_prefix, str_ltb,
}
use rpaas_operator.Prelude.Keyed.{find, store, Distinct}
use rpaas_operator.Api.{Value, Location, RpaasInstanceSpec}
use rpaas_operator.Samples.{empty_spec}
use rpaas_operator.Mutation.Routes.{locations}
use rpaas_operator.Servers.{
  Server, by_server, new_server, block_value, name_servers, add_server_blocks, default_locations,
  default_locations_index, with_default_locations, placed, place_locations, named_servers,
  append_tls_server, append_tls_hosts, append_tls_servers, wild_card_secret, is_wild_card,
  with_wild_card, insert_server, sort_servers, produce_servers,
}
use rpaas_operator.Servers.Laws.{by_location_path}
use rpaas_operator.Servers.Serving.{named_servers-locations}

abbrev to : String → String → String → Location
to server_name path destination = record {
  server_name = server_name;
  path = path;
  destination = destination;
  content = none;
  force_https = false;
}

abbrev text : String → Value
text t = record { value = t; value_from = none }

abbrev spec : RpaasInstanceSpec
spec = record empty_spec {
  locations =
      to "" "/" "app"
      ∷ to "a.org" "/img" "files"
      ∷ to "" "/api" "api"
      ∷ to "a.org" "/api" "api-v2"
      ∷ [];
}

abbrev a_org : Server
a_org = record {
  name = "a.org";
  tls = false;
  tls_secret_name = "";
  is_default = false;
  wildcard = false;
  http_listen_options = "";
  https_listen_options = "";
  blocks = [];
  locations = to "" "/" "app" ∷ to "a.org" "/api" "api-v2" ∷ to "a.org" "/img" "files" ∷ [];
}

named_servers_run : named_servers spec ≡ some (a_org ∷ [])
unfolding named_servers name_servers new_server add_server_blocks default_locations
    default_locations_index with_default_locations place_locations placed find store
named_servers_run = refl

distinct : Distinct locations spec.locations
unfolding Distinct find
distinct = (refl, (refl, (refl, (refl, tt))))

found : find by_server "a.org" (a_org ∷ []) ≡ some a_org
unfolding find
found = refl

named_servers-locations_example :
    find by_location_path "/" a_org.locations
    ≡ elim (find locations ("a.org", "/") spec.locations) [
      | none ↦ find locations ("", "/") spec.locations
      | some l ↦ some l
    ]
named_servers-locations_example =
    named_servers-locations spec (a_org ∷ []) "a.org" a_org distinct (λ e. no_name e)
      named_servers_run found "/"
  where
    no_name : ◌≡◌ {A = String} "a.org" "" → ⊥
    no_name e = cc

-- The certificate of a wildcard is taken by a server that it covers, and has a server of its own, which
-- comes last.
produce_servers_run :
    produce_servers spec (record { secret_name = "any"; hosts = "*.org" ∷ "b.net" ∷ [] } ∷ [])
    ≡ some (
        record (new_server [] "") {
          is_default = true;
          locations = to "" "/" "app" ∷ to "" "/api" "api" ∷ [];
        }
        ∷ record a_org { tls = true; tls_secret_name = "any" }
        ∷ record (new_server [] "b.net") {
          tls = true;
          tls_secret_name = "any";
          locations = to "" "/" "app" ∷ to "" "/api" "api" ∷ [];
        }
        ∷ record (new_server [] "*.org") {
          tls = true;
          tls_secret_name = "any";
          wildcard = true;
          locations = to "" "/" "app" ∷ to "" "/api" "api" ∷ [];
        }
        ∷ [])
unfolding produce_servers named_servers name_servers new_server add_server_blocks default_locations
    default_locations_index with_default_locations place_locations placed find store
    append_tls_servers append_tls_hosts append_tls_server with_wild_card wild_card_secret
    is_wild_card sort_servers insert_server has_prefix cut str_ltb
produce_servers_run = refl

-- A block for Lua that extends the one of the instance has the text of the instance's server block.
block_value_run :
    block_value
      (("lua-server", text "lua") ∷ ("server", text "nginx") ∷ [])
      (record { server_name = "a.org"; type = "lua-server"; content = none; extend = true })
      (text "more")
    ≡ text "nginx\nmore"
unfolding block_value find
block_value_run = refl
