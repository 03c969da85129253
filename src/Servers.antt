-- ===== src/Servers.antt =====
-- internal/pkg/rpaas/nginx/servers.go: the nginx servers that the configuration of an instance has
-- (produceServers). A map is the list of its entries; the order in which the source walks over a map does
-- not matter, since the servers are sorted by their names in the end.
pub mod Laws
pub mod Placing
pub mod Turns
pub mod Starting
pub mod Serving
mod Tests
use Prim.Native.String
use rpaas_operator.Prelude.{
  ℕ, String, ◌==◌, Bool, true, false, not, List, [], ◌∷◌, ◌++◌, map, Option, none, some, is_some,
  set, length, cut, has_prefix, str_ltb, eq_iff, if◌then◌else◌,
}
use rpaas_operator.Prelude.Keyed.{Keyed, find, store}
use rpaas_operator.Prelude.{keep_if}
use rpaas_operator.Api.{BlockType, Value, Location, ServerBlock, RpaasInstanceSpec}

-- nginxv1alpha1.NginxTLS
pub record NginxTls : Type 0 where
  pub secret_name : String
  pub hosts : List String

pub record Server : Type 0 where
  pub name : String
  pub tls : Bool
  pub tls_secret_name : String
  pub is_default : Bool
  pub wildcard : Bool
  pub http_listen_options : String
  pub https_listen_options : String
  pub blocks : List (BlockType × Value)
  pub locations : List Location

abbrev pub by_server : Keyed String Server
by_server = record {
  key = λ s. s.name;
  test = λ k s. s.name == k;
  test_iff = λ k s. eq_iff s.name k;
}

abbrev pub by_type : Keyed BlockType (BlockType × Value)
by_type = record {
  key = λ entry. entry.0;
  test = λ k entry. entry.0 == k;
  test_iff = λ k entry. eq_iff entry.0 k;
}

abbrev pub by_path : Keyed String (String × ℕ)
by_path = record {
  key = λ entry. entry.0;
  test = λ k entry. entry.0 == k;
  test_iff = λ k entry. eq_iff entry.0 k;
}

-- `&Server{Name: name, Blocks: deepCopyBlocks(spec.Blocks)}`; a deep copy is the value itself.
unfoldable pub new_server : List (BlockType × Value) → String → Server
new_server blocks name = record {
  name = name;
  tls = false;
  tls_secret_name = "";
  is_default = false;
  wildcard = false;
  http_listen_options = "";
  https_listen_options = "";
  blocks = blocks;
  locations = [];
}

unfoldable pub is_wild_card : String → Bool
is_wild_card host = has_prefix host "*."

-- The first loop over the locations: a server for each name.
unfoldable pub name_servers : List (BlockType × Value) → List Location → List Server → List Server
unfolding store new_server
name_servers blocks [] servers = servers
name_servers blocks (l ∷ ls) servers = name_servers blocks ls (
    if l.server_name == ""
    then servers
    else store by_server (new_server blocks l.server_name) servers)

-- The server of that name, which is made if there is none.
unfoldable pub server_or_new : List (BlockType × Value) → List Server → String → Server
unfolding find new_server
server_or_new blocks servers name = elim (find by_server name servers) [
  | none ↦ new_server blocks name
  | some s ↦ s
]

-- The content of a block for a server, over the blocks of the default server.
unfoldable pub block_value : List (BlockType × Value) → ServerBlock → Value → Value
unfolding find
block_value defaults b content =
    let server_value : String = elim (find by_type "server" defaults) [
      | none ↦ ""
      | some entry ↦ entry.1.value
    ] in
    let extended : Value = record {
      value = String.◌++◌ server_value (String.◌++◌ "\n" content.value);
      value_from = none;
    } in
    if b.extend
    then (if is_some (find by_type b.type defaults) then extended else content)
    else content

-- The loop over the server blocks. `none` is the panic at a block without a content.
unfoldable pub add_server_blocks :
    List (BlockType × Value) → List ServerBlock → List Server → Option (List Server)
unfolding server_or_new block_value store
add_server_blocks defaults [] servers = some servers
add_server_blocks defaults (b ∷ bs) servers =
    if b.server_name == "" then add_server_blocks defaults bs servers else elim b.content [
      | none ↦ none
      | some content ↦
          let server = server_or_new defaults servers b.server_name in
          add_server_blocks defaults bs (
            store by_server
              (record server {
                blocks = store by_type (b.type, block_value defaults b content) server.blocks;
              })
              servers)
    ]

-- The locations of the default server.
unfoldable pub default_locations : List Location → List Location
default_locations ls = keep_if (λ l. l.server_name == "") ls

-- `defaultLocationsIndex` after the loop over the default locations, from the map that there is.
unfoldable pub default_locations_index : List Location → List (String × ℕ) → List (String × ℕ)
unfolding store
default_locations_index [] index = index
default_locations_index (l ∷ ls) index =
    default_locations_index ls (store by_path (l.path, length index) index)

-- The default locations appended to each server.
unfoldable pub with_default_locations : List Location → Server → Server
with_default_locations defaults s = record s { locations = s.locations ++ defaults }

-- A location of a server, over a default one with its path, or after all of them.
unfoldable pub placed : List (String × ℕ) → Location → List Location → List Location
unfolding find
placed index l ls = elim (find by_path l.path index) [
  | none ↦ ls ++ l ∷ []
  | some entry ↦ set ls entry.1 l
]

-- The last loop over the locations; the first one has made a server for each of their names.
unfoldable pub place_locations : List (String × ℕ) → List Location → List Server → List Server
unfolding find store placed
place_locations index [] servers = servers
place_locations index (l ∷ ls) servers = place_locations index ls (
    if l.server_name == "" then servers else elim (find by_server l.server_name servers) [
      | none ↦ servers
      | some s ↦ store by_server (record s { locations = placed index l s.locations }) servers
    ])

-- `appendTLSServer`
unfoldable pub append_tls_server :
    List (BlockType × Value) → List Location → String → String → List Server → List Server
unfolding find store new_server is_wild_card
append_tls_server blocks defaults tls_secret_name host servers =
    let server : Server = elim (find by_server host servers) [
      | none ↦ record (new_server blocks host) { locations = defaults }
      | some s ↦ s
    ] in
    store by_server
      (record server {
        tls = true;
        tls_secret_name = tls_secret_name;
        wildcard = is_wild_card host;
      })
      servers

unfoldable pub append_tls_hosts :
    List (BlockType × Value) → List Location → String → List String → List Server → List Server
unfolding append_tls_server
append_tls_hosts blocks defaults secret [] servers = servers
append_tls_hosts blocks defaults secret (host ∷ hosts) servers =
    append_tls_hosts blocks defaults secret hosts
      (append_tls_server blocks defaults secret host servers)

unfoldable pub append_tls_servers :
    List (BlockType × Value) → List Location → List NginxTls → List Server → List Server
unfolding append_tls_hosts
append_tls_servers blocks defaults [] servers = servers
append_tls_servers blocks defaults (t ∷ ts) servers =
    append_tls_servers blocks defaults ts
      (append_tls_hosts blocks defaults t.secret_name t.hosts servers)

-- `wildCardTLS[host]`: the secret of the last certificate with that host, if the host is a wildcard.
unfoldable pub wild_card_secret : List NginxTls → String → Option String
unfolding is_wild_card
wild_card_secret [] host = none
wild_card_secret (t ∷ ts) host = elim (wild_card_secret ts host) [
  | some secret ↦ some secret
  | none ↦
      if is_wild_card host
      then (if rpaas_operator.Prelude.contains t.hosts host then some t.secret_name else none)
      else none
]

-- A server without a certificate of its own gets the one of the wildcard for its name, if there is one.
unfoldable pub with_wild_card : List NginxTls → Server → Server
unfolding wild_card_secret is_wild_card
with_wild_card ts s = if s.tls then s else elim (cut "." s.name) [
  | none ↦ s
  | some (first, rest) ↦ elim (wild_card_secret ts (String.◌++◌ "*." rest)) [
    | none ↦ s
    | some secret ↦ record s {
      tls = true;
      tls_secret_name = secret;
      wildcard = is_wild_card s.name;
    }
  ]
]

-- `mapServerNames` before the certificates.
unfoldable pub named_servers : RpaasInstanceSpec → Option (List Server)
unfolding name_servers add_server_blocks default_locations default_locations_index
    with_default_locations place_locations
named_servers spec =
    elim (add_server_blocks spec.blocks spec.server_blocks
      (name_servers spec.blocks spec.locations [])) [
        | none ↦ none
        | some servers ↦
            let defaults = default_locations spec.locations in
            some (
              place_locations (default_locations_index defaults []) spec.locations
                (map (with_default_locations defaults) servers))
      ]

-- sort.Slice by name; the names of the servers differ, so that every sort gives this list.
unfoldable pub insert_server : Server → List Server → List Server
insert_server s [] = s ∷ []
insert_server s (t ∷ ts) =
    let later = insert_server s ts in if str_ltb t.name s.name then t ∷ later else s ∷ t ∷ ts

unfoldable pub sort_servers : List Server → List Server
unfolding insert_server
sort_servers [] = []
sort_servers (s ∷ ss) = insert_server s (sort_servers ss)

unfoldable pub produce_servers : RpaasInstanceSpec → List NginxTls → Option (List Server)
unfolding named_servers append_tls_servers with_wild_card sort_servers default_locations new_server
produce_servers spec ts = elim (named_servers spec) [
  | none ↦ none
  | some named ↦
      let defaults = default_locations spec.locations in
      let servers = map (with_wild_card ts) (append_tls_servers spec.blocks defaults ts named) in
      let default_server = record (new_server spec.blocks "") {
        is_default = true;
        locations = defaults;
      } in
      some (
        default_server ∷ sort_servers (keep_if (λ s. not s.wildcard) servers)
        ++ sort_servers (keep_if (λ s. s.wildcard) servers))
]
