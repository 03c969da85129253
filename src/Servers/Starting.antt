-- ===== src/Servers/Starting.antt =====
-- The servers that the loops over the names and the blocks make.
use mathlib.Core.Path.{subst}
use mathlib.Core.Option
use rpaas_operator.Prelude.{
  String, ◌==◌, ◌≡◌, ◌⊎◌, inl, inr, refl, true, false, List, [], ◌∷◌, map, Option, none, some,
  arith, Bool-cases, Option-cases, if◌then◌else◌,
}
use rpaas_operator.Prelude.Keyed.{find, store}
use rpaas_operator.Prelude.Keyed.Laws.{find-store}
use rpaas_operator.Api.{BlockType, Value, Location, ServerBlock, RpaasInstanceSpec}
use rpaas_operator.Servers.{
  Server, by_server, new_server, server_or_new, block_value, by_type, name_servers,
  add_server_blocks, default_locations, default_locations_index, with_default_locations,
  place_locations, named_servers,
}

-- No server has a location yet.
abbrev pub AreEmpty : List Server → Type 0
AreEmpty servers = (s : String) (t : Server) → find by_server s servers ≡ some t → t.locations ≡ []

store-AreEmpty :
    (u : Server) (servers : List Server)
    → u.locations ≡ []
    → AreEmpty servers
    → AreEmpty (store by_server u servers)
store-AreEmpty u servers e h s t f = elim (Bool-cases (u.name == s)) [
  | inl o ↦ ground (arith, e, o, f, find-store by_server s u servers)
  | inr o ↦ h s t (ground (arith, o, f, find-store by_server s u servers))
]

name_servers-AreEmpty :
    (blocks : List (BlockType × Value)) (ls : List Location) (servers : List Server)
    → AreEmpty servers
    → AreEmpty (name_servers blocks ls servers)
unfolding name_servers new_server
name_servers-AreEmpty blocks [] servers h = h
name_servers-AreEmpty blocks (l ∷ ls) servers h =
    name_servers-AreEmpty blocks ls _ (start (Bool-cases (l.server_name == "")))
  where
    start :
        ((l.server_name == "") ≡ true) ⊎ ((l.server_name == "") ≡ false)
        → AreEmpty (
            if l.server_name == ""
            then servers
            else store by_server (new_server blocks l.server_name) servers)
    start (inl t) = rw t h
    start (inr t) = rw t (store-AreEmpty (new_server blocks l.server_name) servers refl h)

server_or_new_empty :
    (blocks : List (BlockType × Value)) (servers : List Server) (name : String)
    → AreEmpty servers
    → (server_or_new blocks servers name).locations ≡ []
unfolding server_or_new new_server
server_or_new_empty blocks servers name h = elim (Option-cases (find by_server name servers)) [
  | inl n ↦ rw (n, server_or_new) refl
  | inr (t, e) ↦ rw (e, server_or_new) (h name t e)
]

add_server_blocks-AreEmpty :
    (defaults : List (BlockType × Value)) (bs : List ServerBlock) (servers after : List Server)
    → AreEmpty servers
    → add_server_blocks defaults bs servers ≡ some after
    → AreEmpty after
unfolding add_server_blocks
add_server_blocks-AreEmpty defaults [] servers after h = λ e. subst AreEmpty (inside e) h
  where
    inside : {a b : List Server} → some a ≡ some b → a ≡ b
    inside p = cc
add_server_blocks-AreEmpty defaults (b ∷ bs) servers after h =
    elim (Bool-cases (b.server_name == "")) [
      | inl t ↦ rw t λ e. add_server_blocks-AreEmpty defaults bs servers after h e
      | inr t ↦ rw t (elim (Option-cases b.content) [
        | inl n ↦ rw n λ e. cc
        | inr (content, c) ↦ rw c λ e.
            add_server_blocks-AreEmpty defaults bs _ after
              (store-AreEmpty
                (record (server_or_new defaults servers b.server_name) {
                  blocks =
                      store by_type (b.type, block_value defaults b content)
                        (server_or_new defaults servers b.server_name).blocks;
                })
                servers (server_or_new_empty defaults servers b.server_name h) h)
              e
      ])
    ]

pub find-map_defaults :
    (ds : List Location) (s : String) (servers : List Server)
    → find by_server s (map (with_default_locations ds) servers)
      ≡ Option.map (with_default_locations ds) (find by_server s servers)
unfolding find with_default_locations
find-map_defaults ds s [] = refl
find-map_defaults ds s (t ∷ servers) = ground (arith, find-map_defaults ds s servers)

-- The servers before the locations are placed.
abbrev pub started : RpaasInstanceSpec → Option (List Server)
started spec =
    add_server_blocks spec.blocks spec.server_blocks (name_servers spec.blocks spec.locations [])

pub started-AreEmpty :
    (spec : RpaasInstanceSpec) (first : List Server) → started spec ≡ some first → AreEmpty first
started-AreEmpty spec first b =
    add_server_blocks-AreEmpty spec.blocks spec.server_blocks _ first
      (name_servers-AreEmpty spec.blocks spec.locations [] no_server) b
  where
    no_server : AreEmpty []
    no_server k u h = unfold find in cc

pub named_servers-some :
    (spec : RpaasInstanceSpec) (first : List Server)
    → started spec ≡ some first
    → named_servers spec
      ≡ some (
          place_locations
            (default_locations_index (default_locations spec.locations) [])
            spec.locations
            (map (with_default_locations (default_locations spec.locations)) first))
unfolding named_servers
named_servers-some spec first b = rw (b, named_servers)

pub named_servers-none :
    (spec : RpaasInstanceSpec) → started spec ≡ none → named_servers spec ≡ none
unfolding named_servers
named_servers-none spec n = rw (n, named_servers)
