-- ===== src/Servers/Turns.antt =====
-- The loop that places the locations, as one server sees it.
use mathlib.Core.Path.{subst}
use rpaas_operator.Prelude.{
  ℕ, String, ◌==◌, ◌≡◌, ◌≢◌, ◌⊎◌, inl, inr, refl, sym, ap, ◌∙◌, true, false, List, [], ◌∷◌, none,
  some, eq_iff, Bool-cases, Option-cases, if◌then◌else◌,
}
use rpaas_operator.Prelude.Keyed.{find, store, Distinct}
use rpaas_operator.Prelude.Keyed.Laws.{find-store, find-key}
use rpaas_operator.Api.{Location}
use rpaas_operator.Mutation.Routes.{locations}
use rpaas_operator.Servers.{Server, by_server, placed, place_locations}
use rpaas_operator.Servers.Placing.{
  IsIndex, Fits, Serves, Fits-other, Fits-own, Serves-other, Serves-own,
}

module _ (ds : List Location) (index : List (String × ℕ)) (is : IsIndex ds index) (s : String)
    (named : s ≢ "") where
  -- One turn of the loop.
  turn : Location → List Server → List Server
  unfolding find store placed
  turn l servers =
      if l.server_name == "" then servers else elim (find by_server l.server_name servers) [
        | none ↦ servers
        | some t ↦ store by_server (record t { locations = placed index l t.locations }) servers
      ]

  turn_other :
      (l : Location) (servers : List Server)
      → (l.server_name == s) ≡ false
      → find by_server s (turn l servers) ≡ find by_server s servers
  unfolding turn
  turn_other l servers o = elim (Bool-cases (l.server_name == "")) [
    | inl t ↦ rw t
    | inr t ↦ rw t (elim (Option-cases (find by_server l.server_name servers)) [
      | inl n ↦ rw n
      | inr (u, e) ↦ rw e (
          find-store by_server s (record u { locations = placed index l u.locations }) servers
          ∙ rw (ap (λ x. x == s) (find-key by_server l.server_name servers u e) ∙ o))
    ])
  ]

  turn_own :
      (l : Location) (servers : List Server) (srv : Server)
      → (l.server_name == s) ≡ true
      → find by_server s servers ≡ some srv
      → find by_server s (turn l servers)
        ≡ some (record srv { locations = placed index l srv.locations })
  unfolding turn
  turn_own l servers srv o e =
      let same : l.server_name ≡ s = (eq_iff l.server_name s).0 o in
      rw (named_here same) (
        rw (subst (λ a. find by_server a servers ≡ some srv) (sym same) e) (
          find-store by_server s (record srv { locations = placed index l srv.locations }) servers
          ∙ rw ((eq_iff srv.name s).1 (find-key by_server s servers srv e))))
    where
      named_here : l.server_name ≡ s → (l.server_name == "") ≡ false
      named_here same = elim (Bool-cases (l.server_name == "")) [
        | inl t ↦ absurd (named (sym same ∙ (eq_iff l.server_name "").0 t))
        | inr t ↦ t
      ]

  pub place-Serves :
      (ls : List Location) (servers : List Server) (srv : Server)
      → Distinct locations ls
      → find by_server s servers ≡ some srv
      → Fits ds index is s named ls srv
      → Serves ds index is s named ls srv (find by_server s (place_locations index ls servers))
  unfolding place_locations Distinct turn
  place-Serves [] servers srv d e fits = (srv, e, λ q. unfold find in refl)
  place-Serves (l ∷ ls) servers srv (n, d) e fits = elim (Bool-cases (l.server_name == s)) [
    | inr o ↦ Serves-other ds index is s named l ls srv _ o (
        place-Serves ls (turn l servers) srv d (turn_other l servers o ∙ e)
          (Fits-other ds index is s named l ls srv o fits))
    | inl o ↦ Serves-own ds index is s named l ls srv _ o n fits (
        place-Serves ls (turn l servers) (record srv { locations = placed index l srv.locations }) d
          (turn_own l servers srv o e) (Fits-own ds index is s named l ls srv o n fits))
  ]

  pub place_absent :
      (ls : List Location) (servers : List Server)
      → find by_server s servers ≡ none
      → find by_server s (place_locations index ls servers) ≡ none
  unfolding place_locations turn
  place_absent [] servers e = e
  place_absent (l ∷ ls) servers e =
      place_absent ls (turn l servers) (absent (Bool-cases (l.server_name == s)))
    where
      absent :
          ((l.server_name == s) ≡ true) ⊎ ((l.server_name == s) ≡ false)
          → find by_server s (turn l servers) ≡ none
      absent (inr o) = turn_other l servers o ∙ e
      absent (inl o) =
          let same : l.server_name ≡ s = (eq_iff l.server_name s).0 o in
          unfold turn in
          elim (Bool-cases (l.server_name == "")) [
            | inl t ↦ rw t e
            | inr t ↦ rw t (rw (subst (λ a. find by_server a servers ≡ none) (sym same) e) e)
          ]
