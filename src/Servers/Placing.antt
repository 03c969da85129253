-- ===== src/Servers/Placing.antt =====
-- The loop that puts the locations of the servers over the default ones.
use mathlib.Core.Path.{subst}
use rpaas_operator.Prelude.{
  ℕ, String, ◌==◌, ◌≡◌, ◌≢◌, inl, inr, refl, sym, ap, ◌∙◌, true, false, List, [], ◌∷◌, Option, none,
  some, is_some, set, arith, eq_iff, Bool-cases, Option-cases, if◌then◌else◌,
}
use rpaas_operator.Prelude.Keyed.{find, store}
use rpaas_operator.Prelude.Keyed.Laws.{find-store, store_fresh, store-cons}
use rpaas_operator.Api.{Location}
use rpaas_operator.Mutation.Routes.{locations}
use rpaas_operator.Servers.{Server, by_path, placed}
use rpaas_operator.Servers.Laws.{by_location_path, index_of}

-- A location that is stored over another one keeps the indices of all paths.
index_of-store :
    (p : String) (k : ℕ) (l : Location) (ls : List Location)
    → index_of p ls ≡ some k
    → index_of p (store by_location_path l ls) ≡ some k
index_of-store p k l [] h = cc
index_of-store p k l (x ∷ ls) h =
    let later : (j : ℕ)
        → index_of p ls ≡ some j
        → index_of p (store by_location_path l ls) ≡ some j =
      λ j. index_of-store p j l ls in
    rw store-cons (elim (Bool-cases (x.path == l.path)) [
      | inl t ↦ rw t (ground (arith, h, (eq_iff x.path l.path).0 t))
      | inr t ↦ rw t (elim (Option-cases (index_of p ls)) [
        | inl n ↦ ground (arith, h, n)
        | inr (j, e) ↦ ground (arith, h, e, later j e)
      ])
    ])

module _ (ds : List Location) where
  -- Each default path stands where it stands in the default locations.
  abbrev pub IsAligned : List Location → Type 0
  IsAligned ls = (p : String) (k : ℕ) → index_of p ds ≡ some k → index_of p ls ≡ some k

  -- The index has each default path, with its place.
  abbrev pub IsIndex : List (String × ℕ) → Type 0
  IsIndex index =
      (p : String)
      → find by_path p index ≡ elim (index_of p ds) [ none ↦ none | some k ↦ some (p, k) ]

  -- A location of which the path is a default one, or is not there, is stored by its path.
  placed-store :
      (index : List (String × ℕ)) (l : Location) (ls : List Location)
      → IsIndex index
      → IsAligned ls
      → (index_of l.path ds ≡ none → find by_location_path l.path ls ≡ none)
      → placed index l ls ≡ store by_location_path l ls
  unfolding placed
  placed-store index l ls is aligned new = elim (Option-cases (index_of l.path ds)) [
    | inl n ↦ rw (is l.path ∙ nowhere n, placed) (sym (store_fresh by_location_path l ls (new n)))
    | inr (k, e) ↦ rw (is l.path ∙ somewhere k e, placed) (sym (overwrites k e))
  ]
    where
      nowhere :
          index_of l.path ds ≡ none
          → (elim (index_of l.path ds) as (λ _. Option (String × ℕ)) [
            | none ↦ none
            | some k ↦ some (l.path, k)
          ])
            ≡ none
      nowhere n = rw n

      somewhere :
          (k : ℕ)
          → index_of l.path ds ≡ some k
          → (elim (index_of l.path ds) as (λ _. Option (String × ℕ)) [
            | none ↦ none
            | some k ↦ some (l.path, k)
          ])
            ≡ some (l.path, k)
      somewhere k e = rw e

      overwrites : (k : ℕ) → index_of l.path ds ≡ some k → store by_location_path l ls ≡ set ls k l
      overwrites k e = unfold store in rw (aligned l.path k e, store)

  -- The bytes of the route, or those of the default one.
  abbrev pub overlaid : Option Location → Option Location → Option Location
  overlaid own default = elim own [ none ↦ default | some l ↦ some l ]

  module _ (index : List (String × ℕ)) (is : IsIndex index) (s : String) (named : s ≢ "") where
    -- What the loop leaves of a server: its routes over the locations that it had.
    abbrev pub Serves : List Location → Server → Option Server → Type 0
    Serves ls srv after =
        (t : Server) × (after ≡ some t)
        × ((q : String)
            → find by_location_path q t.locations
              ≡ overlaid (find locations (s, q) ls) (find by_location_path q srv.locations))

    abbrev pub Fits : List Location → Server → Type 0
    Fits ls srv =
        IsAligned srv.locations
        × ((q : String)
            → index_of q ds ≡ none
            → is_some (find locations (s, q) ls) ≡ true
            → find by_location_path q srv.locations ≡ none)

    -- A location of another server.
    find-other :
        (l : Location) (ls : List Location) (q : String)
        → (l.server_name == s) ≡ false
        → find locations (s, q) (l ∷ ls) ≡ find locations (s, q) ls
    unfolding find
    find-other l ls q o = rw o

    find-own :
        (l : Location) (ls : List Location) (q : String)
        → (l.server_name == s) ≡ true
        → find locations (s, q) (l ∷ ls)
          ≡ (if l.path == q then some l else find locations (s, q) ls)
    unfolding find
    find-own l ls q o = rw o

    pub Fits-other :
        (l : Location) (ls : List Location) (srv : Server)
        → (l.server_name == s) ≡ false
        → Fits (l ∷ ls) srv
        → Fits ls srv
    Fits-other l ls srv o (aligned, new) =
        (aligned, λ q n h. new q n (ap (λ x. is_some x) (find-other l ls q o) ∙ h))

    pub Serves-other :
        (l : Location) (ls : List Location) (srv : Server) (after : Option Server)
        → (l.server_name == s) ≡ false
        → Serves ls srv after
        → Serves (l ∷ ls) srv after
    Serves-other l ls srv after o (t, here, at_path) = (
      t,
      here,
      λ q.
          at_path q
          ∙ ap (λ x. overlaid x (find by_location_path q srv.locations))
              (sym (find-other l ls q o)),
    )

    -- The server with a location of its own placed.
    abbrev pub with_placed : Location → Server → Server
    with_placed l srv = record srv { locations = placed index l srv.locations }

    with_placed-store :
        (l : Location) (ls : List Location) (srv : Server)
        → (l.server_name == s) ≡ true
        → Fits (l ∷ ls) srv
        → placed index l srv.locations ≡ store by_location_path l srv.locations
    with_placed-store l ls srv o (aligned, new) = placed-store index l srv.locations is aligned λ n.
        new l.path n
          (ap (λ x. is_some x) (find-own l ls l.path o) ∙ rw ((eq_iff l.path l.path).1 refl) refl)

    pub Fits-own :
        (l : Location) (ls : List Location) (srv : Server)
        → (l.server_name == s) ≡ true
        → find locations (l.server_name, l.path) ls ≡ none
        → Fits (l ∷ ls) srv
        → Fits ls (with_placed l srv)
    Fits-own l ls srv o unique (aligned, new) =
        let stored = with_placed-store l ls srv o (aligned, new) in
        (
          λ p k e.
              ap (λ x. index_of p x) stored ∙ index_of-store p k l srv.locations (aligned p k e),
          λ q n h. elim (Bool-cases (l.path == q)) [
            | inl t ↦ absurd (none_some (gone q t) h)
            | inr t ↦
                ap (λ x. find by_location_path q x) stored
                ∙ find-store by_location_path q l srv.locations
                ∙ rw t (new q n (ap (λ x. is_some x) (find-own l ls q o) ∙ rw t h))
          ],
        )
      where
        none_some : {x : Option Location} → x ≡ none → is_some x ≡ true → ⊥
        none_some a b = ground (arith, a, b)

        gone : (q : String) → (l.path == q) ≡ true → find locations (s, q) ls ≡ none
        gone q t =
            subst (λ a. find locations (a, q) ls ≡ none) ((eq_iff l.server_name s).0 o)
              (subst (λ b. find locations (l.server_name, b) ls ≡ none) ((eq_iff l.path q).0 t)
                unique)

    pub Serves-own :
        (l : Location) (ls : List Location) (srv : Server) (after : Option Server)
        → (l.server_name == s) ≡ true
        → find locations (l.server_name, l.path) ls ≡ none
        → Fits (l ∷ ls) srv
        → Serves ls (with_placed l srv) after
        → Serves (l ∷ ls) srv after
    Serves-own l ls srv after o unique fits (t, here, at_path) = (
      t,
      here,
      λ q.
          at_path q
          ∙ ap (λ x. overlaid (find locations (s, q) ls) x)
              (ap (λ x. find by_location_path q x) (with_placed-store l ls srv o fits)
                ∙ find-store by_location_path q l srv.locations)
          ∙ elim (Bool-cases (l.path == q)) [
            | inl e ↦
                rw (e, find-own l ls q o, e)
                  (rw
                    (subst (λ a. find locations (a, q) ls ≡ none) ((eq_iff l.server_name s).0 o)
                      (subst (λ b. find locations (l.server_name, b) ls ≡ none)
                        ((eq_iff l.path q).0 e) unique))
                    refl)
            | inr e ↦ rw (e, find-own l ls q o, e) refl
          ],
    )
