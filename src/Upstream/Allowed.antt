-- ===== src/Upstream/Allowed.antt =====
-- internal/pkg/rpaas/upstream.go: laws of AddUpstream and DeleteUpstream.
use mathlib.Core.Path.{subst}
use rpaas_operator.Prelude.{
  String, ◌≡◌, ◌≢◌, ◌↔◌, refl, sym, ap, true, false, [], ◌∷◌, ◌++◌, none, arith, eq_iff, ◌==◌,
  is_some, Option-cases, inl, inr,
}
use rpaas_operator.Prelude.Keyed.{find, remove}
use rpaas_operator.Prelude.Keyed.Laws.{remove-append_fresh}
use rpaas_operator.Result.{ok, is_ok, reject_if-eq-ok}
use rpaas_operator.Api.{AllowedUpstream, RpaasInstance}
use rpaas_operator.Client.{ClientLaws}
use rpaas_operator.Manager.{Manager, get_instance}
use rpaas_operator.Manager.Frame.{KeepsKey, modify-commits}
use rpaas_operator.Upstream.{
  upstreams, with_upstream, without_upstream, add_upstream, delete_upstream,
}

abbrev extended : AllowedUpstream → RpaasInstance → RpaasInstance
extended u i = record i {
  spec = record (i.spec) { allowed_upstreams = i.spec.allowed_upstreams ++ u ∷ [] };
}

with_upstream-ok :
    (u : AllowedUpstream) (i j : RpaasInstance)
    → with_upstream u i ≡ ok j
    → ((u.host == "") ≡ false)
      × (find upstreams u i.spec.allowed_upstreams ≡ none)
      × (j ≡ extended u i)
unfolding with_upstream
with_upstream-ok u i j h =
    let (named, h₁) = reject_if-eq-ok (u.host == "") _ _ h in
    let (fresh, h₂) =
      reject_if-eq-ok (is_some (find upstreams u i.spec.allowed_upstreams)) _ _ h₁ in
    (named, ground (arith, fresh), cc)

-- AddUpstream refuses an empty host and an upstream that is there, and nothing else.
pub with_upstream_iff :
    (u : AllowedUpstream) (i : RpaasInstance)
    → (is_ok (with_upstream u i) ≡ true)
      ↔ ((u.host ≢ "") × (find upstreams u i.spec.allowed_upstreams ≡ none))
unfolding with_upstream
with_upstream_iff u i = ground (arith, eq_iff u.host "")

without_upstream-extended :
    (u : AllowedUpstream) (i : RpaasInstance)
    → find upstreams u i.spec.allowed_upstreams ≡ none
    → without_upstream u (extended u i) ≡ ok i
unfolding without_upstream
without_upstream-extended u i n =
    rw (remove-append_fresh upstreams u i.spec.allowed_upstreams n, without_upstream) refl

-- An upstream that has just been added can be deleted, and the instance is then what it was.
pub without_upstream-with_upstream :
    (u : AllowedUpstream) (i j : RpaasInstance)
    → with_upstream u i ≡ ok j
    → without_upstream u j ≡ ok i
without_upstream-with_upstream u i j h =
    let (_, fresh, same) = with_upstream-ok u i j h in
    subst (λ k. without_upstream u k ≡ ok i) (sym same) (without_upstream-extended u i fresh)

with_upstream-key : (u : AllowedUpstream) → KeepsKey (with_upstream u)
with_upstream-key u i j h =
    let (_, _, same) = with_upstream-ok u i j h in
    (ap (λ (k : RpaasInstance). k.namespace) same, ap (λ (k : RpaasInstance). k.name) same)

without_upstream-key : (u : AllowedUpstream) → KeepsKey (without_upstream u)
unfolding without_upstream
without_upstream-key u i j h = elim (Option-cases (remove upstreams u i.spec.allowed_upstreams)) [
  | inl n ↦ cc (rw (n, without_upstream) at h)
  | inr (rest, r) ↦ let same = rw (r, without_upstream) at h in (cc same, cc same)
]

-- AddUpstream and then DeleteUpstream of the same upstream, both accepted by the API: a read finds
-- the instance that it found before.
pub delete_upstream-add_upstream :
    (m : Manager) (laws : ClientLaws m.cli) (name : String) (u : AllowedUpstream) (w : m.cli.World)
    (i j : RpaasInstance)
    → get_instance m name w ≡ ok i
    → with_upstream u i ≡ ok j
    → (add_upstream m name u w).0 ≡ ok tt
    → (delete_upstream m name u (add_upstream m name u w).1).0 ≡ ok tt
    → get_instance m name (delete_upstream m name u (add_upstream m name u w).1).1 ≡ ok i
unfolding add_upstream delete_upstream
delete_upstream-add_upstream m laws name u w i j h r added deleted =
    modify-commits m laws name (without_upstream u) _ j i (without_upstream-key u)
      (modify-commits m laws name (with_upstream u) w i j (with_upstream-key u) h r added)
      (without_upstream-with_upstream u i j r) deleted
