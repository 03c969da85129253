-- ===== src/Purge/Pods.antt =====
-- The pods of an instance, one after the other.
use mathlib.Core.Path.{subst}
use rpaas_operator.Prelude.{
  ℕ, suc, refl, sym, ◌||◌, not, nat_eq, ◌++◌, ◌+◌, ◌≤◌, ◌≡◌, ap, ◌∙◌, ◌==◌, Bool, true, false, List,
  [], ◌∷◌, length, length-append, arith, Bool-cases, inl, inr, if◌then◌else◌,
}
use rpaas_operator.Prelude.Int.{ℤ}
use rpaas_operator.Result.{Result, ok, err}
use rpaas_operator.Purge.{
  HttpClient, PodStatus, PurgeCacheArgs, Purged, counted, purge_cache, purge_pods, purge_listed,
}
use rpaas_operator.Purge.Laws.{
  Asked, asked, CacheServer, is_held, Shrinks, Unchanged, purge_cache-all, any-append,
  is_held-Shrinks, is_held-Unchanged,
}

-- The pods that pass a test.
abbrev pub count_pods : (PodStatus → Bool) → List PodStatus → ℕ
count_pods test [] = 0
count_pods test (pod ∷ pods) =
    let rest = count_pods test pods in if test pod then suc rest else rest

module _ {World : Type 0} (client : HttpClient World) (port : ℤ) (args : PurgeCacheArgs) where
  -- Each pod that is running is counted, is among the errors, or has purged nothing.
  purge_pods-bound :
      (pods : List PodStatus) (p : Purged) (w : World)
      → (purge_pods client pods port args p w).0.0
          + length (purge_pods client pods port args p w).0.1
        ≤ p.0 + length p.1 + count_pods (λ pod. pod.running) pods
  unfolding purge_pods
  purge_pods-bound [] p w = omega arith
  purge_pods-bound (pod ∷ pods) p w = elim (Bool-cases pod.running) [
    | inl t ↦
        rw (t, purge_pods)
          (more _ _ _ _ (purge_pods-bound pods (counted (answer w).0 p) (answer w).1)
            (counted_bound (answer w).0 p))
    | inr t ↦ rw (t, purge_pods) (purge_pods-bound pods p w)
  ]
    where
      answer : World → Result Bool × World
      answer v =
          purge_cache client pod.address args.path port args.preserve_path args.extra_headers v

      more : (a b c d : ℕ) → a ≤ b + c → b ≤ d + 1 → a ≤ d + suc c
      more a b c d h g = omega arith

      counted_bound :
          (r : Result Bool) (p : Purged)
          → (counted r p).0 + length (counted r p).1 ≤ p.0 + length p.1 + 1
      counted_bound (err e) p = unfold counted in omega (arith, length-append p.1 (e ∷ []))
      counted_bound (ok true) p = unfold counted in omega arith
      counted_bound (ok false) p = unfold counted in omega arith

  -- For a path that is given, the pods that the purge API counts and its errors are together no more than the
  -- pods that are running.
  pub purge_listed-bound :
      (pods : List PodStatus) (w : World)
      → (args.path == "") ≡ false
      → (purge_listed client (ok (pods, port)) args w).0.0
          + length (purge_listed client (ok (pods, port)) args w).0.1
        ≤ count_pods (λ pod. pod.running) pods
  unfolding purge_listed
  purge_listed-bound pods w given =
      rw (given, purge_listed) (omega (arith, purge_pods-bound pods (0, []) w))

  module _ (server : CacheServer client) (one : length args.extra_headers ≤ 1) where
    -- The requests of a purge, to all of the pods that are running.
    abbrev pub asked_of : List PodStatus → List Asked
    asked_of [] = []
    asked_of (pod ∷ pods) =
        let rest = asked_of pods in
        if pod.running
        then asked client pod.address args.path port args.preserve_path args.extra_headers ++ rest
        else rest

    -- Of some pods, of which `rs` are the requests, `k` have purged something.
    record ArePurged (rs : List Asked) (n : ℕ) (w : World) (r : Purged × World) : Type 0 where
      pub count : (k : ℕ) × (r.0 ≡ (n + k, [])) × (nat_eq k 0 ≡ not (is_held client server w rs))
      pub gone : is_held client server r.1 rs ≡ false
      pub shrinks : Shrinks client server w r.1

    first_pod :
        (rs ts : List Asked) (n : ℕ) (w v : World) (r : Purged × World)
        → is_held client server v rs ≡ false
        → Shrinks client server w v
        → (is_held client server w rs ≡ false → Unchanged client server w v)
        → ArePurged ts (if is_held client server w rs then suc n else n) v r
        → ArePurged (rs ++ ts) n w r
    first_pod rs ts n w v r gone shrinks idle rest =
        let (k, counts, zero) = rest.count in
        record {
          count = elim (Bool-cases (is_held client server w rs)) [
            | inl t ↦ (
              suc k,
              counts ∙ ap (λ m. (m, [])) (rw t (one_more n k)),
              some_pod k ∙ sym (ap not (found t)),
            )
            | inr t ↦ (
              k,
              counts ∙ ap (λ m. (m, [])) (rw t refl),
              zero ∙ ap not (is_held-Unchanged client server ts w v (idle t) ∙ sym (passed_on t)),
            )
          ];
          gone =
              any-append _ rs ts
              ∙ ground (arith, is_held-Shrinks client server rs v r.1 rest.shrinks gone, rest.gone);
          shrinks = λ u h e. rest.shrinks u h (shrinks u h e);
        }
      where
        one_more : (a b : ℕ) → suc a + b ≡ a + suc b
        one_more a b = omega arith

        split :
            (x : World)
            → is_held client server x (rs ++ ts)
              ≡ (is_held client server x rs || is_held client server x ts)
        split x = any-append _ rs ts

        some_pod : (a : ℕ) → nat_eq (suc a) 0 ≡ false
        some_pod a = ground arith

        found : is_held client server w rs ≡ true → is_held client server w (rs ++ ts) ≡ true
        found t = split w ∙ rw t refl

        passed_on :
            is_held client server w rs ≡ false
            → is_held client server w (rs ++ ts) ≡ is_held client server w ts
        passed_on t = split w ∙ rw t refl

    purge_pods-ArePurged :
        (pods : List PodStatus) (n : ℕ) (w : World)
        → ArePurged (asked_of pods) n w (purge_pods client pods port args (n, []) w)
    unfolding purge_pods
    purge_pods-ArePurged [] n w = record {
      count = (0, ap (λ k. (k, [])) (omega arith), refl);
      gone = refl;
      shrinks = λ u h e. e;
    }
    purge_pods-ArePurged (pod ∷ pods) n w = elim (Bool-cases pod.running) [
      | inr t ↦ rw (t, purge_pods) (purge_pods-ArePurged pods n w)
      | inl t ↦
          let all =
            purge_cache-all client server pod.address args.path port args.preserve_path
              args.extra_headers w one in
          rw (t, purge_pods)
            (first_pod
              (asked client pod.address args.path port args.preserve_path args.extra_headers)
              (asked_of pods) n w _ _ all.gone all.shrinks all.idle
              (subst
                (λ p.
                  ArePurged (asked_of pods) (if held then suc n else n) answer.1
                    (purge_pods client pods port args p answer.1))
                (sym (ap (λ a. counted a (n, [])) all.verdict ∙ counted_one held))
                (purge_pods-ArePurged pods (if held then suc n else n) answer.1)))
    ]
      where
        answer : Result Bool × World
        answer =
            purge_cache client pod.address args.path port args.preserve_path args.extra_headers w

        held : Bool
        held =
            is_held client server w
              (asked client pod.address args.path port args.preserve_path args.extra_headers)

        counted_one : (b : Bool) → counted (ok b) (n, []) ≡ (if b then suc n else n, [])
        counted_one true = unfold counted in refl
        counted_one false = unfold counted in refl

    -- A purge of a path, with at most one extra header, from pods with a cache returns no error. It counts no
    -- pod exactly if no pod that is running had an entry that one of the requests to it names, and afterwards
    -- none of them has such an entry, nor any that it did not have before.
    pub purge_listed-ArePurged :
        (pods : List PodStatus) (w : World)
        → (args.path == "") ≡ false
        → ((purge_listed client (ok (pods, port)) args w).0.1 ≡ [])
          × (nat_eq (purge_listed client (ok (pods, port)) args w).0.0 0
              ≡ not (is_held client server w (asked_of pods)))
          × (is_held client server (purge_listed client (ok (pods, port)) args w).1 (asked_of pods)
              ≡ false)
          × Shrinks client server w (purge_listed client (ok (pods, port)) args w).1
    unfolding purge_listed
    purge_listed-ArePurged pods w given =
        let all = purge_pods-ArePurged pods 0 w in
        let (k, counts, zero) = all.count in
        rw (given, purge_listed)
          (
            ap (λ p. p.1) counts,
            ap (λ p. nat_eq p.0 0) counts ∙ ap (λ m. nat_eq m 0) (nothing_more k) ∙ zero,
            all.gone,
            all.shrinks,
          )
      where
        nothing_more : (a : ℕ) → 0 + a ≡ a
        nothing_more a = omega arith
