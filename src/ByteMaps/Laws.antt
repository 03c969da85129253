-- ===== src/ByteMaps/Laws.antt =====
-- The comparison of two such maps, and lookups.
use rpaas_operator.Prelude.{
  String, ◌==◌, ◌≡◌, ◌↔◌, inl, inr, refl, sym, ◌∙◌, true, ◌&&◌, [], ◌∷◌, Option, none, some,
  is_some, arith, eq_iff, Bool-cases, Option-cases, if◌then◌else◌,
}
use rpaas_operator.Prelude.Keyed.{find}
use rpaas_operator.ByteMaps.{Bytes, bytes_eq, ByteMap, value_at, same_value, agree_on, data_eq}

pub bytes_eq_iff : (c d : Bytes) → (bytes_eq c d ≡ true) ↔ (c ≡ d)
unfolding bytes_eq
bytes_eq_iff [] [] = ground arith
bytes_eq_iff [] (y ∷ d) = ground arith
bytes_eq_iff (x ∷ c) [] = ground arith
bytes_eq_iff (x ∷ c) (y ∷ d) = let (to, from) = bytes_eq_iff c d in ground (arith, to, from)

pub same_value_iff : (v w : Option Bytes) → (same_value v w ≡ true) ↔ (v ≡ w)
unfolding same_value
same_value_iff none none = ground arith
same_value_iff none (some w) = ground arith
same_value_iff (some v) none = ground arith
same_value_iff (some v) (some w) = let (to, from) = bytes_eq_iff v w in ground (arith, to, from)

pub value_at-cons :
    (k j : String) (v : Bytes) (d : ByteMap)
    → value_at ((j, v) ∷ d) k ≡ (if j == k then some v else value_at d k)
unfolding value_at find
value_at-cons k j v d = ground arith

-- Where the lists of keys agree, the maps agree at each key of either.
agree_on-everywhere :
    (keys a b : ByteMap)
    → agree_on keys a b ≡ true
    → (k : String) → is_some (value_at keys k) ≡ true
    → value_at a k ≡ value_at b k
unfolding agree_on
agree_on-everywhere [] a b h k p = unfold value_at find in cc
agree_on-everywhere ((j, v) ∷ keys) a b h k p = elim (Bool-cases (j == k)) [
  | inl t ↦
      rw (← (eq_iff j k).0 t) (ground (arith, h, same_value_iff (value_at a j) (value_at b j)))
  | inr t ↦
      agree_on-everywhere keys a b (ground (arith, h)) k
        (ground (arith, p, t, value_at-cons k j v keys))
]

agree_on_all :
    (keys a b : ByteMap) → ((k : String) → value_at a k ≡ value_at b k) → agree_on keys a b ≡ true
unfolding agree_on
agree_on_all [] a b h = refl
agree_on_all ((j, v) ∷ keys) a b h =
    ground (arith, agree_on_all keys a b h, h j, same_value_iff (value_at a j) (value_at b j))

-- The comparison is equality at every key.
pub data_eq_iff :
    (a b : ByteMap) → (data_eq a b ≡ true) ↔ ((k : String) → value_at a k ≡ value_at b k)
unfolding data_eq
data_eq_iff a b = (to, λ h. ground (arith, agree_on_all a a b h, agree_on_all b a b h))
  where
    to : (agree_on a a b && agree_on b a b) ≡ true → (k : String) → value_at a k ≡ value_at b k
    to h k = elim (Option-cases (value_at a k)) [
      | inr (v, p) ↦ agree_on-everywhere a a b (ground (arith, h)) k (rw p)
      | inl p ↦ elim (Option-cases (value_at b k)) [
        | inr (v, q) ↦ agree_on-everywhere b a b (ground (arith, h)) k (rw q)
        | inl q ↦ p ∙ sym q
      ]
    ]
