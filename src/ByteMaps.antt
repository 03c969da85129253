-- ===== src/ByteMaps.antt =====
-- Go's map[string][]byte, the data of secrets and of config maps, and reflect.DeepEqual on it.
pub mod Laws
use rpaas_operator.Prelude.{
  ℕ, String, ◌==◌, Bool, true, false, ◌&&◌, List, [], ◌∷◌, Option, none, some, nat_eq, eq_iff,
}
use rpaas_operator.Prelude.Keyed.{Keyed, find}

abbrev pub Bytes : Type 0
Bytes = List ℕ

-- bytes.Equal
unfoldable pub bytes_eq : Bytes → Bytes → Bool
bytes_eq [] [] = true
bytes_eq [] (d ∷ ds) = false
bytes_eq (c ∷ cs) [] = false
bytes_eq (c ∷ cs) (d ∷ ds) = nat_eq c d && bytes_eq cs ds

-- map[string][]byte
abbrev pub ByteMap : Type 0
ByteMap = List (String × Bytes)

abbrev pub by_data_key : Keyed String (String × Bytes)
by_data_key = record {
  key = λ entry. entry.0;
  test = λ k entry. entry.0 == k;
  test_iff = λ k entry. eq_iff entry.0 k;
}

-- `data[k]`, if the key is there.
unfoldable pub value_at : ByteMap → String → Option Bytes
unfolding find
value_at d k = elim (find by_data_key k d) [ none ↦ none | some entry ↦ some entry.1 ]

unfoldable pub same_value : Option Bytes → Option Bytes → Bool
unfolding bytes_eq
same_value none none = true
same_value none (some v) = false
same_value (some v) none = false
same_value (some v) (some vv) = bytes_eq v vv

-- At each key of the first argument the other two have the same.
unfoldable pub agree_on : ByteMap → ByteMap → ByteMap → Bool
unfolding value_at same_value
agree_on [] a b = true
agree_on (entry ∷ keys) a b =
    same_value (value_at a entry.0) (value_at b entry.0) && agree_on keys a b

-- reflect.DeepEqual on the data of two objects: one set of keys, and the same at each of them; a nil map
-- and an empty one are not told apart.
unfoldable pub data_eq : ByteMap → ByteMap → Bool
unfolding agree_on
data_eq a b = agree_on a a b && agree_on b a b
