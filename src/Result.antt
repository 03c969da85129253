-- ===== src/Result.antt =====
-- What a Go function that returns `(value, error)` gives: the value if the error is nil. The source's
-- `if err := f(); err != nil { return err }` is `f >> rest`, and `x, err := f()` followed by the same
-- test is a line of a do block.
use rpaas_operator.Prelude.{◌⊎◌, inl, inr, ◌≡◌, ◌↔◌, refl, Bool, true, false, arith}
use rpaas_operator.Errors.{Error}

pub data Result {ℓ} (Value : Type ℓ) : Type ℓ where
  err : Error → Result Value
  ok : Value → Result Value

abbrev pub is_ok {ℓ} : {V : Type ℓ} → Result V → Bool
is_ok (err _) = false
is_ok (ok _) = true

pub Result-cases {ℓ} :
    {A : Type ℓ} (r : Result A) → ((a : A) × (r ≡ ok a)) ⊎ ((e : Error) × (r ≡ err e))
Result-cases (ok a) = inl (a, refl)
Result-cases (err e) = inr (e, refl)

pub is_ok-value {ℓ} : {A : Type ℓ} (r : Result A) → is_ok r ≡ true → (a : A) × (r ≡ ok a)
is_ok-value (ok a) h = (a, refl)
is_ok-value (err e) h = cc

-- `if wrong { return e }`
abbrev pub reject_if : (wrong : Bool) → Error → Result (Unit {0})
reject_if false _ = ok tt
reject_if true e = err e

infixl 5 ◌>>=◌
abbrev pub ◌>>=◌ {ℓ κ} : {V : Type ℓ} {W : Type κ} → Result V → (V → Result W) → Result W
err e >>= _ = err e
ok v >>= rest = rest v

infixl 5 ◌>>◌
abbrev pub ◌>>◌ {κ} : {W : Type κ} → Result (Unit {0}) → Result W → Result W
check >> rest = check >>= λ _. rest

-- The same where a call changes the state of the cluster, which the rest starts from.
abbrev pub and_then {ℓ κ ι} :
    {V : Type ℓ} {W : Type κ} {S : Type ι} → Result V × S → (V → S → Result W × S) → Result W × S
and_then (err e, s) rest = (err e, s)
and_then (ok v, s) rest = rest v s

pub and_then-ok {ℓ κ ι} :
    {V : Type ℓ} {W : Type κ} {S : Type ι} (first : Result V × S) (rest : V → S → Result W × S)
    {w : W}
    → (and_then first rest).0 ≡ ok w
    → (v : V) × (first.0 ≡ ok v) × (and_then first rest ≡ rest v first.1)
and_then-ok (err e, s) rest done = cc
and_then-ok (ok v, s) rest done = (v, refl, refl)

-- What holds if the first call fails, and of the rest if it does not, holds of both together.
pub and_then_elim {ℓ κ ι ρ} :
    {V : Type ℓ} {W : Type κ} {S : Type ι} (P : Result W × S → Type ρ) (first : Result V × S)
    (rest : V → S → Result W × S)
    → ((e : Error) → first.0 ≡ err e → P (err e, first.1))
    → ((v : V) → first.0 ≡ ok v → P (rest v first.1))
    → P (and_then first rest)
and_then_elim P (err e, s) rest failed passed = failed e refl
and_then_elim P (ok v, s) rest failed passed = passed v refl

-- The rest is run if the first call returned a value.
pub and_then-eq {ℓ κ ι} :
    {V : Type ℓ} {W : Type κ} {S : Type ι} (first : Result V × S) (rest : V → S → Result W × S)
    (v : V)
    → first.0 ≡ ok v
    → and_then first rest ≡ rest v first.1
and_then-eq (err e, s) rest v h = cc
and_then-eq (ok x, s) rest v h = rw (inside h)
  where
    inside : ok x ≡ ok v → x ≡ v
    inside p = cc

-- A function that returned no error got past the test.
pub reject_if-eq-ok {κ} :
    {W : Type κ} (wrong : Bool) (e : Error) (rest : Result W) {w : W}
    → (reject_if wrong e >> rest) ≡ ok w
    → (wrong ≡ false) × (rest ≡ ok w)
reject_if-eq-ok false e rest done = (refl, done)
reject_if-eq-ok true e rest done = cc

-- Its first call returned a value, and the rest of it, at that value, no error.
pub >>=-eq-ok {ℓ κ} :
    {V : Type ℓ} {W : Type κ} (first : Result V) (rest : V → Result W) {w : W}
    → (first >>= rest) ≡ ok w
    → (v : V) × (first ≡ ok v) × (rest v ≡ ok w)
>>=-eq-ok (err e) rest done = cc
>>=-eq-ok (ok v) rest done = (v, refl, done)

-- A check and the rest succeed together exactly if both do.
pub >>-is_ok_iff {κ} :
    {W : Type κ} (check : Result (Unit {0})) (rest : Result W)
    → (is_ok (check >> rest) ≡ true) ↔ ((is_ok check ≡ true) × (is_ok rest ≡ true))
>>-is_ok_iff (err e) rest = ground arith
>>-is_ok_iff (ok tt) rest = ground arith

-- A check that fails ends the function.
pub >>-eq-err {κ} :
    {W : Type κ} (check : Result (Unit {0})) (rest : Result W) (e : Error)
    → check ≡ err e
    → (check >> rest) ≡ err e
>>-eq-err (ok u) rest e h = cc
>>-eq-err (err x) rest e h = cc
