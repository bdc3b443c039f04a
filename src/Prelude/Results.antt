-- ===== src/Prelude/Results.antt =====
-- Go's `(value, error)` results. The error is its message without the formatted arguments and
-- without the prefixes that callers wrap round it.
use Prim.Native.String.{String}
use mathlib.Core.Path.{◌≡◌, refl}
use mathlib.Core.Bool.{Bool, true, false}
use mathlib.Core.List.{List, [], ◌∷◌}
use mathlib.Core.Option.{Option, none, some}
use mathlib.Core.Logic.{◌⊎◌, inl, inr}
use harness_trajectory_bench.Prelude.Lists.{All}

pub data Result {ℓ} (A : Type ℓ) : Type ℓ where
  ok : A → Result A
  err : String → Result A

-- A function that returns an error only.
abbrev pub Check : Type 0
Check = Result (Unit {0})

abbrev pub pass : Check
pass = ok tt

-- The `if err != nil { return err }` between two calls.
abbrev pub ◌>>=◌ {ℓ κ} : {A : Type ℓ} {B : Type κ} → Result A → (A → Result B) → Result B
err message >>= rest = err message
ok x >>= rest = rest x

-- The same behind a check, which returns nothing else.
abbrev pub ◌>>◌ {ℓ} : {B : Type ℓ} → Check → Result B → Result B
check >> rest = check >>= λ done. rest

infixl 5 ◌>>=◌ ◌>>◌
abbrev pub reject : Bool → String → Check
reject true message = err message
reject false message = pass

-- A decoder's result with the error that its caller returns.
abbrev pub or_fail {ℓ} : {A : Type ℓ} → Option A → String → Result A
or_fail none message = err message
or_fail (some a) message = ok a

abbrev pub is_ok {ℓ} : {A : Type ℓ} → Result A → Bool
is_ok (ok a) = true
is_ok (err e) = false

-- `for _, x := range xs { if err := check(x); err != nil { return err } }`
module _ {ℓ} {A : Type ℓ} (check : A → Check) where
  abbrev pub check_all : List A → Check
  check_all [] = pass
  check_all (x ∷ xs) = do check x; check_all xs

pub Result-cases {ℓ} :
    {A : Type ℓ} (r : Result A) → ((a : A) × (r ≡ ok a)) ⊎ ((e : String) × (r ≡ err e))
Result-cases (ok a) = inl (a, refl)
Result-cases (err e) = inr (e, refl)

pub >>=-eq-ok {ℓ κ} :
    {A : Type ℓ} {B : Type κ} (first : Result A) (rest : A → Result B) {y : B}
    → (first >>= rest) ≡ ok y
    → (x : A) × (first ≡ ok x) × (rest x ≡ ok y)
>>=-eq-ok (err message) rest done = cc
>>=-eq-ok (ok x) rest done = (x, refl, done)

pub >>-eq-ok {ℓ} :
    {B : Type ℓ} (m : Check) (k : Result B) {b : B} → (m >> k) ≡ ok b → (m ≡ pass) × (k ≡ ok b)
>>-eq-ok (ok tt) k h = (refl, h)
>>-eq-ok (err e) k h = cc

pub reject-eq-pass : (b : Bool) (message : String) → reject b message ≡ pass → b ≡ false
reject-eq-pass true message h = cc
reject-eq-pass false message h = refl

pub check_all-All {ℓ} :
    {A : Type ℓ} (check : A → Check) (xs : List A)
    → check_all check xs ≡ pass
    → All (λ x. check x ≡ pass) xs
check_all-All check [] h = tt
check_all-All check (x ∷ xs) h =
    let (p, q) = >>-eq-ok (check x) (check_all check xs) h in (p, check_all-All check xs q)

pub or_fail-eq-ok {ℓ} :
    {A : Type ℓ} (o : Option A) (message : String) {a : A} → or_fail o message ≡ ok a → o ≡ some a
or_fail-eq-ok none message h = cc
or_fail-eq-ok (some a) message h = cc

pub ok-injective {ℓ} : {A : Type ℓ} {a b : A} → ok a ≡ ok b → a ≡ b
ok-injective h = cc
