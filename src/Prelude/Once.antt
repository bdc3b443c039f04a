-- ===== src/Prelude/Once.antt =====
-- Loops over a list that keep a set of the keys seen so far.
use Prim.Native.String.{String}
use mathlib.Core.Path.{◌≡◌, refl}
use mathlib.Core.Logic.{◌↔◌, ◌≢◌}
use mathlib.Core.Bool.{false}
use mathlib.Core.List.{List, [], ◌∷◌}
use native.Mathlib.Omega.{arith}
use harness_trajectory_bench.Prelude.Tests.{Eq, ==_iff, ==_eq-false}
use harness_trajectory_bench.Prelude.Lists.{All}
use harness_trajectory_bench.Prelude.Results.{Check, pass, ◌>>◌, reject, >>-eq-ok, reject-eq-pass}
use harness_trajectory_bench.Prelude.Maps.{contains}

module _ {ℓ} {A : Type ℓ} (P Q : A → Type ℓ) (f : (a : A) → P a → Q a) where
  pub All-map : (xs : List A) → All P xs → All Q xs
  All-map [] h = tt
  All-map (x ∷ xs) h = (f x h.0, All-map xs h.1)

module _ {ℓ} {A : Type ℓ} (P Q : A → Type ℓ) where
  pub All-zip : (xs : List A) → All P xs → All Q xs → All (λ x. P x × Q x) xs
  All-zip [] p q = tt
  All-zip (x ∷ xs) p q = ((p.0, q.0), All-zip xs p.1 q.1)

-- No two elements have the same key.
abbrev pub Distinct {ℓ κ} : {A : Type ℓ} {K : Type κ} → (A → K) → List A → Type κ
Distinct key [] = Unit
Distinct key (x ∷ xs) = All (λ y. key x ≢ key y) xs × Distinct key xs

module _ {A K : Type 0} ⦃e : Eq K⦄ (key : A → K) (duplicate : String)
    (before after : A → Check) where
  -- One round: the checks before the key is looked up, the key, and the checks behind it.
  abbrev pub check_once : List K → List A → Check
  check_once seen [] = pass
  check_once seen (x ∷ xs) = do
    before x
    reject (contains seen (key x)) duplicate
    after x
    check_once (key x ∷ seen) xs

  abbrev Passes : A → Type 0
  Passes x = (before x ≡ pass) × (after x ≡ pass)

  abbrev Unseen : List K → A → Type 0
  Unseen seen x = contains seen (key x) ≡ false

  Unseen-tail : (k : K) (seen : List K) (x : A) → Unseen (k ∷ seen) x → Unseen seen x
  unfolding contains
  Unseen-tail k seen x h = ground arith

  Unseen-head : (k : K) (seen : List K) (x : A) → Unseen (k ∷ seen) x → k ≢ key x
  unfolding contains
  Unseen-head k seen x h e = ground (arith, (==_iff k (key x)).1 e)

  Unseen-cons : (k : K) (seen : List K) (x : A) → (k ≢ key x) × Unseen seen x → Unseen (k ∷ seen) x
  unfolding contains
  Unseen-cons k seen x (n, h) = ground (arith, ==_eq-false k (key x) n)

  check_once_sound :
      (seen : List K) (xs : List A)
      → check_once seen xs ≡ pass
      → All Passes xs × All (Unseen seen) xs × Distinct key xs
  check_once_sound seen [] h = (tt, tt, tt)
  check_once_sound seen (x ∷ xs) h =
      let (p, h1) = >>-eq-ok (before x) _ h in
      let (q, h2) = >>-eq-ok (reject (contains seen (key x)) duplicate) _ h1 in
      let (r, h3) = >>-eq-ok (after x) _ h2 in
      let (a, b, c) = check_once_sound (key x ∷ seen) xs h3 in
      (
        ((p, r), a),
        (reject-eq-pass _ _ q, All-map _ _ (Unseen-tail (key x) seen) xs b),
        (All-map _ _ (Unseen-head (key x) seen) xs b, c),
      )

  check_once_complete :
      (seen : List K) (xs : List A)
      → All Passes xs
      → All (Unseen seen) xs
      → Distinct key xs
      → check_once seen xs ≡ pass
  check_once_complete seen [] a b c = refl
  check_once_complete seen (x ∷ xs) ((p, r), a) (u, b) (d, c) = rw (
    p,
    u,
    r,
    check_once_complete (key x ∷ seen) xs a
        (All-map _ _ (Unseen-cons (key x) seen) xs (All-zip _ _ xs d b)) c,
  )

  none_seen : (xs : List A) → All (Unseen []) xs
  unfolding contains
  none_seen [] = tt
  none_seen (x ∷ xs) = (refl, none_seen xs)

  pub check_once_iff :
      (xs : List A)
      → (check_once [] xs ≡ pass)
        ↔ (All (λ x. (before x ≡ pass) × (after x ≡ pass)) xs × Distinct key xs)
  check_once_iff xs = (
    λ h. (let (a, _, c) = check_once_sound [] xs h in (a, c)),
    λ h. check_once_complete [] xs h.0 (none_seen xs) h.1,
  )
