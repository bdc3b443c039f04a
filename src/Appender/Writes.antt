-- ===== src/Appender/Writes.antt =====
-- What `writeAll` leaves in the file.
use mathlib.Core.List.{append_assoc}
use harness_trajectory_bench.Prelude.{
  ℕ, zero, suc, ◌≡◌, refl, ap, ◌∙◌, inl, inr, List, [], ◌∷◌, ◌++◌, arith, ◌==◌, nat_eq, string_eq,
  bool_eq, list_eq, pair_eq, Bool-cases, Bytes, take, drop, pass,
}
use harness_trajectory_bench.Appender.State.{WriteAnswer, write_all}

module _ {ℓ} {A : Type ℓ} where
  pub take-append-drop : (n : ℕ) (xs : List A) → take n xs ++ drop n xs ≡ xs
  take-append-drop zero xs = refl
  take-append-drop (suc n) [] = refl
  take-append-drop (suc n) (x ∷ xs) = ap (λ r. x ∷ r) (take-append-drop n xs)

-- A write that reports no error wrote everything; any other wrote a prefix.
pub write_all-pass :
    (answers : List WriteAnswer) (p : Bytes)
    → (write_all answers p).1 ≡ pass
    → (write_all answers p).0 ≡ p
unfolding write_all
write_all-pass [] p h = refl
write_all-pass (a ∷ answers) [] h = refl
write_all-pass (a ∷ answers) (b ∷ bs) h = elim (Bool-cases a.failed) [
  | inl e ↦ absurd (ground arith)
  | inr e ↦ elim (Bool-cases (a.written == 0)) [
    | inl z ↦ absurd (ground arith)
    | inr z ↦
        rw (e, z)
          (rw (write_all-pass answers (drop a.written (b ∷ bs)) (ground arith))
            (take-append-drop a.written (b ∷ bs)))
  ]
]

-- A write that fails leaves a prefix of what was to be written.
pub write_all-prefix :
    (answers : List WriteAnswer) (p : Bytes)
    → (rest : Bytes) × ((write_all answers p).0 ++ rest ≡ p)
unfolding write_all
write_all-prefix [] p = ([], mathlib.Core.List.append-nil p)
write_all-prefix (a ∷ answers) [] = ([], refl)
write_all-prefix (a ∷ answers) (b ∷ bs) =
    let n = a.written in
    let (rest, e) = write_all-prefix answers (drop n (b ∷ bs)) in
    elim (Bool-cases a.failed) [
      | inl f ↦ (drop n (b ∷ bs), rw f (take-append-drop n (b ∷ bs)))
      | inr f ↦ elim (Bool-cases (n == 0)) [
        | inl z ↦ (b ∷ bs, rw (f, z))
        | inr z ↦ (
          rest,
          rw (f, z) (append_assoc (take n (b ∷ bs)) _ rest ∙ rw e (take-append-drop n (b ∷ bs))),
        )
      ]
    ]
