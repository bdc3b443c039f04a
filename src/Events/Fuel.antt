-- ===== src/Events/Fuel.antt =====
-- The fuel of `validateContent` of pkg/events/validation_helpers.go is enough.
use harness_trajectory_bench.Prelude.{
  ℕ, suc, String, ◌≡◌, refl, ap, ◌∙◌, inl, inr, true, not, List, [], ◌∷◌, arith, ◌==◌, nat_eq,
  string_eq, bool_eq, list_eq, pair_eq, Bool-cases, Check, ◌>>◌, reject, check_all,
}
use mathlib.Core.Path.{fun_ext}
use harness_trajectory_bench.Events.Types.{ContentBlock}
use harness_trajectory_bench.Events.Codec.{Codec}
use harness_trajectory_bench.Events.Helpers.{one_of}
use harness_trajectory_bench.Events.Content.{validate_block, validate_content}

check_all-cong :
    {A : Type 0} (f g : A → Check) (xs : List A)
    → ((x : A) → f x ≡ g x)
    → check_all f xs ≡ check_all g xs
check_all-cong f g [] h = refl
check_all-cong f g (x ∷ xs) h =
    ap (λ m. m >> check_all f xs) (h x) ∙ ap (λ k. g x >> k) (check_all-cong f g xs h)

module _ (json : Codec) where
  -- The recursive call does not matter to a text or an image.
  flat_block :
      (n m : List ContentBlock → Check) (b : ContentBlock)
      → one_of b.block_type ("text" ∷ "image" ∷ []) ≡ true
      → validate_block json n b ≡ validate_block json m b
  unfolding validate_block
  flat_block n m b h = elim (Bool-cases (b.block_type == "text")) [
    | inl e ↦ rw e refl
    | inr x ↦ elim (Bool-cases (b.block_type == "image")) [
      | inl e ↦ rw e refl
      | inr y ↦ absurd (ground arith)
    ]
  ]

  block-cong :
      (n m : List ContentBlock → Check) (b : ContentBlock)
      → ((bs : List ContentBlock) → n bs ≡ m bs)
      → validate_block json n b ≡ validate_block json m b
  unfolding validate_block
  block-cong n m b h = ap (λ k. validate_block json k b) (fun_ext h)

  abbrev round : (List ContentBlock → Check) → List String → ContentBlock → Check
  round nested allowed block = do
    reject (not (one_of block.block_type allowed)) "content block type is not allowed here"
    validate_block json nested block

  flat_round :
      (n m : List ContentBlock → Check) (b : ContentBlock)
      → round n ("text" ∷ "image" ∷ []) b ≡ round m ("text" ∷ "image" ∷ []) b
  flat_round n m b = elim (Bool-cases (one_of b.block_type ("text" ∷ "image" ∷ []))) [
    | inl e ↦
        ap
          (λ k.
            reject (not (one_of b.block_type ("text" ∷ "image" ∷ [])))
              "content block type is not allowed here"
            >> k)
          (flat_block n m b e)
    | inr e ↦ rw e refl
  ]

  -- The content of a tool result: one round is all it takes.
  flat_content :
      (fuel : ℕ) (blocks : List ContentBlock)
      → validate_content json (suc fuel) ("text" ∷ "image" ∷ []) blocks
        ≡ validate_content json 1 ("text" ∷ "image" ∷ []) blocks
  unfolding validate_content
  flat_content fuel blocks = check_all-cong _ _ blocks (λ b. flat_round _ _ b)

  -- More fuel than 2 changes nothing: blocks nest two deep at most.
  pub content_fuel_enough :
      (fuel : ℕ) (allowed : List String) (blocks : List ContentBlock)
      → validate_content json (suc (suc fuel)) allowed blocks
        ≡ validate_content json 2 allowed blocks
  unfolding validate_content
  content_fuel_enough fuel allowed blocks = check_all-cong _ _ blocks (λ b.
      ap
        (λ k.
          reject (not (one_of b.block_type allowed)) "content block type is not allowed here" >> k)
        (block-cong _ _ b (λ bs. flat_content fuel bs)))
