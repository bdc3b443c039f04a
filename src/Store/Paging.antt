-- ===== src/Store/Paging.antt =====
-- The pages of internal/api/server.go: their bounds, and what a client gets by following them.
use harness_trajectory_bench.Prelude.{
  ℕ, zero, suc, ◌+◌, ◌-◌, ◌^◌, ◌≤◌, ◌<◌, String, ◌≡◌, refl, sym, ap, ◌∙◌, ◌≢◌, ◌↔◌, inl, inr, Bool,
  true, false, Option, none, some, List, ◌∷◌, ◌++◌, arith, ltb, leb, if◌then◌else◌, Bool-cases,
  length, take, drop, length-drop, ok, ==_eq-false, pos, [], nat_eq, string_eq, bool_eq, list_eq,
  pair_eq,
}
use harness_trajectory_bench.Store.Pages.{
  to_int, parse_cursor, parse_limit, pagination, page, refused, panicked, page_end, cut_page,
  get_page, follow,
}

module _ {ℓ} {A : Type ℓ} where
  take-append-drop : (n : ℕ) (xs : List A) → take n xs ++ drop n xs ≡ xs
  take-append-drop zero xs = refl
  take-append-drop (suc n) [] = refl
  take-append-drop (suc n) (x ∷ xs) = ap (λ rest. x ∷ rest) (take-append-drop n xs)

  drop_nil : (n : ℕ) → drop {A = A} n [] ≡ []
  drop_nil zero = refl
  drop_nil (suc n) = refl

  drop-drop : (m n : ℕ) (xs : List A) → drop (m + n) xs ≡ drop n (drop m xs)
  drop-drop zero n xs = let e : zero + n ≡ n = omega arith in ap (λ k. drop k xs) e
  drop-drop (suc m) n [] = drop_nil (suc m + n) ∙ sym (drop_nil n)
  drop-drop (suc m) n (x ∷ xs) =
      let e : suc m + n ≡ suc (m + n) = omega arith in
      ap (λ k. drop k (x ∷ xs)) e ∙ drop-drop m n xs

  take_all : (n : ℕ) (xs : List A) → length xs ≤ n → take n xs ≡ xs
  take_all zero [] h = refl
  take_all (suc n) [] h = refl
  take_all zero (x ∷ xs) h = absurd (omega arith)
  take_all (suc n) (x ∷ xs) h = ap (λ rest. x ∷ rest) (take_all n xs (omega arith))

  length-take-le : (n : ℕ) (xs : List A) → length (take n xs) ≤ n
  length-take-le zero xs = omega arith
  length-take-le (suc n) [] = omega arith
  length-take-le (suc n) (x ∷ xs) = omega (arith, length-take-le n xs)

  -- A page is the next `limit` items, or those that are left.
  cut_page-inside :
      (items : List A) (offset limit : ℕ)
      → offset ≤ length items
      → cut_page items (pos offset) limit
        ≡ page
            (take limit (drop offset items))
            (if ltb (offset + limit) (length items) then some (offset + limit) else none)
  unfolding cut_page
  cut_page-inside items offset limit inside =
      let fine : ltb (length items) offset ≡ false = ground arith in
      elim (Bool-cases (leb (offset + limit) (length items))) [
        | inl e ↦
            let ends : page_end (length items) offset limit ≡ offset + limit = ground arith in
            let size : offset + limit - offset ≡ limit = omega arith in rw (fine, ends, size) refl
        | inr e ↦
            let ends : page_end (length items) offset limit ≡ length items = ground arith in
            let last : ltb (offset + limit) (length items) ≡ false = ground arith in
            let same : ltb (length items) (length items) ≡ false = ground arith in
            let left : take (length items - offset) (drop offset items)
                ≡ take limit (drop offset items) =
              take_all (length items - offset) (drop offset items)
                (omega (arith, length-drop offset items))
              ∙ sym
                  (take_all limit (drop offset items) (ground (arith, length-drop offset items))) in
            rw (fine, ends, last, same, left) refl
      ]

  follow-drop :
      (pages : ℕ) (items : List A) (limit offset : ℕ)
      → 0 < limit
      → offset ≤ length items
      → length items < offset + pages
      → follow pages items limit offset ≡ some (drop offset items)
  unfolding follow cut_page
  follow-drop zero items limit offset positive inside enough = absurd (omega arith)
  follow-drop (suc pages) items limit offset positive inside enough =
      rw (cut_page-inside items offset limit inside)
        (elim (Bool-cases (ltb (offset + limit) (length items))) [
          | inl e ↦
              rw
                (
                  e,
                  follow-drop pages items limit (offset + limit) positive (ground arith)
                      (ground arith),
                  drop-drop offset limit items,
                  take-append-drop limit (drop offset items),
                )
                refl
          | inr e ↦ rw e (
              ap some
                (take_all limit (drop offset items) (ground (arith, length-drop offset items))))
        ])

  -- A client that starts at offset 0 and follows the cursors gets every item once and in order,
  -- in at most one page more than there are items, for every positive limit.
  pub follow-every_item :
      (items : List A) (limit : ℕ)
      → 0 < limit
      → follow (length items + 1) items limit 0 ≡ some items
  follow-every_item items limit positive =
      follow-drop (length items + 1) items limit 0 positive (omega arith) (omega arith)

  cut_page-panics :
      (items : List A) (v limit : ℕ) → (cut_page items (to_int v) limit ≡ panicked) ↔ (2 ^ 63 ≤ v)
  unfolding cut_page to_int
  cut_page-panics items v limit = elim (Bool-cases (ltb v (2 ^ 63))) [
    | inl e ↦ rw e (λ h. absurd (go (ltb (length items) v) h), λ big. absurd (ground arith))
    | inr e ↦ rw e (λ h. ground arith, λ big. refl)
  ]
    where
      go :
          (b : Bool)
          → (if b
              then refused "cursor is beyond available results"
              else page (take (page_end (length items) v limit - v) (drop v items)) (
                  if ltb (page_end (length items) v limit) (length items)
                  then some (page_end (length items) v limit)
                  else none))
            ≡ panicked
          → ⊥
      go true h = ground (arith, h)
      go false h = ground (arith, h)

  -- With a cursor that parses to a 64-bit number and a good limit, the handler of a page panics
  -- if and only if the number is at least 2 to the power 63.
  pub get_page-panics :
      (parse_uint : String → Option ℕ) (items : List A) (raw : String) (limits : List String)
      (v limit : ℕ)
      → raw ≢ ""
      → parse_uint raw ≡ some v
      → parse_limit parse_uint limits ≡ ok limit
      → (get_page parse_uint items (raw ∷ []) limits ≡ panicked) ↔ (2 ^ 63 ≤ v)
  unfolding get_page pagination parse_cursor
  get_page-panics parse_uint items raw limits v limit named number limited_ =
      rw (==_eq-false raw "" named, number, limited_) (cut_page-panics items v limit)
