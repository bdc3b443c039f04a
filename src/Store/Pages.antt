-- ===== src/Store/Pages.antt =====
-- `pagination` and the pages of runs and of events in internal/api/server.go.
use harness_trajectory_bench.Prelude.{
  ℕ, zero, suc, ◌+◌, ◌-◌, ◌^◌, String, ◌||◌, Option, none, some, List, ◌∷◌, ◌++◌, ltb, leb,
  if◌then◌else◌, ◌==◌, length, take, drop, Result, ok, err, ◌>>=◌, reject, ℤ, pos, negsuc, [],
  nat_eq, string_eq, bool_eq, list_eq, pair_eq, ◌>>◌,
}

-- `int(v)` of a 64-bit `v`.
unfoldable pub to_int : ℕ → ℤ
to_int v = if ltb v (2 ^ 63) then pos v else negsuc (2 ^ 64 - v - 1)

-- A parameter of a query: absent, or with its values. `strconv.ParseUint` of the value is an argument.
module _ (parse_uint : String → Option ℕ) where
  abbrev pub parsed : String → Option ℕ → Result ℕ
  parsed message (some v) = ok v
  parsed message none = err message

  unfoldable pub parse_cursor : List String → Result ℤ
  parse_cursor [] = ok (pos 0)
  parse_cursor (raw ∷ []) =
      if raw == ""
      then ok (pos 0)
      else (parsed "cursor must be a non-negative integer" (parse_uint raw) >>= λ v. ok (to_int v))
  parse_cursor (raw ∷ other ∷ rest) = err "cursor must be specified once"

  abbrev pub limited : ℕ → Result ℕ
  limited v = do reject ((v == 0) || ltb 100 v) "limit must be an integer from 1 to 100"; ok v

  unfoldable pub parse_limit : List String → Result ℕ
  parse_limit [] = ok 100
  parse_limit (raw ∷ []) =
      if raw == ""
      then ok 100
      else (parsed "limit must be an integer from 1 to 100" (parse_uint raw) >>= limited)
  parse_limit (raw ∷ other ∷ rest) = err "limit must be specified once"

  unfoldable pub pagination : List String → List String → Result (ℤ × ℕ)
  pagination cursor limit = do offset ← parse_cursor cursor; n ← parse_limit limit; ok (offset, n)

-- The reply to a request for a page: a page with the cursor of the next one, an error, or a panic,
-- since a slice with a negative bound panics.
pub data PageReply {ℓ} (A : Type ℓ) : Type ℓ where
  page : List A → Option ℕ → PageReply A
  refused : String → PageReply A
  panicked : PageReply A

abbrev pub page_end : ℕ → ℕ → ℕ → ℕ
page_end size offset limit = if leb limit (size - offset) then offset + limit else size

module _ {ℓ} {A : Type ℓ} where
  unfoldable pub cut_page : List A → ℤ → ℕ → PageReply A
  cut_page items (negsuc n) limit = panicked
  cut_page items (pos offset) limit =
      let end = page_end (length items) offset limit in
      if ltb (length items) offset
      then refused "cursor is beyond available results"
      else page (take (end - offset) (drop offset items))
          (if ltb end (length items) then some end else none)

  abbrev pub replied : List A → Result (ℤ × ℕ) → PageReply A
  replied items (err m) = refused m
  replied items (ok (offset, limit)) = cut_page items offset limit

  unfoldable pub get_page : (String → Option ℕ) → List A → List String → List String → PageReply A
  get_page parse_uint items cursor limit = replied items (pagination parse_uint cursor limit)

  abbrev pub prepend : List A → Option (List A) → Option (List A)
  prepend front none = none
  prepend front (some back) = some (front ++ back)

  abbrev pub after_page : List A → (ℕ → Option (List A)) → PageReply A → Option (List A)
  after_page items more (page some_items (some next)) = prepend some_items (more next)
  after_page items more (page some_items none) = some some_items
  after_page items more (refused m) = none
  after_page items more panicked = none

  -- A client that follows the cursors from an offset on, for so many pages at most.
  unfoldable pub follow : ℕ → List A → ℕ → ℕ → Option (List A)
  follow zero items limit offset = none
  follow (suc pages) items limit offset =
      let more = follow pages items limit in
      after_page items more (cut_page items (pos offset) limit)
