-- ===== src/Appender/Lines.antt =====
-- How the frames of a log grow when a line is written behind it.
use mathlib.Core.List.{append-nil, append_assoc}
use native.Mathlib.Nat.{add-zero}
use harness_trajectory_bench.Prelude.{
  ℕ, ◌+◌, ◌≡◌, refl, sym, ap, ◌∙◌, inl, inr, Bool, true, false, List, [], ◌∷◌, ◌++◌, arith,
  if◌then◌else◌, ◌==◌, ==_iff, nat_eq, string_eq, bool_eq, list_eq, pair_eq, Bool-cases, Bytes,
  length, All, Result, ok, err, ◌>>=◌, >>=-eq-ok,
}
use harness_trajectory_bench.Hex.{Sha256}
use harness_trajectory_bench.Events.Codec.{Codec}
use harness_trajectory_bench.Appender.Frames.{
  newline, zero_head, ends_line, split_lines, Recovered, validate_frame, validate_lines,
  recover_frames,
}

abbrev pub IsLine : Bytes → Type 0
IsLine = All (λ b. (b == newline) ≡ false)

-- What follows the last newline, behind the part `line` of the first line.
rest_of : Bytes → Bytes → Bytes
rest_of line [] = line
rest_of line (b ∷ bs) = rest_of (if b == newline then [] else line ++ b ∷ []) bs

split_lines-append :
    (line xs ys : Bytes)
    → split_lines line (xs ++ ys) ≡ split_lines line xs ++ split_lines (rest_of line xs) ys
unfolding split_lines rest_of
split_lines-append line [] ys = refl
split_lines-append line (b ∷ bs) ys = elim (Bool-cases (b == newline)) [
  | inl e ↦ rw e (ap (λ ls. line ∷ ls) (split_lines-append [] bs ys))
  | inr e ↦ rw e (split_lines-append (line ++ b ∷ []) bs ys)
]

rest_of-ends_line : (line xs : Bytes) → ends_line xs ≡ true → rest_of line xs ≡ []
unfolding rest_of
rest_of-ends_line line [] h = cc
rest_of-ends_line line (b ∷ []) h = rw h
rest_of-ends_line line (b ∷ c ∷ bs) h =
    rest_of-ends_line (if b == newline then [] else line ++ b ∷ []) (c ∷ bs) h

split_lines-line :
    (line payload : Bytes)
    → IsLine payload
    → split_lines line (payload ++ newline ∷ []) ≡ (line ++ payload) ∷ []
unfolding split_lines
split_lines-line line [] h = rw append-nil
split_lines-line line (b ∷ bs) h =
    rw h.0 (split_lines-line (line ++ b ∷ []) bs h.1 ∙ ap (λ l. l ∷ []) (append_assoc line _ bs))

ends_line-append : (xs : Bytes) (y : ℕ) (ys : Bytes) → ends_line (xs ++ y ∷ ys) ≡ ends_line (y ∷ ys)
ends_line-append [] y ys = refl
ends_line-append (b ∷ []) y ys = refl
ends_line-append (b ∷ c ∷ bs) y ys = ends_line-append (c ∷ bs) y ys

-- A log that can be read: empty, or ended by a newline.
abbrev pub is_whole : Bytes → Bool
is_whole [] = true
is_whole (b ∷ bs) = ends_line (b ∷ bs)

rest_of-is_whole : (xs : Bytes) → is_whole xs ≡ true → rest_of [] xs ≡ []
unfolding rest_of
rest_of-is_whole [] h = refl
rest_of-is_whole (b ∷ bs) h = rest_of-ends_line [] (b ∷ bs) h

line-ends : (payload : Bytes) → ends_line (payload ++ newline ∷ []) ≡ true
line-ends [] = refl
line-ends (b ∷ bs) = ends_line-append (b ∷ bs) newline []

ends_line-behind : (xs ys : Bytes) → ends_line ys ≡ true → ends_line (xs ++ ys) ≡ true
ends_line-behind xs [] h = cc
ends_line-behind xs (y ∷ ys) h = ends_line-append xs y ys ∙ h

is_whole-ends_line : (xs : Bytes) → ends_line xs ≡ true → is_whole xs ≡ true
is_whole-ends_line [] h = refl
is_whole-ends_line (x ∷ xs) h = h

abbrev pub join_lines : List Bytes → Bytes
join_lines [] = []
join_lines (p ∷ ps) = (p ++ newline ∷ []) ++ join_lines ps

join-split-rest : (line b : Bytes) → join_lines (split_lines line b) ++ rest_of line b ≡ line ++ b
unfolding split_lines rest_of
join-split-rest line [] = sym (append-nil line)
join-split-rest line (b ∷ bs) = elim (Bool-cases (b == newline)) [
  | inl e ↦ rw e (
      append_assoc (line ++ newline ∷ []) (join_lines (split_lines [] bs)) (rest_of [] bs)
      ∙ ap (λ t. (line ++ newline ∷ []) ++ t) (join-split-rest [] bs)
      ∙ append_assoc line (newline ∷ []) bs
      ∙ ap (λ c. line ++ c ∷ bs) (sym ((==_iff b newline).0 e)))
  | inr e ↦ rw e (join-split-rest (line ++ b ∷ []) bs ∙ append_assoc line (b ∷ []) bs)
]

-- A whole log is its lines, each with its newline.
pub join-split_lines : (b : Bytes) → is_whole b ≡ true → join_lines (split_lines [] b) ≡ b
join-split_lines b h =
    sym (append-nil (join_lines (split_lines [] b)))
    ∙ ap (λ t. join_lines (split_lines [] b) ++ t) (sym (rest_of-is_whole b h))
    ∙ join-split-rest [] b

pub is_whole-append : (xs payload : Bytes) → is_whole (xs ++ (payload ++ newline ∷ [])) ≡ true
is_whole-append xs payload =
    is_whole-ends_line (xs ++ (payload ++ newline ∷ []))
      (ends_line-behind xs (payload ++ newline ∷ []) (line-ends payload))

-- One more line behind a whole log is one more frame.
pub split_lines-whole :
    (file payload : Bytes)
    → is_whole file ≡ true
    → IsLine payload
    → split_lines [] (file ++ (payload ++ newline ∷ [])) ≡ split_lines [] file ++ payload ∷ []
split_lines-whole file payload w h =
    rw (split_lines-append, rest_of-is_whole file w)
      (ap (λ ls. split_lines [] file ++ ls) (split_lines-line [] payload h))

>>=-ok {ℓ} : {A : Type ℓ} (m : Result A) → (m >>= λ a. ok a) ≡ m
>>=-ok (ok a) = refl
>>=-ok (err e) = refl

abbrev pub start : Recovered
start = record { events = []; head = zero_head }

module _ (json : Codec) (hash : Sha256) where
  pub validate_lines-append :
      (n : ℕ) (r s : Recovered) (xs : List Bytes) (y : Bytes)
      → validate_lines json hash n r xs ≡ ok s
      → validate_lines json hash n r (xs ++ y ∷ []) ≡ validate_frame json hash (n + length xs) s y
  unfolding validate_lines
  validate_lines-append n r s [] y h = cc (add-zero n, >>=-ok (validate_frame json hash n r y))
  validate_lines-append n r s (x ∷ xs) y h =
      let (next, e, f) = >>=-eq-ok (validate_frame json hash n r x) _ h in
      rw e (
        validate_lines-append (n + 1) next s xs y f
        ∙ ap (λ k. validate_frame json hash k s y) (omega arith))

  pub recover_frames-whole :
      (file : Bytes)
      → is_whole file ≡ true
      → recover_frames json hash file ≡ validate_lines json hash 1 start (split_lines [] file)
  unfolding recover_frames split_lines
  recover_frames-whole [] h = refl
  recover_frames-whole (b ∷ bs) h = rw h

  pub is_whole-recovered :
      (file : Bytes) {r : Recovered} → recover_frames json hash file ≡ ok r → is_whole file ≡ true
  unfolding recover_frames
  is_whole-recovered [] h = refl
  is_whole-recovered (b ∷ bs) h = ground arith
