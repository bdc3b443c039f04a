-- ===== src/Evidence/Digest.antt =====
-- What `validHash` of internal/evidence/raw.go accepts.
use harness_trajectory_bench.Prelude.{
  String, ◌≡◌, refl, sym, ◌∙◌, ◌↔◌, true, false, arith, ◌!=◌, nat_eq, string_eq, bool_eq, list_eq,
  pair_eq, length, All, !=-eq-false, codes, utf8, len,
}
use harness_trajectory_bench.Hex.{all_lower_hex}
use harness_trajectory_bench.Hex.Digits.{LowerHex, all_lower_hex_iff, hex_decode-LowerHex}
use harness_trajectory_bench.Evidence.Raw.{valid_hash}
use harness_trajectory_bench.Evidence.Chain.{length-utf8-hex}

-- 64 lower-case hexadecimal digits.
pub record IsDigest (s : String) : Type 0 where
  pub sized : length (codes s) ≡ 64
  pub digits : All LowerHex (codes s)

pub valid_hash_iff : (s : String) → (valid_hash s ≡ true) ↔ IsDigest s
unfolding valid_hash len
valid_hash_iff s = (accepts, valid)
  where
    accepts : valid_hash s ≡ true → IsDigest s
    accepts e =
        let lower : all_lower_hex (codes s) ≡ true = ground arith in
        let size : (length (utf8 s) != 64) ≡ false = ground arith in
        record {
          sized = sym (length-utf8-hex s lower) ∙ !=-eq-false (length (utf8 s)) 64 size;
          digits = (all_lower_hex_iff (codes s)).0 lower;
        }

    valid : IsDigest s → valid_hash s ≡ true
    valid h =
        let lower = (all_lower_hex_iff (codes s)).1 h.digits in
        let size = length-utf8-hex s lower ∙ h.sized in
        let (b, f) = hex_decode-LowerHex 32 (codes s) (omega (arith, h.sized)) lower in
        rw (size, lower, f) refl
