-- ===== src/Mesh/Token.antt =====
-- `token_gen`, the token of src/fnv.c: the hash of a time stamp printed in decimal.
use wbms.Prelude.{ℕ, zero, suc, ◌+◌, ◌/◌, ◌%◌, List, [], ◌∷◌, ◌==◌, if◌then◌else◌}

-- The decimal digits of `sprintf("%lu")`, in front of `rest`. Ten digits are enough for 32 bits.
unfoldable pub decimal_onto : ℕ → ℕ → List ℕ → List ℕ
decimal_onto zero n rest = rest
decimal_onto (suc f) n rest =
    let out = (b'0' + n % 10) ∷ rest in
    let more = decimal_onto f (n / 10) out in if n / 10 == 0 then out else more

unfoldable pub decimal : ℕ → List ℕ
unfolding decimal_onto
decimal n = decimal_onto 10 n []

-- FNV1_32A_INIT
abbrev pub fnv1_32a_init : ℕ
fnv1_32a_init = 0x811c9dc5

-- `token_gen`, with `fnv_32a_str` as the hash
unfoldable pub token_gen : (List ℕ → ℕ → ℕ) → ℕ → ℕ
unfolding decimal
token_gen fnv_32a_str timestamp = fnv_32a_str (decimal timestamp) fnv1_32a_init
