-- ===== src/Ltc/Init.antt =====
-- The return code of `mercury_ltc_init` of src/hg_ltc.c: the configuration that is read back is
-- accepted by its packet error codes. The transfers stand in Ltc/Device.antt; here is what
-- is made of the two buffers that the chip answers.
use wbms.Prelude.{
  ℕ, zero, suc, ◌+◌, ◌-◌, ◌*◌, ◌≡◌, ◌↔◌, List, [], ◌∷◌, leb, ◌==◌, if◌then◌else◌, arith,
}
use wbms.Ltc.Pec.{calc_pec}

-- `negsuc n` is -(n + 1).
pub data ℤ : Type 0 where
  pos : ℕ → ℤ
  negsuc : ℕ → ℤ

unfoldable pub minus : ℤ → ℕ → ℤ
minus (pos a) b = if leb b a then pos (a - b) else negsuc (b - a - 1)
minus (negsuc a) b = negsuc (a + b)

unfoldable pub take : ℕ → List ℕ → List ℕ
take zero l = []
take (suc n) [] = []
take (suc n) (x ∷ xs) = x ∷ take n xs

-- `pecARef` and `pecBRef`
abbrev pec_a_ref : ℕ
pec_a_ref = 0x47 * 256 + 0x48

abbrev pec_b_ref : ℕ
pec_b_ref = 0x90 * 256 + 0x5a

-- From `int8_t retCode = 0` on
unfoldable pub ret_code : ℕ → ℕ → ℤ
unfolding minus
ret_code pec_a pec_b =
    let code = if pec_a == pec_a_ref then pos 0 else minus (pos 0) 1 in
    if pec_b == pec_b_ref then code else minus code 10

-- The code for the two buffers, of which the first six bytes are checked.
unfoldable pub init : List ℕ → List ℕ → ℤ
unfolding ret_code take
init buffer_a buffer_b = ret_code (calc_pec (take 6 buffer_a)) (calc_pec (take 6 buffer_b))

-- The code is 0 exactly when both configurations have the expected codes.
pub init-zero :
    (a b : List ℕ)
    → (init a b ≡ pos 0) ↔ ((calc_pec (take 6 a) ≡ 0x4748) × (calc_pec (take 6 b) ≡ 0x905a))
unfolding init
init-zero a b = ground arith
