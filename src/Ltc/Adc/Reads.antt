-- ===== src/Ltc/Adc/Reads.antt =====
-- What the loops of `ltc_convadc` and `ltc_readcv` make of the chip's answers.
use wbms.Prelude.{
  ℕ, zero, suc, ◌+◌, ◌*◌, ◌%◌, ◌^◌, ◌≤◌, ◌<◌, ◌≡◌, ◌≢◌, refl, true, false, Option, none, some, List,
  [], ◌∷◌, ◌++◌, inl, inr, ◌==◌, Bool-cases, length, map, arith, Option-cases,
}
use wbms.Ltc.Adc.{poll, store_cell, store_cells, readcv}

module _ (answer : ℕ → ℕ) where
  -- The loop stops at the first answer that is not zero, and `iter` counts the answers before it.
  pub poll-first :
      (n iter j : ℕ)
      → iter ≤ j
      → j < iter + n
      → ((i : ℕ) → iter ≤ i → i < j → answer i ≡ 0)
      → answer j ≢ 0
      → poll answer n iter ≡ (true, j)
  unfolding poll
  poll-first zero iter j low high busy ready = absurd (omega arith)
  poll-first (suc n) iter j low high busy ready = elim (Bool-cases (iter == j)) [
    | inl here ↦ ground arith
    | inr before ↦
        let later : iter < j = ground arith in
        ground (
          arith,
          busy iter (omega arith) later,
          poll-first n (iter + 1) j (omega arith) (omega arith) (λ i above. busy i (omega arith))
              ready,
        )
  ]

  -- It ends after all its rounds if the chip stays busy; the code does not look at that.
  pub poll-silent :
      (n iter : ℕ)
      → ((i : ℕ) → iter ≤ i → i < iter + n → answer i ≡ 0)
      → poll answer n iter ≡ (false, iter + n)
  unfolding poll
  poll-silent zero iter busy = ground arith
  poll-silent (suc n) iter busy = ground (
    arith,
    busy iter (omega arith) (omega arith),
    poll-silent n (iter + 1) (λ i above below. busy i (omega arith) (omega arith)),
  )

-- What the chip answers to a read command: three voltages of two bytes, and their code.
pub record Reply : Type 0 where
  pub low0 : ℕ
  pub high0 : ℕ
  pub low1 : ℕ
  pub high1 : ℕ
  pub low2 : ℕ
  pub high2 : ℕ
  pub code : List ℕ

abbrev pub bytes_of : Reply → List ℕ
bytes_of r = r.low0 ∷ r.high0 ∷ r.low1 ∷ r.high1 ∷ r.low2 ∷ r.high2 ∷ r.code

unfoldable pub lows : List Reply → List ℕ
lows [] = []
lows (r ∷ rs) = r.low0 % 2 ^ 8 ∷ r.low1 % 2 ^ 8 ∷ r.low2 % 2 ^ 8 ∷ lows rs

abbrev behind : ℕ → Option (List ℕ) → Option (List ℕ)
behind x none = none
behind x (some l) = some (x ∷ l)

store_cell-cons :
    (buf : List ℕ) (m n x : ℕ) (cs : List ℕ)
    → store_cell buf m (suc n) (x ∷ cs) ≡ behind x (store_cell buf m n cs)
unfolding store_cell
store_cell-cons buf m n x cs = ground arith

store_cells-cons :
    (k : ℕ) (buf : List ℕ) (m n x : ℕ) (cs : List ℕ)
    → store_cells k buf m (suc n) (x ∷ cs) ≡ behind x (store_cells k buf m n cs)
unfolding store_cells
store_cells-cons zero buf m n x cs = refl
store_cells-cons (suc k) buf m n x cs = elim (Option-cases (store_cell buf m n cs)) [
  | inl gone ↦ ground (arith, store_cell-cons buf m n x cs)
  | inr (ds, e) ↦
      ground (arith, store_cell-cons buf m n x cs, store_cells-cons k buf (m + 2) (n + 1) x ds)
]

readcv-cons :
    (bufs : List (List ℕ)) (n x : ℕ) (cs : List ℕ)
    → readcv bufs (suc n) (x ∷ cs) ≡ behind x (readcv bufs n cs)
unfolding readcv
readcv-cons [] n x cs = refl
readcv-cons (buf ∷ bufs) n x cs = elim (Option-cases (store_cells 3 buf 0 n cs)) [
  | inl gone ↦ ground (arith, store_cells-cons 3 buf 0 n x cs)
  | inr (ds, e) ↦ ground (arith, store_cells-cons 3 buf 0 n x cs, readcv-cons bufs (n + 3) x ds)
]

low_byte : (l h : ℕ) → (l + h * 256) % 2 ^ 8 ≡ l % 2 ^ 8
low_byte l h = omega arith

three_cells :
    (r : Reply) (a b c : ℕ) (cs : List ℕ)
    → store_cells 3 (bytes_of r) 0 0 (a ∷ b ∷ c ∷ cs)
      ≡ some (r.low0 % 2 ^ 8 ∷ r.low1 % 2 ^ 8 ∷ r.low2 % 2 ^ 8 ∷ cs)
unfolding store_cells store_cell
three_cells r a b c cs =
    rw (low_byte r.low0 r.high0, low_byte r.low1 r.high1, low_byte r.low2 r.high2) refl

-- Of each voltage that the chip measures `ltc_readcv` keeps the low byte alone, and it leaves the
-- cells behind the last reply: with five replies of three cells the sixteenth cell is never written.
pub readcv-lows :
    (rs : List Reply) (old rest : List ℕ)
    → length old ≡ 3 * length rs
    → readcv (map bytes_of rs) 0 (old ++ rest) ≡ some (lows rs ++ rest)
unfolding readcv lows
readcv-lows [] [] rest e = refl
readcv-lows [] (x ∷ old) rest e = absurd (omega arith)
readcv-lows (r ∷ rs) (a ∷ b ∷ c ∷ old) rest e =
    let u = r.low0 % 2 ^ 8 in
    let v = r.low1 % 2 ^ 8 in
    let w = r.low2 % 2 ^ 8 in
    let cs = old ++ rest in
    let bufs = map bytes_of rs in
    ground (
      arith,
      three_cells r a b c cs,
      readcv-lows rs old rest (omega arith),
      readcv-cons bufs 2 u (v ∷ w ∷ cs),
      readcv-cons bufs 1 v (w ∷ cs),
      readcv-cons bufs 0 w cs,
    )
readcv-lows (r ∷ rs) [] rest e = absurd (omega arith)
readcv-lows (r ∷ rs) (x ∷ []) rest e = absurd (omega arith)
readcv-lows (r ∷ rs) (x ∷ y ∷ []) rest e = absurd (omega arith)
