-- ===== src/Fwupd/Stage.antt =====
-- The final stage of the update, `mercury_fwupd_stageF`: the pages that it erases, and the loop that
-- copies the staged words. Memory is a function of the word's index; the ready register, which the code
-- polls, is taken to be set.
use wbms.Prelude.{
  ℕ, zero, suc, ◌+◌, ◌≤◌, ◌<◌, ◌≡◌, refl, ap, ◌∙◌, true, false, Option, none, some, List, [], ◌∷◌,
  ltb, ◌==◌, if◌then◌else◌, arith, Bool-cases, inl, inr,
}

-- The values of `eraseRegister`, from `baseAddr` on, by the rounds left of 64.
unfoldable pub erased_pages : ℕ → ℕ → List ℕ
erased_pages zero base = []
erased_pages (suc n) base = base ∷ erased_pages n (base + 0x1000)

-- The variables of the copy loop, with `sourceAddr` and `destAddr` as indexes of words.
pub record Copy : Type 0 where
  pub pos : ℕ
  pub source : ℕ
  pub dest : ℕ
  pub memory : ℕ → ℕ

-- One round. `pos` is not written.
unfoldable pub copy_round : Copy → Copy
copy_round c = record c {
  memory = λ i. if i == c.dest then c.memory c.source else c.memory i;
  dest = c.dest + 1;
  source = c.source + 1;
}

-- `while (pos < 0x3FFFF)`, on fuel: `none` if the loop is not at its end.
unfoldable pub copy_loop : ℕ → Copy → Option Copy
unfolding copy_round
copy_loop zero c = none
copy_loop (suc fuel) c = elim (ltb c.pos 0x3ffff) [
  | true ↦ copy_loop fuel (copy_round c)
  | false ↦ some c
]

-- Before the loop: the staged firmware starts at byte 0x40000.
abbrev pub copy_start : (ℕ → ℕ) → Copy
copy_start memory = record { pos = 0; source = 0x10000; dest = 0; memory = memory }

pub copy_rounds : ℕ → Copy → Copy
copy_rounds zero c = c
copy_rounds (suc n) c = copy_round (copy_rounds n c)

copy_loop-stuck : (fuel : ℕ) (c : Copy) → c.pos ≡ 0 → copy_loop fuel c ≡ none
unfolding copy_loop copy_round
copy_loop-stuck zero c h = refl
copy_loop-stuck (suc fuel) c h = ground (arith, copy_loop-stuck fuel (copy_round c))

-- The loop never ends: with any fuel it has not come to its end, since `pos` stays 0. So the reset
-- behind it is never reached.
pub copy_loop-endless : (fuel : ℕ) (memory : ℕ → ℕ) → copy_loop fuel (copy_start memory) ≡ none
copy_loop-endless fuel memory = copy_loop-stuck fuel (copy_start memory) refl

-- The variables after some rounds.
pub record Copied (memory : ℕ → ℕ) (n : ℕ) (c : Copy) : Type 0 where
  pub source : c.source ≡ 0x10000 + n
  pub dest : c.dest ≡ n
  pub image : (i : ℕ) → i < n → c.memory i ≡ memory (0x10000 + i)
  pub rest : (i : ℕ) → n ≤ i → c.memory i ≡ memory i

copy_round-Copied :
    {memory : ℕ → ℕ} (n : ℕ) (c : Copy)
    → n < 0x10000
    → Copied memory n c
    → Copied memory (suc n) (copy_round c)
unfolding copy_round
copy_round-Copied {memory} n c h before = record {
  source = omega (arith, before.source);
  dest = omega (arith, before.dest);
  image = λ i below. elim (Bool-cases (i == c.dest)) [
    | inl here ↦
        let last : i ≡ n = ground (arith, before.dest) in
        rw (here, last)
          (ap (λ j. c.memory j) before.source ∙ before.rest (0x10000 + n) (omega arith))
    | inr other ↦ rw other (before.image i (ground (arith, before.dest)))
  ];
  rest = λ i above. elim (Bool-cases (i == c.dest)) [
    | inl here ↦ absurd (ground (arith, before.dest))
    | inr other ↦ rw other (before.rest i (omega arith))
  ];
}

-- As long as it copies the staged firmware, for up to 2^16 rounds, every round adds the next of its
-- words to those at the start of the memory, in order, and leaves all others, the staged ones too, as
-- they were.
pub copy_rounds-Copied :
    (memory : ℕ → ℕ) (n : ℕ) → n ≤ 0x10000 → Copied memory n (copy_rounds n (copy_start memory))
unfolding copy_rounds
copy_rounds-Copied memory zero h = record {
  source = refl;
  dest = refl;
  image = λ i below. absurd (omega arith);
  rest = λ i above. refl;
}
copy_rounds-Copied memory (suc n) h =
    copy_round-Copied n (copy_rounds n (copy_start memory)) (omega arith)
      (copy_rounds-Copied memory n (omega arith))
