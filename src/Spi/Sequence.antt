-- ===== src/Spi/Sequence.antt =====
-- What a command and its answer are on the bus.
use wbms.Prelude.{
  ℕ, zero, suc, ◌+◌, ◌≡◌, refl, ap, ◌∙◌, not, some, List, [], ◌∷◌, ◌++◌, length, get_elem?,
  get_elem?-middle, get_elem?-some, Bool, ◌≤◌, snoc-append, length-snoc, arith,
}
use wbms.Spi.{Chip, Bus, copy_rx, spi_write, spi_read, spi_read_seq}

copy_rx-behind :
    (xs pre : List ℕ) (i tx_len : ℕ)
    → i + tx_len ≡ length pre
    → copy_rx (length xs) i tx_len (pre ++ xs) ≡ some xs
unfolding copy_rx
copy_rx-behind [] pre i tx_len h = refl
copy_rx-behind (x ∷ xs) pre i tx_len h =
    let here : get_elem? (pre ++ (x ∷ xs)) (i + tx_len) ≡ some x =
      ap (λ j. get_elem? (pre ++ (x ∷ xs)) j) h ∙ get_elem?-middle pre x xs in
    let later : copy_rx (length xs) (i + 1) tx_len (pre ++ (x ∷ xs)) ≡ some xs =
      ap (λ l. copy_rx (length xs) (i + 1) tx_len l) (snoc-append pre x xs)
      ∙ copy_rx-behind xs (pre ++ (x ∷ [])) (i + 1) tx_len (omega (arith, length-snoc pre x)) in
    ground (arith, here, later)

-- A buffer that is long enough gives all the bytes.
pub copy_rx-all :
    (n i tx_len : ℕ) (buf : List ℕ)
    → i + n + tx_len ≤ length buf
    → (xs : List ℕ) × (copy_rx n i tx_len buf ≡ some xs) × (length xs ≡ n)
unfolding copy_rx
copy_rx-all zero i tx_len buf h = ([], refl, refl)
copy_rx-all (suc n) i tx_len buf h =
    let (x, e) = get_elem?-some buf (i + tx_len) (omega arith) in
    let (xs, later, size) = copy_rx-all n (i + 1) tx_len buf (omega arith) in
    (x ∷ xs, ground (arith, e, later), ap suc size)

-- As many bytes are received as are asked for.
abbrev pub IsFull : {S : Type 0} → Chip S → Type 0
IsFull {S} chip =
    (selected : Bool) (tx : List ℕ) (n : ℕ) (s : S) → length (chip.transfer selected tx n s).0 ≡ n

module _ {S : Type 0} (chip : Chip S) where
  -- A command is sent and then as many bytes are received as are asked for: where the chip gives as many
  -- bytes as the command has, and then its reply, the reply is what is read.
  pub spi_read_seq-reply :
      (cmd pre reply : List ℕ) (s : S) (b : Bus S)
      → chip.transfer (not b.high) cmd (length reply + length cmd) b.chip ≡ (pre ++ reply, s)
      → length pre ≡ length cmd
      → spi_read_seq chip cmd (length reply) b
        ≡ (some reply, record b { rxd_max_len = length reply + length cmd; chip = s })
  unfolding spi_read_seq spi_read
  spi_read_seq-reply cmd pre reply s b e h =
      ap
        (λ (r : List ℕ × S). (
          copy_rx (length reply) 0 (length cmd) r.0,
          record b { rxd_max_len = length reply + length cmd; chip = r.1 },
        ))
        e
      ∙ ap (λ o. (o, record b { rxd_max_len = length reply + length cmd; chip = s }))
          (copy_rx-behind reply pre 0 (length cmd) (omega arith))

  -- After a command and its answer, a write receives as many bytes as the two have, and puts them where
  -- the buffer of `mercury_spi_read_seq` was, which is gone.
  pub spi_write-stray :
      (src cmd : List ℕ) (n : ℕ) (b : Bus S)
      → (spi_write chip src (spi_read_seq chip cmd n b).1).stray ≡ b.stray + (n + length cmd)
  unfolding spi_write spi_read_seq spi_read
  spi_write-stray src cmd n b = refl

  pub spi_read_seq-all :
      IsFull chip
      → (cmd : List ℕ) (n : ℕ) (b : Bus S)
      → (xs : List ℕ) × ((spi_read_seq chip cmd n b).0 ≡ some xs) × (length xs ≡ n)
  unfolding spi_read_seq spi_read
  spi_read_seq-all full cmd n b =
      let received = chip.transfer (not b.high) cmd (n + length cmd) b.chip in
      copy_rx-all n 0 (length cmd) received.0
        (omega (arith, full (not b.high) cmd (n + length cmd) b.chip))
