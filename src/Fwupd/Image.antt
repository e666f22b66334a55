-- ===== src/Fwupd/Image.antt =====
-- What the download makes of a whole image.
use mathlib.Core.List.{append_assoc}
use wbms.Prelude.{
  ℕ, zero, suc, ◌<◌, ◌≡◌, ◌≢◌, refl, ap, ◌∙◌, true, false, List, [], ◌∷◌, ◌++◌, length, arith, ◌==◌,
}
use wbms.Fwupd.{Flash, Session, Update, done, ◌>>◌, receive, receive_block, download}
use wbms.Fwupd.Blocks.{
  IsFlash, Block, le_bytes, encode, Fit, fit_cons, write_all, with_stream, stored, then-done,
  receive_block-payload,
}

module _ {F : Type 0} (drv : Flash F) where
  -- How a download ends: the flash has the image, and the stream behind it is what is left.
  pub record Downloaded (bs : List Block) (fuel : ℕ) (stop : ℕ) (s : Session F) (rest : List ℕ)
      : Type 0 where
    pub final : Session F
    pub ends : download drv fuel s ≡ done tt final
    pub flash : final.flash ≡ write_all drv bs s.flash
    pub input : final.input ≡ rest
    pub echo : final.echo ≡ s.echo ++ (encode bs ++ (stop ∷ []))

module _ {F : Type 0} (drv : Flash F) (law : IsFlash drv) where
  download-stop :
      (fuel stop : ℕ) (rest echo buf : List ℕ) (s : Session F)
      → stop ≢ 0
      → download drv (suc fuel) (with_stream s (stop ∷ rest) echo buf)
        ≡ done tt (with_stream s rest (echo ++ (stop ∷ [])) buf)
  unfolding download receive
  download-stop fuel stop rest echo buf s h =
      let other : (stop == 0) ≡ false = ground arith in
      ap
        (λ c.
          elim c as (λ x. Session F → Update F (Unit {0})) [
            | true ↦ receive_block drv >> download drv fuel
            | false ↦ λ s'. done tt s'
          ]
            (with_stream s rest (echo ++ (stop ∷ [])) buf))
        other

  -- The blocks of an image, with 32-bit addresses and payloads of less than 128 bytes, behind each other
  -- in the stream, and a byte that is not 0 behind them: with more fuel than blocks and a buffer of 240
  -- bytes the download ends normally. The flash then has every payload at its address, in the order of
  -- the blocks, all that was read was sent back, and the bytes behind are still to be read.
  pub download-image :
      (bs : List Block) (fuel stop : ℕ) (rest echo buf : List ℕ) (s : Session F)
      → Fit bs
      → length bs < fuel
      → stop ≢ 0
      → length buf ≡ 240
      → Downloaded drv bs fuel stop (with_stream s (encode bs ++ stop ∷ rest) echo buf) rest
  unfolding download receive encode write_all
  download-image bs zero stop rest echo buf s fits h g len = absurd (omega arith)
  download-image bs (suc fuel) zero rest echo buf s fits h g len = absurd (g refl)
  download-image [] (suc fuel) (suc n) rest echo buf s fits h g len = record {
    final = with_stream s rest (echo ++ (suc n ∷ [])) buf;
    ends = download-stop fuel (suc n) rest echo buf s g;
    flash = refl;
    input = refl;
    echo = refl;
  }
  download-image (b ∷ bs) (suc fuel) (suc n) rest echo buf s (fit_cons addr small fits) h g len =
      let behind = encode bs ++ (suc n ∷ rest) in
      let xs = b.payload in
      let (zs, full, e) =
        receive_block-payload drv law b.addr xs buf behind (echo ++ (0 ∷ [])) s addr small len in
      let echo' = (((echo ++ (0 ∷ [])) ++ le_bytes b.addr) ++ (length xs ∷ [])) ++ xs in
      let later =
        download-image bs fuel (suc n) rest echo' (xs ++ zs) (stored drv law b.addr xs s) fits
          (omega arith) g full in
      record {
        final = later.final;
        ends =
            ap
              (λ i.
                download drv (suc fuel)
                  (with_stream s (0 ∷ le_bytes b.addr ++ (length xs ∷ i)) echo buf))
              (append_assoc xs (encode bs) (suc n ∷ rest))
            ∙ then-done drv law (receive_block drv) (λ _. download drv fuel)
                (with_stream s (le_bytes b.addr ++ (length xs ∷ xs ++ behind)) (echo ++ (0 ∷ []))
                  buf)
                e
            ∙ later.ends;
        flash = later.flash;
        input = later.input;
        echo = later.echo ∙ simp append_assoc;
      }
