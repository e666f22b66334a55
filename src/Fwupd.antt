-- ===== src/Fwupd.antt =====
-- The firmware update, src/fwupd.c: blocks that come over the UART are echoed, written behind
-- FWUPD_STAGING_POS and compared. The UART is a list of the bytes that come; where the list ends the
-- code polls for ever. The flash driver is a parameter.
pub mod Blocks
pub mod Image
pub mod Stage
use wbms.Prelude.{
  ℕ, zero, suc, ◌+◌, ◌*◌, ◌-◌, ◌%◌, ◌^◌, Bool, true, false, ◌&&◌, not, List, [], ◌∷◌, ◌++◌, ltb,
  ◌==◌, if◌then◌else◌, Option, none, some, get_elem?, set,
}

-- `flash_erase` of the `z`-th page, as `flash_get_page_info_by_idx` gives it (`true` for a non-zero
-- return), `flash_write(offset, data, len)`, of which the code does not look at the return value, and
-- `flash_read(offset, len)`.
pub record Flash (F : Type 0) : Type 0 where
  pub erase : ℕ → F → Bool × F
  pub write : ℕ → List ℕ → ℕ → F → F
  pub read : ℕ → ℕ → F → List ℕ

-- The variables of `mercury_fwupd_entryPoint`: what comes and what was sent back, `bufData`, the
-- flash, `ledState`.
pub record Session (F : Type 0) : Type 0 where
  pub input : List ℕ
  pub echo : List ℕ
  pub buf_data : List ℕ
  pub flash : F
  pub led_state : Bool

-- How a part of it ends: normally, waiting for a byte for ever, or in `mercury_led_fatal`.
pub data Update (F A : Type 0) : Type 0 where
  done : A → Session F → Update F A
  waits : Session F → Update F A
  halted : ℕ → Session F → Update F A
  no_fuel : Update F A

module _ {F : Type 0} where
  infixl 5 ◌>>=◌ ◌>>◌
  abbrev pub ◌>>=◌ :
      {A B : Type 0}
      → (Session F → Update F A)
      → (A → Session F → Update F B)
      → Session F
      → Update F B
  ◌>>=◌ m k s = elim (m s) [
    | done a s' ↦ k a s'
    | waits s' ↦ waits s'
    | halted n s' ↦ halted n s'
    | no_fuel ↦ no_fuel
  ]

  abbrev pub ◌>>◌ :
      {B : Type 0}
      → (Session F → Update F (Unit {0}))
      → (Session F → Update F B)
      → Session F
      → Update F B
  ◌>>◌ m k = m >>= λ _. k

  -- `while (uart_poll_in(uart_dev, &b) != 0) {}` and `uart_poll_out(uart_dev, b)`
  unfoldable pub receive : Session F → Update F ℕ
  receive s = elim s.input [
    | [] ↦ waits s
    | b ∷ bs ↦ done b (record s { input = bs; echo = s.echo ++ (b ∷ []) })
  ]

  -- `while (buffPos < n)`, by the bytes left: each byte is put into `bufData`. No count is above 127,
  -- and `bufData` has 240 bytes.
  unfoldable pub receive_into : ℕ → ℕ → Session F → Update F (Unit {0})
  unfolding receive
  receive_into zero pos s = done tt s
  receive_into (suc n) pos s = elim (receive s) [
    | done b s' ↦ receive_into n (pos + 1) (record s' { buf_data = set s'.buf_data pos b })
    | waits s' ↦ waits s'
    | halted c s' ↦ halted c s'
    | no_fuel ↦ no_fuel
  ]

-- `baseAddr`, from the first four bytes of `bufData`; the product is cut to 32 bits.
unfoldable pub base_addr : List ℕ → ℕ
base_addr (a ∷ b ∷ c ∷ d ∷ rest) = (a + 256 * b + 256 * 256 * c + 256 * 256 * 256 * d) % 2 ^ 32
base_addr _ = 0

-- `payloadSize` is an `int8_t`: the rounds of the loops up to it, and its value as a `size_t`.
unfoldable pub payload_rounds : ℕ → ℕ
payload_rounds b = if ltb b 128 then b else 0

unfoldable pub payload_len : ℕ → ℕ
payload_len b = if ltb b 128 then b else 2 ^ 32 - 256 + b

-- The comparison of `block2` with `bufData`, over the first `n` bytes.
unfoldable pub same_bytes : ℕ → List ℕ → List ℕ → Bool
same_bytes zero xs ys = true
same_bytes (suc n) (x ∷ xs) (y ∷ ys) = x == y && same_bytes n xs ys
same_bytes (suc n) _ _ = false

module _ {F : Type 0} (drv : Flash F) where
  -- The erasing of the pages from `z` on, by the pages left: `mercury_led_fatal(6)` if one fails.
  unfoldable pub erase_pages : ℕ → ℕ → Session F → Update F (Unit {0})
  erase_pages zero z s = done tt s
  erase_pages (suc n) z s =
      let (failed, f) = drv.erase z s.flash in
      elim failed [
        | true ↦ halted 6 (record s { flash = f })
        | false ↦ erase_pages n (z + 1) (record s { flash = f })
      ]

  -- From `flash_write` to the end of the round, for the base address and the size byte.
  unfoldable pub store_block : ℕ → ℕ → Session F → Update F (Unit {0})
  unfolding payload_rounds payload_len same_bytes
  store_block base b s =
      let offset = (0x40000 + base) % 2 ^ 32 in
      let f = drv.write offset s.buf_data (payload_len b) s.flash in
      let s' = record s { flash = f } in
      let block2 = drv.read offset (payload_len b) f in
      if same_bytes (payload_rounds b) block2 s.buf_data
      then done tt (record s' { led_state = not s.led_state })
      else halted 3 s'

  -- The round of the loop behind a message type of 0.
  unfoldable pub receive_block : Session F → Update F (Unit {0})
  unfolding receive receive_into base_addr store_block payload_rounds
  receive_block = do
    receive_into 4 0
    base ← (λ s. done (base_addr s.buf_data) s)
    b ← receive
    receive_into (payload_rounds b) 0
    store_block base b

  -- `while (true)`, on fuel: any other message type ends it.
  unfoldable pub download : ℕ → Session F → Update F (Unit {0})
  unfolding receive receive_block
  download zero s = no_fuel
  download (suc fuel) s =
      (receive >>= λ m_type. elim (m_type == 0) [
        | true ↦ receive_block >> download fuel
        | false ↦ λ s'. done tt s'
      ])
        s

  -- `mercury_fwupd_entryPoint`, with the two devices bound, as far as `mercury_fwupd_stageF`.
  unfoldable pub entry_point : ℕ → Session F → Update F (Unit {0})
  unfolding erase_pages download
  entry_point fuel = do erase_pages 64 64; download fuel
