-- ===== src/Fwupd/Blocks.antt =====
-- A firmware image as the blocks that are sent, and what one of them does.
use mathlib.Core.List.{append_assoc, append-nil}
use wbms.Prelude.{
  ℕ, ◌+◌, ◌-◌, ◌/◌, ◌%◌, ◌^◌, ◌≤◌, ◌<◌, ◌≡◌, refl, sym, ap, ◌∙◌, true, false, List, [], ◌∷◌, ◌++◌,
  not, lt→ltb, ltb, length, length-append, set-middle, snoc-append, length-snoc, cut_at, arith,
}
use wbms.Fwupd.{
  Flash, Session, Update, done, waits, halted, no_fuel, ◌>>◌, ◌>>=◌, receive, receive_into,
  base_addr, payload_rounds, payload_len, same_bytes, store_block, receive_block,
}

-- What the update relies on of a flash that works where it has been erased.
pub record IsFlash {F : Type 0} (drv : Flash F) : Type 0 where
  pub read_back :
      (a : ℕ) (xs ys : List ℕ) (f : F)
      → length xs < 128
      → drv.read a (length xs) (drv.write a (xs ++ ys) (length xs) f) ≡ xs
  -- only `len` bytes are written
  pub prefix :
      (a : ℕ) (xs ys : List ℕ) (f : F)
      → drv.write a (xs ++ ys) (length xs) f ≡ drv.write a xs (length xs) f

pub record Block : Type 0 where
  pub addr : ℕ
  pub payload : List ℕ

-- The four bytes of an address.
abbrev pub le_bytes : ℕ → List ℕ
le_bytes a = a % 256 ∷ a / 256 % 256 ∷ a / 65536 % 256 ∷ a / 16777216 % 256 ∷ []

abbrev pub encode_block : Block → List ℕ
encode_block b = 0 ∷ le_bytes b.addr ++ (length b.payload ∷ b.payload)

unfoldable pub encode : List Block → List ℕ
encode [] = []
encode (b ∷ bs) = encode_block b ++ encode bs

-- The blocks that an `int8_t` size can announce, with 32-bit addresses.
pub data Fit : List Block → Type 0 where
  fit_nil : Fit []
  fit_cons :
      {b : Block} {bs : List Block}
      → b.addr < 2 ^ 32
      → length b.payload < 128
      → Fit bs
      → Fit (b ∷ bs)

module _ {F : Type 0} where
  -- The image in the flash: every payload behind FWUPD_STAGING_POS.
  unfoldable pub write_all : Flash F → List Block → F → F
  write_all drv [] f = f
  write_all drv (b ∷ bs) f =
      write_all drv bs (drv.write ((0x40000 + b.addr) % 2 ^ 32) b.payload (length b.payload) f)

  -- The session with what comes, what was sent back, and the buffer.
  abbrev pub with_stream : Session F → List ℕ → List ℕ → List ℕ → Session F
  with_stream s input echo buf = record s { input = input; echo = echo; buf_data = buf }

  receive_into-bytes :
      (xs us pre zs rest echo : List ℕ) (s : Session F)
      → length us ≡ length xs
      → receive_into (length xs) (length pre) (with_stream s (xs ++ rest) echo (pre ++ (us ++ zs)))
        ≡ done tt (with_stream s rest (echo ++ xs) (pre ++ (xs ++ zs)))
  unfolding receive_into receive
  receive_into-bytes [] [] pre zs rest echo s h =
      ap (λ e. done tt (with_stream s rest e (pre ++ zs))) (sym (append-nil echo))
  receive_into-bytes [] (u ∷ us) pre zs rest echo s h = absurd (omega arith)
  receive_into-bytes (x ∷ xs) [] pre zs rest echo s h = absurd (omega arith)
  receive_into-bytes (x ∷ xs) (u ∷ us) pre zs rest echo s h =
      let n = length xs in
      let echo' = echo ++ (x ∷ []) in
      let pre' = pre ++ (x ∷ []) in
      ap (λ b. receive_into n (length pre + 1) (with_stream s (xs ++ rest) echo' b))
        (set-middle pre u x (us ++ zs) ∙ snoc-append pre x (us ++ zs))
      ∙ ap (λ i. receive_into n i (with_stream s (xs ++ rest) echo' (pre' ++ (us ++ zs))))
          (sym (length-snoc pre x))
      ∙ receive_into-bytes xs us pre' zs rest echo' s (omega arith)
      ∙ ap (λ e. done tt (with_stream s rest e (pre' ++ (xs ++ zs))))
          (append_assoc echo (x ∷ []) xs)
      ∙ ap (λ b. done tt (with_stream s rest (echo ++ (x ∷ xs)) b))
          (sym (snoc-append pre x (xs ++ zs)))

same_bytes-prefix : (xs ys : List ℕ) → same_bytes (length xs) xs (xs ++ ys) ≡ true
unfolding same_bytes
same_bytes-prefix [] ys = refl
same_bytes-prefix (x ∷ xs) ys = ground (arith, same_bytes-prefix xs ys)

base_addr-le_bytes : (a : ℕ) (rest : List ℕ) → a < 2 ^ 32 → base_addr (le_bytes a ++ rest) ≡ a
unfolding base_addr
base_addr-le_bytes a rest h = omega arith

module _ {F : Type 0} (drv : Flash F) (law : IsFlash drv) where
  -- The session behind a payload: the flash has it, and the LED has changed.
  abbrev pub stored : ℕ → List ℕ → Session F → Session F
  stored base xs s = record s {
    flash = drv.write ((0x40000 + base) % 2 ^ 32) xs (length xs) s.flash;
    led_state = not s.led_state;
  }

  store_block-payload :
      (base : ℕ) (xs zs input echo : List ℕ) (s : Session F)
      → length xs < 128
      → store_block drv base (length xs) (with_stream s input echo (xs ++ zs))
        ≡ done tt (with_stream (stored base xs s) input echo (xs ++ zs))
  unfolding store_block payload_rounds payload_len
  store_block-payload base xs zs input echo s h =
      let offset = (0x40000 + base) % 2 ^ 32 in
      rw
        (
          lt→ltb (length xs) 128 h,
          law.read_back offset xs zs s.flash h,
          same_bytes-prefix xs zs,
          law.prefix offset xs zs s.flash,
        )
        refl

  pub then-done :
      {A B : Type 0} (m : Session F → Update F A) (rest : A → Session F → Update F B)
      (s : Session F) {a : A} {s' : Session F}
      → m s ≡ done a s'
      → (m >>= rest) s ≡ rest a s'
  then-done m rest s e =
      ap
        (λ r. elim r [
          | done a s ↦ rest a s
          | waits s ↦ waits s
          | halted n s ↦ halted n s
          | no_fuel ↦ no_fuel
        ])
        e

  receive_into-front :
      (xs buf rest echo : List ℕ) (s : Session F)
      → length xs < 128
      → length buf ≡ 240
      → (zs : List ℕ) × (length (xs ++ zs) ≡ 240)
        × (receive_into (length xs) 0 (with_stream s (xs ++ rest) echo buf)
            ≡ done tt (with_stream s rest (echo ++ xs) (xs ++ zs)))
  receive_into-front xs buf rest echo s h len =
      let (us, zs, cut, size) = cut_at (length xs) buf (omega arith) in
      (
        zs,
        omega (arith, length-append xs zs, length-append us zs, ap length cut),
        rw cut (receive_into-bytes xs us [] zs rest echo s size),
      )

  pub receive_block-payload :
      (a : ℕ) (xs buf rest echo : List ℕ) (s : Session F)
      → a < 2 ^ 32
      → length xs < 128
      → length buf ≡ 240
      → (zs : List ℕ) × (length (xs ++ zs) ≡ 240)
        × (receive_block drv (with_stream s (le_bytes a ++ (length xs ∷ xs ++ rest)) echo buf)
            ≡ done tt (
                with_stream
                  (stored a xs s)
                  rest
                  (((echo ++ le_bytes a) ++ (length xs ∷ [])) ++ xs)
                  (xs ++ zs)))
  unfolding receive_block receive payload_rounds
  receive_block-payload a xs buf rest echo s h small len =
      let (ys, full_ys, e1) =
        receive_into-front (le_bytes a) buf (length xs ∷ xs ++ rest) echo s (omega arith) len in
      let echo' = (echo ++ le_bytes a) ++ (length xs ∷ []) in
      let (zs, full_zs, e2) = receive_into-front xs (le_bytes a ++ ys) rest echo' s small full_ys in
      let base = base_addr (le_bytes a ++ ys) in
      let rounds : payload_rounds (length xs) ≡ length xs =
        ground (arith, lt→ltb (length xs) 128 small) in
      (
        zs,
        full_zs,
        then-done (receive_into 4 0)
              (λ _. (λ s. done (base_addr s.buf_data) s) >>= λ base.
                receive >>= λ b. receive_into (payload_rounds b) 0 >> store_block drv base b)
              (with_stream s (le_bytes a ++ (length xs ∷ xs ++ rest)) echo buf) e1
            ∙ then-done (receive_into (payload_rounds (length xs)) 0)
                (λ _. store_block drv base (length xs))
                (with_stream s (xs ++ rest) echo' (le_bytes a ++ ys))
                (ap (λ n. receive_into n 0 (with_stream s (xs ++ rest) echo' (le_bytes a ++ ys)))
                    rounds
                  ∙ e2)
            ∙ ap (λ b. store_block drv b (length xs) (with_stream s rest (echo' ++ xs) (xs ++ zs)))
                (base_addr-le_bytes a ys h)
            ∙ store_block-payload a xs zs rest (echo' ++ xs) s small,
      )

  -- A size byte from 128 to 255 is a negative `payloadSize`: no payload is taken, the flash is handed
  -- a length near 2^32, and the bytes of the buffer, with the address in front, to write.
  pub receive_block-negative :
      (a n : ℕ) (buf rest echo : List ℕ) (s : Session F)
      → a < 2 ^ 32
      → 128 ≤ n
      → n < 256
      → length buf ≡ 240
      → (zs : List ℕ) × (receive_block drv (with_stream s (le_bytes a ++ (n ∷ rest)) echo buf)
          ≡ done tt (
              with_stream
                (record s {
                  flash =
                      drv.write
                        ((0x40000 + a) % 2 ^ 32)
                        (le_bytes a ++ zs)
                        (2 ^ 32 - 256 + n)
                        s.flash;
                  led_state = not s.led_state;
                })
                rest
                ((echo ++ le_bytes a) ++ (n ∷ []))
                (le_bytes a ++ zs)))
  unfolding receive_block receive payload_rounds payload_len store_block receive_into same_bytes
  receive_block-negative a n buf rest echo s h large byte len =
      let (ys, full_ys, e1) =
        receive_into-front (le_bytes a) buf (n ∷ rest) echo s (omega arith) len in
      let negative : ltb n 128 ≡ false = ground arith in
      let rounds : payload_rounds n ≡ 0 = rw negative refl in
      let s' = with_stream s rest ((echo ++ le_bytes a) ++ (n ∷ [])) (le_bytes a ++ ys) in
      (
        ys,
        then-done (receive_into 4 0)
              (λ _. (λ s. done (base_addr s.buf_data) s) >>= λ base.
                receive >>= λ b. receive_into (payload_rounds b) 0 >> store_block drv base b)
              (with_stream s (le_bytes a ++ (n ∷ rest)) echo buf) e1
            ∙ ap (λ b. (receive_into (payload_rounds n) 0 >> store_block drv b n) s')
                (base_addr-le_bytes a ys h)
            ∙ ap (λ r. (receive_into r 0 >> store_block drv a n) s') rounds
            ∙ rw (negative) refl,
      )
