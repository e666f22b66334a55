-- ===== src/Tests/Update.antt =====
-- The theorems on the firmware update, with a flash that is the list of what was written.
use wbms.Prelude.{
  ℕ, zero, suc, ◌≡◌, refl, ap, arith, true, false, List, [], ◌∷◌, ◌++◌, length, replicate, ◌==◌,
  if◌then◌else◌, none,
}
use wbms.Fwupd.{Flash, Session, done, receive_block}
use wbms.Fwupd.Blocks.{
  IsFlash, Block, fit_nil, fit_cons, receive_block-negative, with_stream, le_bytes, encode,
}
use wbms.Fwupd.Image.{Downloaded, download-image}
use wbms.Fwupd.Stage.{
  copy_loop, copy_start, copy_rounds, copy_loop-endless, Copied, copy_rounds-Copied,
}

abbrev first : ℕ → List ℕ → List ℕ
first zero xs = []
first (suc n) [] = []
first (suc n) (x ∷ xs) = x ∷ first n xs

abbrev Written : Type 0
Written = List (ℕ × List ℕ)

-- The last bytes that were written at an address.
abbrev read_at : ℕ → ℕ → Written → List ℕ
read_at a n [] = replicate n 255
read_at a n ((b, xs) ∷ f) = let later = read_at a n f in if a == b then first n xs else later

abbrev logged : Flash Written
logged = record {
  erase = λ z f. (false, f);
  write = λ a xs n f. (a, first n xs) ∷ f;
  read = read_at;
}

first-append : (xs ys : List ℕ) → first (length xs) (xs ++ ys) ≡ xs
first-append [] ys = refl
first-append (x ∷ xs) ys = ap (λ l. x ∷ l) (first-append xs ys)

first-whole : (xs : List ℕ) → first (length xs) xs ≡ xs
first-whole [] = refl
first-whole (x ∷ xs) = ap (λ l. x ∷ l) (first-whole xs)

logged-IsFlash : IsFlash logged
logged-IsFlash = record {
  read_back = λ a xs ys f h. ground (arith, first-append xs ys, first-whole xs);
  prefix = λ a xs ys f. ground (arith, first-append xs ys, first-whole xs);
}

abbrev session : Session Written
session = record {
  input = [];
  echo = [];
  buf_data = replicate 240 0;
  flash = [];
  led_state = false;
}

-- Two blocks, the second at 0x100.
abbrev image : List Block
image = record { addr = 0; payload = 7 ∷ 8 ∷ 9 ∷ [] } ∷ record { addr = 256; payload = 1 ∷ [] } ∷ []

download-image_example :
    Downloaded logged image 3 1
      (with_stream session (encode image ++ 1 ∷ 5 ∷ []) [] (replicate 240 0))
      (5 ∷ [])
download-image_example =
    download-image logged logged-IsFlash image 3 1 (5 ∷ []) [] (replicate 240 0) session
      (fit_cons (omega arith) (omega arith) (fit_cons (omega arith) (omega arith) fit_nil))
      (omega arith) (omega arith) refl

-- A size byte of 200.
receive_block-negative_example :
    (zs : List ℕ) × (receive_block logged
        (with_stream session (le_bytes 8 ++ (200 ∷ 5 ∷ [])) [] (replicate 240 0))
      ≡ done tt (
          with_stream
            (record (session) {
              flash = logged.write 0x40008 (le_bytes 8 ++ zs) 4294967240 [];
              led_state = true;
            })
            (5 ∷ [])
            (le_bytes 8 ++ (200 ∷ []))
            (le_bytes 8 ++ zs)))
receive_block-negative_example =
    receive_block-negative logged logged-IsFlash 8 200 (replicate 240 0) (5 ∷ []) [] session
      (omega arith) (omega arith) (omega arith) refl

copy_loop-endless_example : copy_loop 100 (copy_start (λ i. i)) ≡ none
copy_loop-endless_example = copy_loop-endless 100 (λ i. i)

copy_rounds-Copied_example : Copied (λ i. i) 5 (copy_rounds 5 (copy_start (λ i. i)))
copy_rounds-Copied_example = copy_rounds-Copied (λ i. i) 5 (omega arith)
