-- ===== src/Startup/Update.antt =====
-- What the wait for an update comes to.
use wbms.Prelude.{
  ℕ, ◌≡◌, ◌<◌, ◌≤◌, refl, ap, ◌∙◌, Bool, true, false, ◌||◌, if◌then◌else◌, List, [], ◌∷◌, ◌++◌,
  length, length-append, cut_at, arith, ltb, Bool-cases, inl, inr, sub_u32,
}
use wbms.Preload.{line, rx_line, fwupd, starts_with}
use wbms.Preload.Lines.{Heard, rx_line-Heard, starts_with-longer}
use wbms.Startup.{DetectRound, updating, over, detect}

-- Looks in time, and the lines that are heard at them: at each one either no line, whatever the buffer, or
-- one of 5 to 64 bytes.
pub data Lines (s_time : ℕ) : List DetectRound → List (List ℕ) → Type 0 where
  lines_nil : Lines s_time [] []
  lines_none :
      {l : DetectRound} {ls : List DetectRound} {xss : List (List ℕ)}
      → sub_u32 l.now s_time < 15000
      → ((buffer : List ℕ) → rx_line l.entry 100 l.polls buffer ≡ line buffer 0)
      → Lines s_time ls xss
      → Lines s_time (l ∷ ls) xss
  lines_heard :
      {l : DetectRound} {ls : List DetectRound} {xs : List ℕ} {xss : List (List ℕ)}
      → sub_u32 l.now s_time < 15000
      → Heard l.entry 100 0 l.polls xs
      → 5 ≤ length xs
      → length xs ≤ 64
      → Lines s_time ls xss
      → Lines s_time (l ∷ ls) (xs ∷ xss)

-- Whether one of the lines begins with "fwupd".
unfoldable pub any_word : List (List ℕ) → Bool
any_word [] = false
any_word (xs ∷ xss) = starts_with fwupd xs || any_word xss

-- The wait for an update with a buffer of 64 bytes, whatever is in it, where at every look in time no line
-- or one of 5 to 64 bytes is heard, up to a look at which 15000 cycles have passed: the update starts if
-- one of the lines begins with "fwupd", and if none does the wait is over without one.
pub detect-Lines :
    (s_time : ℕ) (ls rest : List DetectRound) (l : DetectRound) (xss : List (List ℕ))
    (buffer : List ℕ)
    → Lines s_time ls xss
    → length buffer ≡ 64
    → 15000 ≤ sub_u32 l.now s_time
    → detect s_time (ls ++ l ∷ rest) buffer ≡ (if any_word xss then updating else over)
unfolding detect any_word
detect-Lines s_time [] rest l [] buffer lines_nil size late = ground arith
detect-Lines s_time [] rest l (xs ∷ xss) buffer lines size late = elim lines [ ]
detect-Lines s_time (r ∷ ls) rest l xss buffer (lines_none in_time e more) size late =
    let empty = e buffer in
    ground (arith, in_time, empty, detect-Lines s_time ls rest l xss buffer more size late)
detect-Lines s_time (r ∷ ls) rest l (xs ∷ xss) buffer (lines_heard in_time heard h small more) size
      late =
    let (us, zs, cut, same) = cut_at (length xs) buffer (omega arith) in
    let read : rx_line r.entry 100 r.polls buffer ≡ line (xs ++ zs) (length xs) =
      ap (λ b. rx_line r.entry 100 r.polls b) cut
      ∙ rx_line-Heard r.entry 100 r.polls xs us zs heard same (omega arith) in
    let filled : ltb 0 (length xs) ≡ true = ground arith in
    let early : ltb (sub_u32 r.now s_time) 15000 ≡ true = ground arith in
    let all : length (xs ++ zs) ≡ 64 =
      omega (arith, length-append xs zs, length-append us zs, ap length cut, same, size) in
    let later = detect-Lines s_time ls rest l xss (xs ++ zs) more all late in
    rw (read, early, filled, starts_with-longer fwupd xs zs h, later)
      (elim (Bool-cases (starts_with fwupd xs)) [
        | inl word ↦ rw word refl
        | inr other ↦ rw other refl
      ])

-- Looks in time at which RXLine gives no line, and leaves the buffer.
pub data Silent (s_time : ℕ) (buffer : List ℕ) : List DetectRound → Type 0 where
  silent_nil : Silent s_time buffer []
  silent_cons :
      {l : DetectRound} {ls : List DetectRound}
      → sub_u32 l.now s_time < 15000
      → rx_line l.entry 100 l.polls buffer ≡ line buffer 0
      → Silent s_time buffer ls
      → Silent s_time buffer (l ∷ ls)

-- As long as nothing comes the wait goes on, up to the first look at which 15000 cycles have passed.
pub detect-Silent :
    (s_time : ℕ) (ls rest : List DetectRound) (l : DetectRound) (buffer : List ℕ)
    → Silent s_time buffer ls
    → 15000 ≤ sub_u32 l.now s_time
    → detect s_time (ls ++ l ∷ rest) buffer ≡ over
unfolding detect
detect-Silent s_time [] rest l buffer silent late = ground arith
detect-Silent s_time (k ∷ ls) rest l buffer (silent_cons in_time e silent) late =
    ground (arith, in_time, e, detect-Silent s_time ls rest l buffer silent late)
