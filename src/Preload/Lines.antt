-- ===== src/Preload/Lines.antt =====
-- What RXLine makes of the lines that come.
use mathlib.Core.List.{append_assoc}
use wbms.Prelude.{
  ℕ, ◌+◌, ◌%◌, ◌^◌, ◌<◌, ◌≤◌, ◌≡◌, refl, sym, ap, subst, ◌∙◌, Bool, true, false, List, [], ◌∷◌,
  ◌++◌, Option, none, some, length, length-append, get_elem?, get_elem?-middle, get_elem?-none, map,
  set, set-middle, ltb, ◌==◌, ◌&&◌, snoc-append, length-snoc, cut_at, arith,
}
use wbms.Preload.{
  Poll, poll, line, polling, overflow, go_on, is_end, rx_loop, rx_line, fwupd, starts_with,
  update_detect,
}

module _ (entry timeout : ℕ) where
  -- What is heard from a position on: polls at which the loop goes on, of which those with a byte give
  -- the line, up to an end of line.
  pub data Heard : ℕ → List Poll → List ℕ → Type 0 where
    heard_end :
        {pos now c : ℕ} {ps : List Poll}
        → go_on entry timeout now pos ≡ true
        → is_end c ≡ true
        → Heard pos (poll now (some c) ∷ ps) []
    heard_byte :
        {pos now c : ℕ} {ps : List Poll} {xs : List ℕ}
        → go_on entry timeout now pos ≡ true
        → is_end c ≡ false
        → Heard (pos + 1) ps xs
        → Heard pos (poll now (some c) ∷ ps) (c ∷ xs)
    heard_nothing :
        {pos now : ℕ} {ps : List Poll} {xs : List ℕ}
        → go_on entry timeout now pos ≡ true
        → Heard pos ps xs
        → Heard pos (poll now none ∷ ps) xs

  at_snoc :
      {ps : List Poll} {xs : List ℕ} (pre : List ℕ) (c : ℕ)
      → Heard (length pre + 1) ps xs
      → Heard (length (pre ++ (c ∷ []))) ps xs
  at_snoc {ps} {xs} pre c later = subst (λ n. Heard n ps xs) (sym (length-snoc pre c)) later

  rx_loop-Heard :
      (ps : List Poll) (xs us pre zs : List ℕ)
      → Heard (length pre) ps xs
      → length us ≡ length xs
      → length pre + length xs < 256
      → rx_loop entry timeout ps (length pre) (pre ++ (us ++ zs))
        ≡ line (pre ++ (xs ++ zs)) (length pre + length xs)
  unfolding rx_loop
  rx_loop-Heard [] xs us pre zs heard h small = elim heard [ ]
  rx_loop-Heard (poll now (some c) ∷ ps) [] [] pre zs (heard_end on last) h small =
      rw (on, last) (ap (λ n. line (pre ++ zs) n) (omega arith))
  rx_loop-Heard (poll now (some c) ∷ ps) [] (u ∷ us) pre zs (heard_end on last) h small =
      absurd (omega arith)
  rx_loop-Heard (poll now (some c) ∷ ps) (x ∷ xs) [] pre zs (heard_byte on inner later) h small =
      absurd (omega arith)
  rx_loop-Heard (poll now (some c) ∷ ps) (x ∷ xs) (u ∷ us) pre zs (heard_byte on inner later) h
        small =
      let here = get_elem?-middle pre u (us ++ zs) in
      let pos : (length pre + 1) % 2 ^ 8 ≡ length (pre ++ (c ∷ [])) =
        omega (arith, length-snoc pre c) in
      let buf : set (pre ++ (u ∷ us ++ zs)) (length pre) c ≡ (pre ++ (c ∷ [])) ++ (us ++ zs) =
        set-middle pre u c (us ++ zs) ∙ snoc-append pre c (us ++ zs) in
      let rest =
        rx_loop-Heard ps xs us (pre ++ (c ∷ [])) zs (at_snoc pre c later) (omega arith)
          (omega (arith, length-snoc pre c)) in
      rw (on, inner, here, pos, buf)
        (rest
          ∙ ap (λ l. line l (length (pre ++ (c ∷ [])) + length xs))
              (sym (snoc-append pre c (xs ++ zs)))
          ∙ ap (λ n. line (pre ++ (c ∷ xs ++ zs)) n) (omega (arith, length-snoc pre c)))
  rx_loop-Heard (poll now none ∷ ps) xs us pre zs (heard_nothing on later) h small =
      rw on (rx_loop-Heard ps xs us pre zs later h small)

  rx_loop-long :
      (ps : List Poll) (xs us pre : List ℕ)
      → Heard (length pre) ps xs
      → length us < length xs
      → length pre + length us < 256
      → rx_loop entry timeout ps (length pre) (pre ++ us) ≡ overflow (length pre + length us)
  unfolding rx_loop
  rx_loop-long [] xs us pre heard h small = elim heard [ ]
  rx_loop-long (poll now (some c) ∷ ps) [] us pre (heard_end on last) h small = absurd (omega arith)
  rx_loop-long (poll now (some c) ∷ ps) (x ∷ xs) [] pre (heard_byte on inner later) h small =
      let behind : get_elem? (pre ++ []) (length pre) ≡ none =
        get_elem?-none (pre ++ []) (length pre) (omega (arith, length-append pre [])) in
      rw (on, inner, behind) (ap overflow (omega arith))
  rx_loop-long (poll now (some c) ∷ ps) (x ∷ xs) (u ∷ us) pre (heard_byte on inner later) h small =
      let here = get_elem?-middle pre u us in
      let pos : (length pre + 1) % 2 ^ 8 ≡ length (pre ++ (c ∷ [])) =
        omega (arith, length-snoc pre c) in
      let buf : set (pre ++ (u ∷ us)) (length pre) c ≡ (pre ++ (c ∷ [])) ++ us =
        set-middle pre u c us ∙ snoc-append pre c us in
      rw (on, inner, here, pos, buf)
        (rx_loop-long ps xs us (pre ++ (c ∷ [])) (at_snoc pre c later) (omega arith)
            (omega (arith, length-snoc pre c))
          ∙ ap overflow (omega (arith, length-snoc pre c)))
  rx_loop-long (poll now none ∷ ps) xs us pre (heard_nothing on later) h small =
      rw on (rx_loop-long ps xs us pre later h small)

  -- A line that fits into the buffer, and is shorter than 256, is put at its start, whatever polls
  -- without a byte are between, and its length is returned; the rest of the buffer stays.
  pub rx_line-Heard :
      (ps : List Poll) (xs us zs : List ℕ)
      → Heard 0 ps xs
      → length us ≡ length xs
      → length xs < 256
      → rx_line entry timeout ps (us ++ zs) ≡ line (xs ++ zs) (length xs)
  unfolding rx_line
  rx_line-Heard ps xs us zs heard h small =
      rx_loop-Heard ps xs us [] zs heard h (omega arith) ∙ ap (line (xs ++ zs)) (omega arith)

  -- A line that is longer than the buffer, of less than 256 bytes, is written behind its end.
  pub rx_line-overflow :
      (ps : List Poll) (xs us : List ℕ)
      → Heard 0 ps xs
      → length us < length xs
      → length us < 256
      → rx_line entry timeout ps us ≡ overflow (length us)
  unfolding rx_line
  rx_line-overflow ps xs us heard h small =
      rx_loop-long ps xs us [] heard h (omega arith) ∙ ap overflow (omega arith)

  rx_loop-idle :
      (times : List ℕ) (pos : ℕ) (dest : List ℕ)
      → 0 < pos
      → rx_loop entry timeout (map (λ t. poll t none) times) pos dest ≡ polling dest pos
  unfolding rx_loop go_on
  rx_loop-idle [] pos dest h = refl
  rx_loop-idle (t ∷ times) pos dest h = ground (arith, rx_loop-idle times pos dest h)

  -- Once a byte of a line has come, polls without a byte never end the loop, however late they are.
  pub rx_line-waits :
      (now c u : ℕ) (times us : List ℕ)
      → go_on entry timeout now 0 ≡ true
      → is_end c ≡ false
      → rx_line entry timeout (poll now (some c) ∷ map (λ t. poll t none) times) (u ∷ us)
        ≡ polling (c ∷ us) 1
  unfolding rx_line rx_loop
  rx_line-waits now c u times us on inner =
      rw (on, inner) (rx_loop-idle times 1 (c ∷ us) (omega arith))

pub starts_with-longer :
    (ws xs zs : List ℕ) → length ws ≤ length xs → starts_with ws (xs ++ zs) ≡ starts_with ws xs
unfolding starts_with
starts_with-longer [] xs zs h = refl
starts_with-longer (w ∷ ws) [] zs h = absurd (omega arith)
starts_with-longer (w ∷ ws) (x ∷ xs) zs h =
    ap (λ b. w == x && b) (starts_with-longer ws xs zs (omega arith))

starts_with-whole : (ws zs : List ℕ) → starts_with ws (ws ++ zs) ≡ true
unfolding starts_with
starts_with-whole [] zs = refl
starts_with-whole (w ∷ ws) zs = ground (arith, starts_with-whole ws zs)

update_detect-line :
    (entry : ℕ) (ps : List Poll) (buffer dest : List ℕ) (n : ℕ)
    → rx_line entry 100 ps buffer ≡ line dest n
    → 0 < n
    → update_detect entry ps buffer ≡ some (starts_with fwupd dest)
unfolding update_detect
update_detect-line entry ps buffer dest n e h =
    let filled : ltb 0 n ≡ true = ground arith in
    ap
      (λ r. elim r as (λ x. Option Bool) [
        | line dest size ↦ some (ltb 0 size && starts_with fwupd dest)
        | polling dest size ↦ none
        | overflow pos ↦ none
      ])
      e
    ∙ ap (λ b. some (b && starts_with fwupd dest)) filled

-- When `main` hears a line of 5 to 64 bytes, the update starts exactly if the line begins with
-- "fwupd", whatever the buffer of 64 bytes held before.
pub update_detect-Heard :
    (entry : ℕ) (ps : List Poll) (xs buffer : List ℕ)
    → Heard entry 100 0 ps xs
    → 5 ≤ length xs
    → length xs ≤ 64
    → length buffer ≡ 64
    → update_detect entry ps buffer ≡ some (starts_with fwupd xs)
unfolding update_detect starts_with
update_detect-Heard entry ps xs buffer heard h small len =
    let (us, zs, cut, size) = cut_at (length xs) buffer (omega arith) in
    ap (λ b. update_detect entry ps b) cut
    ∙ update_detect-line entry ps (us ++ zs) (xs ++ zs) (length xs)
        (rx_line-Heard entry 100 ps xs us zs heard size (omega arith)) (omega arith)
    ∙ ap some (starts_with-longer fwupd xs zs h)

-- A line shorter than the word is compared together with what an earlier one has left behind it: where
-- the buffer already continues the word, one that is its beginning starts the update.
pub update_detect-stale :
    (entry : ℕ) (ps : List Poll) (xs ys us zs : List ℕ)
    → Heard entry 100 0 ps xs
    → length us ≡ length xs
    → 0 < length xs
    → xs ++ ys ≡ fwupd
    → update_detect entry ps (us ++ (ys ++ zs)) ≡ some true
unfolding update_detect starts_with
update_detect-stale entry ps xs ys us zs heard h some_bytes e =
    let total : length xs + length ys ≡ 5 = sym (length-append xs ys) ∙ ap length e in
    let joined : xs ++ (ys ++ zs) ≡ fwupd ++ zs =
      sym (append_assoc xs ys zs) ∙ ap (λ l. l ++ zs) e in
    update_detect-line entry ps (us ++ (ys ++ zs)) (xs ++ (ys ++ zs)) (length xs)
      (rx_line-Heard entry 100 ps xs us (ys ++ zs) heard h (omega arith)) some_bytes
    ∙ ap (λ l. some (starts_with fwupd l)) joined
    ∙ ap some (starts_with-whole fwupd zs)
