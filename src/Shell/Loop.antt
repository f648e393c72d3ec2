-- ===== src/Shell/Loop.antt =====
-- The loop of `parse_command` (bin/sbush/sbush.c) on blanks and on words.
use sbunix_64_bit_operating.Prelude.{
  ℕ, ◌+◌, ◌-◌, ◌≤◌, ◌<◌, ◌≡◌, refl, sym, ap, ◌∙◌, true, false, List, [], ◌∷◌, ◌++◌, arith, ltb,
  ◌==◌, lt→ltb, length, length-append,
}
use mathlib.Core.List.{append_assoc}
use sbunix_64_bit_operating.Paths.{char_at}
use sbunix_64_bit_operating.Shell.{token_from, token, is_blank, Scan, add_token, scan_char, scan}

abbrev pub AllBlank : List ℕ → Type 0
AllBlank [] = Unit {0}
AllBlank (c ∷ s) = (is_blank c ≡ true) × AllBlank s

abbrev pub NoBlank : List ℕ → Type 0
NoBlank [] = Unit {0}
NoBlank (c ∷ s) = (is_blank c ≡ false) × NoBlank s

pub scan-append :
    (command xs ys : List ℕ) (i : ℕ) (s : Scan)
    → scan command i (xs ++ ys) s ≡ scan command (i + length xs) ys (scan command i xs s)
unfolding scan
scan-append command [] ys i s = ap (λ j. scan command j ys s) (omega arith)
scan-append command (x ∷ xs) ys i s =
    scan-append command xs ys (i + 1) (scan_char command i x s)
    ∙ ap (λ j. scan command j ys (scan command (i + 1) xs (scan_char command i x s))) (omega arith)

-- A word moves the end to its last character.
pub scan-NoBlank :
    (command w : List ℕ) (c i : ℕ) (s : Scan)
    → NoBlank (c ∷ w)
    → scan command i (c ∷ w) s ≡ record s { end = i + length w }
unfolding scan scan_char
scan-NoBlank command [] c i s n = rw n.0 (ap (λ e. record s { end = e }) (omega arith))
scan-NoBlank command (d ∷ w) c i s n = rw n.0 (
    scan-NoBlank command w d (i + 1) (record s { end = i }) n.1
    ∙ ap (λ e. record s { end = e }) (omega arith))

-- Blanks behind the end move the start.
scan_passed :
    (command g : List ℕ) (i : ℕ) (s : Scan)
    → AllBlank g
    → s.end < s.start
    → scan command i g s ≡ record s { start = s.start + length g }
unfolding scan scan_char
scan_passed command [] i s b h = ap (λ a. record s { start = a }) (omega arith)
scan_passed command (c ∷ g) i s b h =
    let behind : ltb s.end s.start ≡ true = lt→ltb _ _ h in
    rw (b.0, behind)
      (scan_passed command g (i + 1) (record s { start = s.start + 1 }) b.1 (omega arith)
        ∙ ap (λ a. record s { start = a }) (omega arith))

-- Blanks in front of the first word.
pub scan_front :
    (command g : List ℕ) (s : Scan)
    → AllBlank g
    → s.start ≡ 0
    → s.end ≡ 0
    → scan command 0 g s ≡ record s { start = length g }
unfolding scan scan_char
scan_front command [] s b z e = ap (λ a. record s { start = a }) z
scan_front command (c ∷ g) s b z e =
    let first : ltb s.end s.start ≡ false = ground arith in
    let none_yet : (s.end == 0) ≡ true = ground arith in
    rw (b.0, first, none_yet)
      (scan_passed command g 1 (record s { start = s.start + 1 }) b.1 (omega arith)
        ∙ ap (λ a. record s { start = a }) (omega arith))

-- Blanks behind a word add it.
pub scan_behind :
    (command g : List ℕ) (c i : ℕ) (s : Scan)
    → AllBlank (c ∷ g)
    → s.start ≤ s.end
    → 0 < s.end
    → s.end < i
    → scan command i (c ∷ g) s ≡ record (add_token command s) { start = i + length (c ∷ g) }
unfolding scan scan_char add_token
scan_behind command g c i s b h pos l =
    let inside : ltb s.end s.start ≡ false = ground arith in
    let some_end : (s.end == 0) ≡ false = ground arith in
    rw (b.0, inside, some_end)
      (scan_passed command g (i + 1) (record (add_token command s) { start = i + 1 }) b.1
          (omega arith)
        ∙ ap (λ a. record (add_token command s) { start = a }) (omega arith))

char_at-append : (pre : List ℕ) (c : ℕ) (rest : List ℕ) → char_at (length pre) (pre ++ c ∷ rest) ≡ c
char_at-append [] c rest = refl
char_at-append (p ∷ pre) c rest = char_at-append pre c rest

token_from-append :
    (pre w rest : List ℕ) → token_from (length w) (length pre) (pre ++ (w ++ rest)) ≡ w
unfolding token_from
token_from-append pre [] rest = refl
token_from-append pre (c ∷ w) rest =
    let shift : pre ++ ((c ∷ w) ++ rest) ≡ (pre ++ c ∷ []) ++ (w ++ rest) =
      sym (append_assoc pre (c ∷ []) (w ++ rest)) in
    let further : length pre + 1 ≡ length (pre ++ c ∷ []) =
      omega (arith, length-append pre (c ∷ [])) in
    rw (char_at-append pre c (w ++ rest), further, shift)
      (ap (c ∷◌) (token_from-append (pre ++ c ∷ []) w rest))

-- The token of a word that stands behind `pre`.
pub token-append :
    (pre : List ℕ) (c : ℕ) (w rest : List ℕ)
    → token (pre ++ ((c ∷ w) ++ rest)) (length pre) (length pre + length w) ≡ c ∷ w
unfolding token
token-append pre c w rest =
    let long : length pre + length w + 1 - length pre ≡ length (c ∷ w) = omega arith in
    rw long (token_from-append pre (c ∷ w) rest)
