-- ===== src/Files/Stdin.antt =====
-- Reading the keyboard (`readFile` on descriptor 0, sys/tarfs.c).
use sbunix_64_bit_operating.Prelude.{
  ℕ, zero, suc, ◌+◌, ◌<◌, ◌≡◌, refl, sym, ap, ◌∙◌, subst, ◌≢◌, false, ◌||◌, some, List, [], ◌∷◌,
  ◌++◌, map, arith, ◌==◌, ne→==, length,
}
use sbunix_64_bit_operating.Keyboard.{Keyboard, Input, read_char, newline, plain_code}
use sbunix_64_bit_operating.Keyboard.Lines.{read_chars}
use sbunix_64_bit_operating.Keyboard.Keys.{AllPlain, press_keys, read_chars-press_keys}
use sbunix_64_bit_operating.Kernel.{Kernel}
use sbunix_64_bit_operating.Files.{read_stdin}

-- Neither a NUL nor a newline.
abbrev pub AllTyped : List ℕ → Type 0
AllTyped [] = Unit {0}
AllTyped (c ∷ cs) = (c ≢ 0) × (c ≢ newline) × AllTyped cs

read_chars-cons :
    (c n : ℕ) (cs : List ℕ) (b b' : Input)
    → read_chars (suc n) b ≡ (c ∷ cs, b')
    → ((read_char b).0 ≡ c) × (read_chars n (read_char b).1 ≡ (cs, b'))
unfolding read_chars
read_chars-cons c n cs b b' e = (cc (e), cc (e))

read_stdin-step :
    (n c : ℕ) (b : Input)
    → (read_char b).0 ≡ c
    → ((c == 0) || (c == newline)) ≡ false
    → read_stdin (suc n) b
      ≡ (c ∷ (read_stdin n (read_char b).1).0, (read_stdin n (read_char b).1).1)
unfolding read_stdin
read_stdin-step n c b e other = rw (e, other) refl

read_stdin-end :
    (n : ℕ) (b : Input)
    → (read_char b).0 ≡ newline
    → read_stdin (suc n) b ≡ (0 ∷ [], (read_char b).1)
unfolding read_stdin
read_stdin-end n b e = rw e refl

read_stdin-line :
    (cs : List ℕ) (n : ℕ) (b b' : Input)
    → AllTyped cs
    → length cs < n
    → read_chars (suc (length cs)) b ≡ (cs ++ newline ∷ [], b')
    → read_stdin n b ≡ (cs ++ 0 ∷ [], b')
read_stdin-line cs zero b b' t h e = absurd (omega arith)
read_stdin-line [] (suc n) b b' t h e =
    let (first, rest) = read_chars-cons newline 0 [] b b' e in
    let last : (read_char b).1 ≡ b' = unfold read_chars in ap (λ r. r.1) rest in
    read_stdin-end n b first ∙ ap (λ r. (0 ∷ [], r)) last
read_stdin-line (c ∷ cs) (suc n) b b' t h e =
    let (first, rest) = read_chars-cons c (suc (length cs)) (cs ++ newline ∷ []) b b' e in
    let other : ((c == 0) || (c == newline)) ≡ false =
      rw (ne→== c 0 t.0, ne→== c newline t.1) refl in
    let behind = read_stdin-line cs n (read_char b).1 b' t.2 (omega arith) rest in
    read_stdin-step n c b first other ∙ ap (λ r. (c ∷ r.0, r.1)) behind

-- Keys that type something.
abbrev pub AllVisible : List ℕ → Type 0
AllVisible [] = Unit {0}
AllVisible (a ∷ keys) = (plain_code a ≢ 0) × AllVisible keys

map-AllTyped : (keys : List ℕ) → AllPlain keys → AllVisible keys → AllTyped (map plain_code keys)
map-AllTyped [] p v = tt
map-AllTyped (a ∷ keys) p v =
    let no = p.0.no_newline in (v.0, λ e. ground (arith, no, e), map-AllTyped keys p.1 v.1)

length-codes : (keys : List ℕ) → length (map plain_code keys) ≡ length keys
length-codes [] = refl
length-codes (a ∷ keys) = ap suc (length-codes keys)

-- With an empty buffer, room in it and neither shift nor control held, after the codes of plain keys
-- and of the Enter behind them readFile on descriptor 0, with a buffer that is longer than the line,
-- writes the line that they spell with a NUL in place of the newline, and empties the buffer.
pub read_stdin-press_keys :
    (fuel count : ℕ) (keys : List ℕ) (b : Keyboard) (k : Kernel)
    → AllPlain keys
    → AllVisible keys
    → b.shift ≡ false
    → b.control ≡ false
    → b.input.indicator ≡ false
    → b.input.read_position ≡ b.input.write_position
    → b.input.readline ≡ 0
    → b.input.write_position + length keys + 1 < b.input.end_position
    → length keys < count
    → (b' : Keyboard) × (i : Input) × (press_keys fuel (keys ++ 28 ∷ []) (b, k) ≡ some (b', k))
      × (read_stdin count b'.input ≡ (map plain_code keys ++ 0 ∷ [], i))
      × (i.read_position ≡ i.write_position)
read_stdin-press_keys fuel count keys b k p v s c f e r room long =
    let (b', i, pressed, run, emptied) = read_chars-press_keys fuel keys b k p s c f e r room in
    let size = length-codes keys in
    (
      b',
      i,
      pressed,
      read_stdin-line (map plain_code keys) count b'.input i (map-AllTyped keys p v)
          (omega (arith, size, long))
          (subst (λ n. read_chars (suc n) b'.input ≡ (map plain_code keys ++ newline ∷ [], i))
            (sym size) run),
      emptied,
    )
