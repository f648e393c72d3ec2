-- ===== src/Console/Bars.antt =====
-- The bars below the lines (`time_bar`, `keypress_bar`, `boot_time_bar`, `itoa` and `time_concatenate`,
-- sys/kprintf.c): each owns a window of the last line.
use sbunix_64_bit_operating.Prelude.{
  ℕ, zero, suc, ◌+◌, ◌*◌, ◌/◌, ◌%◌, ◌≤◌, ◌<◌, ◌≡◌, refl, ◌∙◌, ◌⊎◌, inl, inr, false, Option, none,
  some, List, [], ◌∷◌, ◌++◌, arith, ltb, leb, ◌==◌, if◌then◌else◌, Bool-cases, get_or, ◌>>=◌,
}
use sbunix_64_bit_operating.Console.{Console, put_byte, dig_count, number_fuel}

-- The second loop of `itoa`, on fuel.
unfoldable pub itoa_digits : (fuel y weight : ℕ) → Option (List ℕ)
itoa_digits zero y weight = none
itoa_digits (suc fuel) y weight =
    let rest = (do
      s ← itoa_digits fuel (y % weight) (weight / 10)
      some ((y / weight + b'0') ∷ s)) in
    if ltb 0 weight then rest else some []

-- The characters in front of the NUL, for a number that is not negative.
unfoldable pub itoa : ℕ → Option (List ℕ)
itoa x = do
  weight ← dig_count number_fuel 10 x 1
  s ← itoa_digits number_fuel x weight
  some (if weight == 1 then b'0' ∷ s else s)

unfoldable pub time_concatenate : (s1 hours minutes seconds : List ℕ) → List ℕ
time_concatenate s1 hours minutes seconds = s1 ++ (hours ++ b':' ∷ (minutes ++ b':' ∷ seconds))

-- The loop that fills a window, by the cells left: the text, and blanks behind it.
unfoldable pub fill_bar : (cells a : ℕ) → (s : List ℕ) → (color : ℕ) → (ℕ → ℕ) → ℕ → ℕ
fill_bar zero a s color video = video
fill_bar (suc n) a [] color video =
    fill_bar n (a + 2) [] color (put_byte (a + 1) color (put_byte a 0x20 video))
fill_bar (suc n) a (c ∷ s) color video =
    fill_bar n (a + 2) s color (put_byte (a + 1) color (put_byte a c video))

-- "TIME(NYC): " and "timeSinceBoot: ".
abbrev pub time_text : List ℕ
time_text = b'T' ∷ b'I' ∷ b'M' ∷ b'E' ∷ b'(' ∷ b'N' ∷ b'Y' ∷ b'C' ∷ b')' ∷ b':' ∷ b' ' ∷ []

abbrev pub boot_text : List ℕ
boot_text =
    b't' ∷ b'i' ∷ b'm' ∷ b'e' ∷ b'S' ∷ b'i' ∷ b'n' ∷ b'c' ∷ b'e' ∷ b'B' ∷ b'o' ∷ b'o' ∷ b't' ∷ b':'
    ∷ b' ' ∷ []

unfoldable pub time_bar : (hours minutes seconds color : ℕ) → Console → Option Console
time_bar hours minutes seconds color k = do
  h ← itoa hours
  m ← itoa minutes
  s ← itoa seconds
  some (record k {
    video = fill_bar 25 (k.vga + 0xF00) (time_concatenate time_text h m s) color k.video;
  })

unfoldable pub keypress_bar : (s : List ℕ) (color : ℕ) → Console → Console
keypress_bar s color k = record k { video = fill_bar 30 (k.vga + 0xF32) s color k.video }

unfoldable pub boot_time_bar : (hours minutes seconds color : ℕ) → Console → Option Console
boot_time_bar hours minutes seconds color k = do
  h ← itoa hours
  m ← itoa minutes
  s ← itoa seconds
  some (record k {
    video = fill_bar 25 (k.vga + 0xF6E) (time_concatenate boot_text h m s) color k.video;
  })

-- `itoa` spells a number below 100 with two digits.
pub itoa_lem : (x : ℕ) → x < 100 → itoa x ≡ some ((x / 10 + b'0') ∷ (x % 10 + b'0') ∷ [])
unfolding itoa dig_count itoa_digits
itoa_lem x h = elim (Bool-cases (leb 10 x)) [
  | inl big ↦ let small : leb 10 (x / 10) ≡ false = ground arith in rw (big, small) (ground arith)
  | inr small ↦ rw small (ground arith)
]

pub fill_bar-before :
    (n a : ℕ) (s : List ℕ) (color : ℕ) (video : ℕ → ℕ) (b : ℕ)
    → (b < a) ⊎ (a + 2 * n ≤ b)
    → fill_bar n a s color video b ≡ video b
unfolding fill_bar
fill_bar-before zero a s color video b o = refl
fill_bar-before (suc n) a [] color video b (inl o) =
    fill_bar-before n (a + 2) [] color _ b (inl (omega arith)) ∙ ground arith
fill_bar-before (suc n) a [] color video b (inr o) =
    fill_bar-before n (a + 2) [] color _ b (inr (omega arith)) ∙ ground arith
fill_bar-before (suc n) a (c ∷ s) color video b (inl o) =
    fill_bar-before n (a + 2) s color _ b (inl (omega arith)) ∙ ground arith
fill_bar-before (suc n) a (c ∷ s) color video b (inr o) =
    fill_bar-before n (a + 2) s color _ b (inr (omega arith)) ∙ ground arith

-- The cell `i` of a window has the text's character, or a blank behind the text, in the colour.
pub fill_bar-shows :
    (n a : ℕ) (s : List ℕ) (color : ℕ) (video : ℕ → ℕ) (i : ℕ)
    → i < n
    → (fill_bar n a s color video (a + 2 * i) ≡ get_or s i 0x20)
      × (fill_bar n a s color video (a + 2 * i + 1) ≡ color)
unfolding fill_bar
fill_bar-shows zero a s color video i h = elim h [ ]
fill_bar-shows (suc n) a [] color video zero h = (
  fill_bar-before n (a + 2) [] color _ (a + 0) (inl (omega arith)) ∙ ground arith,
  fill_bar-before n (a + 2) [] color _ (a + 0 + 1) (inl (omega arith)) ∙ ground arith,
)
fill_bar-shows (suc n) a (c ∷ s) color video zero h = (
  fill_bar-before n (a + 2) s color _ (a + 0) (inl (omega arith)) ∙ ground arith,
  fill_bar-before n (a + 2) s color _ (a + 0 + 1) (inl (omega arith)) ∙ ground arith,
)
fill_bar-shows (suc n) a [] color video (suc i) h =
    let e : a + 2 * suc i ≡ a + 2 + 2 * i = omega arith in
    rw e (fill_bar-shows n (a + 2) [] color _ i (omega arith))
fill_bar-shows (suc n) a (c ∷ s) color video (suc i) h =
    let e : a + 2 * suc i ≡ a + 2 + 2 * i = omega arith in
    rw e (fill_bar-shows n (a + 2) s color _ i (omega arith))

abbrev pub two_digits : ℕ → List ℕ
two_digits x = (x / 10 + b'0') ∷ (x % 10 + b'0') ∷ []

-- The window of `cells` cells from `a` on shows the text in the colour; the rest of the console is as
-- before.
pub record ShowsBar (cells a : ℕ) (s : List ℕ) (color : ℕ) (k k' : Console) : Type 0 where
  pub text : (i : ℕ) → i < cells → k'.video (a + 2 * i) ≡ get_or s i 0x20
  pub coloured : (i : ℕ) → i < cells → k'.video (a + 2 * i + 1) ≡ color
  pub elsewhere : (b : ℕ) → (b < a) ⊎ (a + 2 * cells ≤ b) → k'.video b ≡ k.video b
  pub position : k' ≡ record k { video = k'.video }

bar_lem :
    (n a : ℕ) (s : List ℕ) (color : ℕ) (k : Console)
    → ShowsBar n a s color k (record k { video = fill_bar n a s color k.video })
bar_lem n a s color k = record {
  text = λ i h. (fill_bar-shows n a s color k.video i h).0;
  coloured = λ i h. (fill_bar-shows n a s color k.video i h).1;
  elsewhere = λ b o. fill_bar-before n a s color k.video b o;
  position = refl;
}

-- For hours, minutes and seconds below 100 the two clocks return, and each shows its text with two
-- digits for each number in its own window of the last line; so does the bar of the pressed key with
-- the text that it is given.
pub bars-ShowsBar :
    (hours minutes seconds color : ℕ) (key : List ℕ) (k : Console)
    → hours < 100
    → minutes < 100
    → seconds < 100
    → ((k' : Console) × (time_bar hours minutes seconds color k ≡ some k')
        × ShowsBar 25
            (k.vga + 0xF00)
            (time_text
              ++ (two_digits hours ++ b':' ∷ (two_digits minutes ++ b':' ∷ two_digits seconds)))
            color
            k
            k')
      × ((k' : Console) × (boot_time_bar hours minutes seconds color k ≡ some k')
          × ShowsBar 25
              (k.vga + 0xF6E)
              (boot_text
                ++ (two_digits hours ++ b':' ∷ (two_digits minutes ++ b':' ∷ two_digits seconds)))
              color
              k
              k')
      × ShowsBar 30 (k.vga + 0xF32) key color k (keypress_bar key color k)
unfolding time_bar boot_time_bar keypress_bar time_concatenate
bars-ShowsBar hours minutes seconds color key k h m s = (
  (_, rw (itoa_lem hours h, itoa_lem minutes m, itoa_lem seconds s) refl, bar_lem 25 _ _ color k),
  (_, rw (itoa_lem hours h, itoa_lem minutes m, itoa_lem seconds s) refl, bar_lem 25 _ _ color k),
  bar_lem 30 (k.vga + 0xF32) key color k,
)
