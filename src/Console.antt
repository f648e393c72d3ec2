-- ===== src/Console.antt =====
-- The console (sys/kprintf.c): the text screen in the memory of the video card, the position on it, and
-- `kprintf` with its conversions. A `%` at the end of a format, which the code would read past, and
-- an argument that is missing or of another kind have no result.
pub mod Screen
pub mod Cursor
pub mod Digits
pub mod Print
pub mod Text
pub mod Bars
use sbunix_64_bit_operating.Prelude.{
  ℕ, zero, suc, ◌+◌, ◌-◌, ◌*◌, ◌/◌, ◌%◌, ◌^◌, ◌&&◌, Option, none, some, List, [], ◌∷◌, ltb, leb,
  ◌==◌, if◌then◌else◌, ◌>>=◌,
}

-- The memory of the card by virtual address, and the static variables.
pub record Console : Type 0 where
  pub video : ℕ → ℕ
  pub vga : ℕ
  pub v_line_count : ℕ
  pub line_adr : ℕ
  pub next_line_adrs : ℕ

abbrev pub first_adr : ℕ
first_adr = 0xb8000

unfoldable pub map_vga : ℕ → Console → Console
map_vga a k = record k {
  vga = a;
  next_line_adrs = a + (k.next_line_adrs - first_adr);
  line_adr = a + (k.line_adr - first_adr);
}

abbrev pub put_byte : ℕ → ℕ → (ℕ → ℕ) → ℕ → ℕ
put_byte a c video = λ b. if b == a then c else video b

-- The first loop of the scroll, by the rounds left.
unfoldable pub move_up : (rounds a : ℕ) → (ℕ → ℕ) → ℕ → ℕ
move_up zero a video = video
move_up (suc n) a video = move_up n (a + 1) (put_byte a (video (a + 160)) video)

-- A loop that stores `c` at every `by`-th address from `a` on, by the rounds left.
unfoldable pub fill : (rounds by a c : ℕ) → (ℕ → ℕ) → ℕ → ℕ
fill zero by a c video = video
fill (suc n) by a c video = fill n by (a + by) c (put_byte a c video)

unfoldable pub scroll : ℕ → (ℕ → ℕ) → ℕ → ℕ
scroll vga video = fill 160 1 (vga + 160 * 23) 0 (move_up (160 * 23) vga video)

unfoldable pub check_if_line_full : Console → Console
check_if_line_full k =
    if k.line_adr == k.next_line_adrs
    then (if ltb 24 (k.v_line_count + 1)
        then record k {
          v_line_count = k.v_line_count + 1;
          video = scroll k.vga k.video;
          line_adr = k.next_line_adrs - 160;
        }
        else record k {
          v_line_count = k.v_line_count + 1;
          next_line_adrs = k.next_line_adrs + 160;
        })
    else k

-- A character at the position.
unfoldable pub write : ℕ → Console → Console
write c k =
    check_if_line_full
      (record k { video = put_byte k.line_adr (c % 256) k.video; line_adr = k.line_adr + 2 })

-- The loop of a newline, on fuel.
unfoldable pub blank_line : (fuel : ℕ) → Console → Option Console
blank_line zero k = none
blank_line (suc fuel) k =
    let k1 = record k { video = put_byte k.line_adr 0x20 k.video; line_adr = k.line_adr + 2 } in
    let rest = blank_line fuel k1 in if k.line_adr == k.next_line_adrs then some k else rest

-- The loop of a carriage return, on fuel.
unfoldable pub go_back : (fuel : ℕ) → Console → Option Console
go_back zero k = none
go_back (suc fuel) k =
    let rest = go_back fuel (record k { line_adr = k.line_adr - 2 }) in
    if k.line_adr == k.next_line_adrs - 160 then some k else rest

-- A line has 80 characters.
abbrev pub line_fuel : ℕ
line_fuel = 81

unfoldable pub new_line : Console → Option Console
new_line k = do k1 ← blank_line line_fuel k; some (check_if_line_full k1)

unfoldable pub back_space : Console → Console
back_space k =
    let next =
      if k.line_adr == k.next_line_adrs - 160 then k.next_line_adrs - 160 else k.next_line_adrs in
    record k {
      next_line_adrs = next;
      line_adr = k.line_adr - 2;
      video = put_byte (k.line_adr - 2) 0x20 k.video;
    }

-- A character of the format that is not `%`.
unfoldable pub plain : ℕ → Console → Option Console
plain c k =
    if c == b'\n'
    then new_line k
    else if c == b'\r'
    then go_back line_fuel k
    else if c == 8
    then some (back_space k)
    else some (write c k)

-- A character of a string.
unfoldable pub string_char : ℕ → Console → Option Console
string_char c k =
    if c == b'\n' then new_line k else if c == b'\r' then go_back line_fuel k else some (write c k)

unfoldable pub write_string : List ℕ → Console → Option Console
write_string [] k = some k
write_string (c ∷ s) k = do k1 ← string_char c k; write_string s k1

-- The first loop of a conversion: the weight of the leading digit, on fuel.
unfoldable pub dig_count : (fuel base x weight : ℕ) → Option ℕ
dig_count zero base x weight = none
dig_count (suc fuel) base x weight =
    let rest = dig_count fuel base (x / base) (weight * base) in
    if leb base x then rest else some weight

unfoldable pub glyph : ℕ → ℕ
glyph c = if ltb c 10 then c + b'0' else c - 10 + b'A'

-- The second loop of a conversion, on fuel.
unfoldable pub write_digits : (fuel base y weight : ℕ) → Console → Option Console
write_digits zero base y weight k = none
write_digits (suc fuel) base y weight k =
    let rest = write_digits fuel base (y % weight) (weight / base) (write (glyph (y / weight)) k) in
    if ltb 0 weight then rest else some k

-- A 64-bit number has at most 20 digits.
abbrev pub number_fuel : ℕ
number_fuel = 22

unfoldable pub write_number : (base x : ℕ) → Console → Option Console
write_number base x k = do
  weight ← dig_count number_fuel base x 1
  write_digits number_fuel base x weight k

-- A negative int is its own leading digit.
unfoldable pub write_int : (base x : ℕ) → Console → Option Console
write_int base x k = if ltb x (2 ^ 31) then write_number base x k else some (write (x + b'0') k)

pub data Arg : Type 0 where
  int : ℕ → Arg
  long : ℕ → Arg
  chr : ℕ → Arg
  str : List ℕ → Arg
  ptr : ℕ → Arg

unfoldable pub hex_prefix : Console → Console
hex_prefix k = write b'x' (write b'0' k)

-- The conversion of one argument.
unfoldable pub print_d : List Arg → Console → Option (List Arg × Console)
print_d (int x ∷ args) k = do k1 ← write_int 10 x k; some (args, k1)
print_d _ k = none

unfoldable pub print_ld : List Arg → Console → Option (List Arg × Console)
print_ld (long x ∷ args) k = do k1 ← write_number 10 x k; some (args, k1)
print_ld _ k = none

unfoldable pub print_c : List Arg → Console → Option (List Arg × Console)
print_c (chr c ∷ args) k = do
  k1 ← (if c % 256 == b'\n' then new_line k else some (write c k))
  some (args, k1)
print_c _ k = none

unfoldable pub print_s : List Arg → Console → Option (List Arg × Console)
print_s (str s ∷ args) k = do k1 ← write_string s k; some (args, k1)
print_s _ k = none

unfoldable pub print_x : List Arg → Console → Option (List Arg × Console)
print_x (int x ∷ args) k = do k1 ← write_int 16 x (hex_prefix k); some (args, k1)
print_x _ k = none

unfoldable pub print_p : List Arg → Console → Option (List Arg × Console)
print_p (ptr x ∷ args) k = do k1 ← write_number 16 x (hex_prefix k); some (args, k1)
print_p _ k = none

-- The branches behind a `%`, with the character behind the directive.
unfoldable pub conversion : (d following : ℕ) → List Arg → Console → Option (List Arg × Console)
conversion d following args k =
    if d == b'%'
    then some (args, write b'%' k)
    else if d == b'd'
    then print_d args k
    else if (d == b'l') && (following == b'd')
    then print_ld args k
    else if d == b'c'
    then print_c args k
    else if d == b's'
    then print_s args k
    else if d == b'x'
    then print_x args k
    else if d == b'p'
    then print_p args k
    else some (args, k)

abbrev pub head_or_nul : List ℕ → ℕ
head_or_nul [] = 0
head_or_nul (c ∷ s) = c

-- The loop over the format.
unfoldable pub print_from : (fmt : List ℕ) → List Arg → Console → Option Console
print_from [] args k = some k
print_from (c ∷ []) args k = if c == b'%' then none else plain c k
print_from (c ∷ d ∷ rest) args k =
    if c == b'%'
    then (do (args', k1) ← conversion d (head_or_nul rest) args k; print_from rest args' k1)
    else (do k1 ← plain c k; print_from (d ∷ rest) args k1)

unfoldable pub kprintf : (fmt : List ℕ) → List Arg → Console → Option Console
kprintf fmt args k = print_from fmt args (record k { video = fill 1920 2 (k.vga + 1) 7 k.video })
