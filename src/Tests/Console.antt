-- ===== src/Tests/Console.antt =====
-- Tests of the console.
use sbunix_64_bit_operating.Prelude.{ℕ, ◌+◌, ◌%◌, ◌^◌, ◌≤◌, ◌<◌, ◌≡◌, refl, List, [], ◌∷◌, arith}
use sbunix_64_bit_operating.Console.{
  Console, int, long, str, ptr, write, check_if_line_full, kprintf, conversion, first_adr,
  back_space,
}
use sbunix_64_bit_operating.Console.Cursor.{IsPlaced, Outside, Printed, check_if_line_full-scrolls}
use sbunix_64_bit_operating.Console.Print.{
  IsFormat, kprintf-Printed, Spelled, conversion-Spelled, end, text, decimal, string, percent,
}

-- The console at the start, and one with the last line full.
abbrev fresh : Console
fresh = record {
  video = λ a. 0;
  vga = first_adr;
  v_line_count = 1;
  line_adr = first_adr;
  next_line_adrs = first_adr + 160;
}

abbrev full : Console
full = record {
  video = λ a. a % 256;
  vga = first_adr;
  v_line_count = 30;
  line_adr = first_adr + 3840;
  next_line_adrs = first_adr + 3840;
}

fresh-IsPlaced : IsPlaced fresh
fresh-IsPlaced = omega arith

-- "%d:%s\n%%".
abbrev fmt : List ℕ
fmt = b'%' ∷ b'd' ∷ b':' ∷ b'%' ∷ b's' ∷ b'\n' ∷ b'%' ∷ b'%' ∷ []

fmt-IsFormat : IsFormat fmt (int 42 ∷ str (b'o' ∷ b'k' ∷ []) ∷ [])
fmt-IsFormat = decimal (omega arith) (
    text (omega arith) (omega arith) (string (text (omega arith) (omega arith) (percent (end [])))))

kprintf-Printed_example : Printed fresh (kprintf fmt (int 42 ∷ str (b'o' ∷ b'k' ∷ []) ∷ []) fresh)
kprintf-Printed_example =
    kprintf-Printed fmt (int 42 ∷ str (b'o' ∷ b'k' ∷ []) ∷ []) fresh fmt-IsFormat fresh-IsPlaced

conversion-Spelled_example :
    Spelled 10 305 [] fresh (conversion b'd' 0 (int 305 ∷ []) fresh)
    × Spelled 10 (2 ^ 40) [] fresh (conversion b'l' b'd' (long (2 ^ 40) ∷ []) fresh)
    × Spelled 16 305 [] (write b'x' (write b'0' fresh)) (conversion b'x' 0 (int 305 ∷ []) fresh)
    × Spelled 16
        (2 ^ 40)
        []
        (write b'x' (write b'0' fresh))
        (conversion b'p' 0 (ptr (2 ^ 40) ∷ []) fresh)
conversion-Spelled_example = conversion-Spelled 305 (2 ^ 40) 0 [] fresh (omega arith) (omega arith)

check_if_line_full-scrolls_example :
    ((check_if_line_full full).line_adr ≡ full.vga + 3680)
    × ((check_if_line_full full).next_line_adrs ≡ full.vga + 3840)
    × ((b : ℕ)
        → b < 3680
        → (check_if_line_full full).video (full.vga + b) ≡ full.video (full.vga + b + 160))
    × ((b : ℕ) → 3680 ≤ b → b < 3840 → (check_if_line_full full).video (full.vga + b) ≡ 0)
    × ((a : ℕ) → Outside full.vga a → (check_if_line_full full).video a ≡ full.video a)
check_if_line_full-scrolls_example =
    check_if_line_full-scrolls full (omega arith) (omega arith) (omega arith)

-- A backspace at the very start writes in front of the screen.
back_space_run : (back_space fresh).line_adr ≡ 0xb7ffe
unfolding back_space
back_space_run = refl
