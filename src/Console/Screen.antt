-- ===== src/Console/Screen.antt =====
-- The memory of the screen (sys/kprintf.c): what the loops over it leave at each address.
use sbunix_64_bit_operating.Prelude.{
  ℕ, zero, suc, ◌+◌, ◌-◌, ◌*◌, ◌%◌, ◌≡◌, ◌&&◌, arith, ltb, leb, ◌==◌, if◌then◌else◌,
}
use sbunix_64_bit_operating.Console.{put_byte, move_up, fill, scroll}

move_up_lem :
    (n a : ℕ) (video : ℕ → ℕ) (b : ℕ)
    → move_up n a video b ≡ (if leb a b && ltb b (a + n) then video (b + 160) else video b)
unfolding move_up
move_up_lem zero a video b = ground arith
move_up_lem (suc n) a video b =
    ground (arith, move_up_lem n (a + 1) (put_byte a (video (a + 160)) video) b)

pub fill-run :
    (n a c : ℕ) (video : ℕ → ℕ) (b : ℕ)
    → fill n 1 a c video b ≡ (if leb a b && ltb b (a + n) then c else video b)
unfolding fill
fill-run zero a c video b = ground arith
fill-run (suc n) a c video b = ground (arith, fill-run n (a + 1) c (put_byte a c video) b)

-- The addresses of the screen's cells lie two apart.
pub fill-cells :
    (n a c : ℕ) (video : ℕ → ℕ) (b : ℕ)
    → fill n 2 a c video b
      ≡ (if leb a b && ltb b (a + 2 * n) && ((b - a) % 2 == 0) then c else video b)
unfolding fill
fill-cells zero a c video b = ground arith
fill-cells (suc n) a c video b = ground (arith, fill-cells n (a + 2) c (put_byte a c video) b)

-- The scroll moves each of the upper 23 lines up from the line below it, blanks the last line and
-- leaves the bar below and all other memory alone.
pub scroll_lem :
    (vga : ℕ) (video : ℕ → ℕ) (b : ℕ)
    → scroll vga video b ≡ (
        if leb vga b && ltb b (vga + 3680)
        then video (b + 160)
        else if leb vga b && ltb b (vga + 3840)
        then 0
        else video b)
unfolding scroll
scroll_lem vga video b =
    ground
      (arith, fill-run 160 (vga + 3680) 0 (move_up 3680 vga video) b, move_up_lem 3680 vga video b)
