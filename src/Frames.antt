-- ===== src/Frames.antt =====
-- sys/phyMemMapper.c: the bitmap of free page frames. A set bit means that the frame is free.
-- The array `availFrames` is the list `rows`; a pointer to a page is its physical address, and
-- NULL is 0. A mark outside the bitmap, which in the source writes past the array, changes nothing
-- here; the theorems speak of frames that the bitmap covers.
pub mod Marks
pub mod Search
pub mod Alloc
pub mod Setup
use sbunix_64_bit_operating.Prelude.{
  ℕ, zero, suc, ◌+◌, ◌*◌, ◌/◌, ◌%◌, ◌^◌, ◌-◌, ◌<◌, ◌≡◌, Bool, Option, none, some, List, [], ◌∷◌,
  length, get_or, set, replicate, ltb, leb, ◌==◌, if◌then◌else◌, test_bit, set_bit, clear_bit,
}

pub record Frames : Type 0 where
  pub rows : List ℕ
  pub ker_physbase : ℕ
  pub ker_physfree : ℕ
  pub physend : ℕ
  pub ahci_phys : ℕ

-- MAX_BITMAP_ROWS, AHCI_MEM and the page size.
abbrev pub max_bitmap_rows : ℕ
max_bitmap_rows = 1024

abbrev pub ahci_mem : ℕ
ahci_mem = 122_880

abbrev pub page_size : ℕ
page_size = 4096

-- ROW and COL.
abbrev pub row : ℕ → ℕ
row f = f / 64

abbrev pub col : ℕ → ℕ
col f = f % 64

-- The frames that the bitmap covers.
abbrev pub max_frames : ℕ
max_frames = 65_536

unfoldable pub init_phys : ℕ → ℕ → Frames → Frames
init_phys base limit s = record s { ker_physbase = base; ker_physfree = limit }

unfoldable pub mark_as_free : ℕ → Frames → Frames
mark_as_free f s = record s {
  rows = set s.rows (row f) (set_bit (get_or s.rows (row f) 0) (col f));
}

unfoldable pub mark_as_used : ℕ → Frames → Frames
mark_as_used f s = record s {
  rows = set s.rows (row f) (clear_bit (get_or s.rows (row f) 0) (col f));
}

-- `availFrames[row] & (1 << col)`, the masked word itself.
unfoldable pub is_frame_used : ℕ → Frames → ℕ
is_frame_used f s = if test_bit (get_or s.rows (row f) 0) (col f) then 2 ^ col f else 0

unfoldable pub allocate_bitmap_mem : Frames → Frames
allocate_bitmap_mem s = record s {
  rows = replicate max_bitmap_rows 0;
  ker_physfree = s.ker_physfree + max_bitmap_rows * 64 / 8;
}

unfoldable pub allocate_ahci : Frames → Frames
allocate_ahci s = record s { ahci_phys = s.ker_physfree; ker_physfree = s.ker_physfree + ahci_mem }

-- The `while` of `initBitmap`, by the rounds left.
unfoldable pub free_range : (rounds f last_kernel : ℕ) → Frames → Frames
free_range zero f last_kernel s = s
free_range (suc n) f last_kernel s =
    free_range n (f + 1) last_kernel (if leb f last_kernel then s else mark_as_free f s)

-- The `for` of `initBitmap` over the first megabyte.
unfoldable pub use_range : (rounds f : ℕ) → Frames → Frames
use_range zero f s = s
use_range (suc n) f s = use_range n (f + 1) (mark_as_used f s)

-- The rounds of that `while`, and its start.
unfoldable pub free_frames : (first last : ℕ) → Frames → Frames
free_frames first last s = free_range (last + 1 - first) first (s.ker_physfree / page_size) s

-- A megabyte has 256 frames.
unfoldable pub init_bitmap : ℕ → ℕ → Frames → Frames
init_bitmap start end_addr s =
    record (use_range 256 0 (free_frames (start / page_size) (end_addr / page_size) s)) {
      physend = end_addr;
    }

-- The inner loop of `getFirstFrame`: the columns from `c` on, by the rounds left.
unfoldable pub first_col : (rounds c : ℕ) → ℕ → Option ℕ
first_col zero c w = none
first_col (suc n) c w = let rest = first_col n (c + 1) w in if test_bit w c then some c else rest

-- The outer loop of `getFirstFrame`, from row number `r` on.
unfoldable pub first_row : ℕ → List ℕ → Option ℕ
first_row r [] = none
first_row r (w ∷ ws) =
    let rest = first_row (r + 1) ws in
    if w == 0 then rest else elim (first_col 64 0 w) [ none ↦ rest | some c ↦ some (r * 64 + c) ]

-- `return -1` as a uint64_t.
abbrev pub no_frame : ℕ
no_frame = 18_446_744_073_709_551_615

unfoldable pub get_first_frame : Frames → ℕ
get_first_frame s = elim (first_row 0 s.rows) [ none ↦ no_frame | some f ↦ f ]

-- The branch of `pageAllocator` on what the search returned.
unfoldable pub take_frame : ℕ → Frames → ℕ × Frames
take_frame f s = if f == no_frame then (0, s) else (f * page_size, mark_as_used f s)

unfoldable pub page_allocator : Frames → ℕ × Frames
page_allocator s = take_frame (get_first_frame s) s

unfoldable pub page_deallocator : ℕ → Frames → Frames
page_deallocator addr s = mark_as_free (addr / page_size) s

-- What the bitmap says of a frame.
unfoldable pub is_free : Frames → ℕ → Bool
is_free s f = test_bit (get_or s.rows (row f) 0) (col f)

-- Every row is a 64-bit word.
abbrev pub AllWords : List ℕ → Type 0
AllWords [] = Unit {0}
AllWords (w ∷ ws) = (w < 2 ^ 64) × AllWords ws

pub record IsValid (s : Frames) : Type 0 where
  pub bitmap_length : length s.rows ≡ max_bitmap_rows
  pub words : AllWords s.rows
