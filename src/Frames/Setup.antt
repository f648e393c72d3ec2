-- ===== src/Frames/Setup.antt =====
-- `initBitmap` of sys/phyMemMapper.c: which frames it leaves free.
use sbunix_64_bit_operating.Prelude.{
  ℕ, zero, suc, ◌+◌, ◌-◌, ◌/◌, ◌≤◌, ◌<◌, ◌≡◌, refl, ap, ◌∙◌, Bool, true, false, ◌&&◌, ◌||◌, not,
  arith, ltb, leb, if◌then◌else◌,
}
use sbunix_64_bit_operating.Frames.{
  Frames, IsValid, is_free, max_frames, page_size, free_range, use_range, init_bitmap, mark_as_used,
  mark_as_free, free_frames,
}
use sbunix_64_bit_operating.Frames.Marks.{
  mark_as_used-IsValid, mark_as_free-IsValid, is_free-mark_as_used, is_free-mark_as_free,
}

free_range-IsValid : (n f k : ℕ) {s : Frames} → IsValid s → IsValid (free_range n f k s)
unfolding free_range
free_range-IsValid zero f k v = v
free_range-IsValid (suc n) f k {s} v = free_range-IsValid n (f + 1) k (branch (leb f k))
  where
    branch : (b : Bool) → IsValid (if b then s else mark_as_free f s)
    branch true = v
    branch false = mark_as_free-IsValid f v

is_free-free_range :
    (n f k g : ℕ) {s : Frames}
    → IsValid s
    → f + n ≤ max_frames
    → is_free (free_range n f k s) g ≡ ((leb f g && ltb g (f + n) && ltb k g) || is_free s g)
unfolding free_range
is_free-free_range zero f k g v l = ground arith
is_free-free_range (suc n) f k g {s} v l = ground (
  arith,
  is_free-free_range n (f + 1) k g {s = s} v (omega arith),
  is_free-free_range n (f + 1) k g {s = mark_as_free f s} (mark_as_free-IsValid f v) (omega arith),
  is_free-mark_as_free f v (omega arith) g,
)

use_range-IsValid : (n f : ℕ) {s : Frames} → IsValid s → IsValid (use_range n f s)
unfolding use_range
use_range-IsValid zero f v = v
use_range-IsValid (suc n) f v = use_range-IsValid n (f + 1) (mark_as_used-IsValid f v)

is_free-use_range :
    (n f g : ℕ) {s : Frames}
    → IsValid s
    → f + n ≤ max_frames
    → is_free (use_range n f s) g ≡ (not (leb f g && ltb g (f + n)) && is_free s g)
unfolding use_range
is_free-use_range zero f g v l = ground arith
is_free-use_range (suc n) f g {s} v l = ground (
  arith,
  is_free-use_range n (f + 1) g {s = mark_as_used f s} (mark_as_used-IsValid f v) (omega arith),
  is_free-mark_as_used f v (omega arith) g,
)

is_free-physend : (s : Frames) (e g : ℕ) → is_free (record s { physend = e }) g ≡ is_free s g
unfolding is_free
is_free-physend s e g = refl

-- The tests of the two loops, joined.
join_tests :
    (first last k g : ℕ) (old : Bool)
    → first ≤ last
    → old ≡ false
    → (not (leb 0 g && ltb g (0 + 256))
        && ((leb first g && ltb g (first + (last + 1 - first)) && ltb k g) || old))
      ≡ (leb first g && leb g last && ltb k g && leb 256 g)
join_tests first last k g old h e = ground arith

-- From a bitmap with no frame free, for a range of memory that the bitmap covers, exactly these
-- frames end free: those from `start` to `end` that lie behind the kernel's last frame and behind
-- the first megabyte. The bitmap stays well formed.
pub init_bitmap-is_free :
    (start end_addr : ℕ) {s : Frames}
    → IsValid s
    → ((g : ℕ) → is_free s g ≡ false)
    → start ≤ end_addr
    → end_addr / page_size < max_frames
    → IsValid (init_bitmap start end_addr s)
      × ((g : ℕ)
          → is_free (init_bitmap start end_addr s) g ≡ (
              leb (start / page_size) g
              && leb g (end_addr / page_size)
              && ltb (s.ker_physfree / page_size) g
              && leb 256 g))
unfolding init_bitmap free_frames
init_bitmap-is_free start end_addr {s} v clear o l = (
  record { bitmap_length = r.bitmap_length; words = r.words },
  λ g.
      is_free-physend (use_range 256 0 freed) end_addr g
      ∙ is_free-use_range 256 0 g (free_range-IsValid n a k v) (omega arith)
      ∙ ap (λ b. not (leb 0 g && ltb g (0 + 256)) && b) (is_free-free_range n a k g v (omega arith))
      ∙ join_tests a (end_addr / page_size) k g (is_free s g) (omega arith) (clear g),
)
  where
    a : ℕ
    a = start / page_size

    n : ℕ
    n = end_addr / page_size + 1 - a

    k : ℕ
    k = s.ker_physfree / page_size

    freed : Frames
    freed = free_range n a k s

    r : IsValid (use_range 256 0 freed)
    r = use_range-IsValid 256 0 (free_range-IsValid n a k v)
