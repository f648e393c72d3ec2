-- ===== src/Frames/Marks.antt =====
-- What one mark changes in the bitmap of sys/phyMemMapper.c.
use sbunix_64_bit_operating.Prelude.{
  ℕ, zero, suc, ◌^◌, ◌<◌, ◌≡◌, refl, ap, ◌∙◌, ◌≢◌, true, false, List, [], ◌∷◌, length, get_or, set,
  length-set, get_or-set_self, get_or-set_ne, ◌==◌, if◌then◌else◌, test_bit, set_bit-lt,
  clear_bit-le, arith, test_bit-set_self, test_bit-set_ne, test_bit-clear_self, test_bit-clear_ne,
  eq→==, ne→==,
}
use native.Mathlib.Decide.{ℕ_discrete}
use sbunix_64_bit_operating.Frames.{
  Frames, row, col, max_frames, mark_as_free, mark_as_used, is_free, IsValid, AllWords,
}

pub get_or-AllWords : (ws : List ℕ) (i : ℕ) → AllWords ws → get_or ws i 0 < 2 ^ 64
get_or-AllWords [] i h = omega arith
get_or-AllWords (w ∷ ws) zero h = h.0
get_or-AllWords (w ∷ ws) (suc i) h = get_or-AllWords ws i h.1

set-AllWords : (ws : List ℕ) (i v : ℕ) → v < 2 ^ 64 → AllWords ws → AllWords (set ws i v)
set-AllWords [] i v p h = tt
set-AllWords (w ∷ ws) zero v p h = (p, h.1)
set-AllWords (w ∷ ws) (suc i) v p h = (h.0, set-AllWords ws i v p h.1)

pub mark_as_free-IsValid : (f : ℕ) {s : Frames} → IsValid s → IsValid (mark_as_free f s)
unfolding mark_as_free
mark_as_free-IsValid f {s} v = record {
  bitmap_length = length-set s.rows _ _ ∙ v.bitmap_length;
  words =
      set-AllWords s.rows _ _ (set_bit-lt 64 _ _ (omega arith) (get_or-AllWords _ _ v.words))
        v.words;
}

pub mark_as_used-IsValid : (f : ℕ) {s : Frames} → IsValid s → IsValid (mark_as_used f s)
unfolding mark_as_used
mark_as_used-IsValid f {s} v = record {
  bitmap_length = length-set s.rows _ _ ∙ v.bitmap_length;
  words =
      set-AllWords s.rows _ _
        (omega (
          arith,
          clear_bit-le (get_or s.rows (row f) 0) (col f),
          get_or-AllWords s.rows (row f) v.words,
        ))
        v.words;
}

-- Two frames with the same row differ in the column.
module _ (f g : ℕ) where
  col-ne : f ≢ g → row f ≡ row g → col f ≢ col g
  col-ne h e = omega arith

module _ (f : ℕ) {s : Frames} (v : IsValid s) (within : f < max_frames) where
  in_rows : row f < length s.rows
  in_rows = omega (arith, v.bitmap_length)

  pub is_free-mark_as_free_self : is_free (mark_as_free f s) f ≡ true
  unfolding is_free mark_as_free
  is_free-mark_as_free_self =
      ap (λ w. test_bit w (col f)) (get_or-set_self s.rows _ _ 0 in_rows)
      ∙ test_bit-set_self (get_or s.rows (row f) 0) (col f)

  pub is_free-mark_as_used_self : is_free (mark_as_used f s) f ≡ false
  unfolding is_free mark_as_used
  is_free-mark_as_used_self =
      ap (λ w. test_bit w (col f)) (get_or-set_self s.rows _ _ 0 in_rows)
      ∙ test_bit-clear_self (get_or s.rows (row f) 0) (col f)

  pub is_free-mark_as_free_ne : (g : ℕ) → f ≢ g → is_free (mark_as_free f s) g ≡ is_free s g
  unfolding is_free mark_as_free
  is_free-mark_as_free_ne g h = elim (ℕ_discrete (row f) (row g)) [
    | yes e ↦ rw (← e) (
        ap (λ w. test_bit w (col g)) (get_or-set_self s.rows _ _ 0 in_rows)
        ∙ test_bit-set_ne (get_or s.rows (row f) 0) (col f) (col g) (col-ne f g h e))
    | no e ↦ ap (λ w. test_bit w (col g)) (get_or-set_ne s.rows _ _ _ 0 e)
  ]

  pub is_free-mark_as_used_ne : (g : ℕ) → f ≢ g → is_free (mark_as_used f s) g ≡ is_free s g
  unfolding is_free mark_as_used
  is_free-mark_as_used_ne g h = elim (ℕ_discrete (row f) (row g)) [
    | yes e ↦ rw (← e) (
        ap (λ w. test_bit w (col g)) (get_or-set_self s.rows _ _ 0 in_rows)
        ∙ test_bit-clear_ne (get_or s.rows (row f) 0) (col f) (col g) (col-ne f g h e))
    | no e ↦ ap (λ w. test_bit w (col g)) (get_or-set_ne s.rows _ _ _ 0 e)
  ]

  -- Marking a frame free changes that frame alone.
  pub is_free-mark_as_free :
      (g : ℕ) → is_free (mark_as_free f s) g ≡ (if f == g then true else is_free s g)
  is_free-mark_as_free g = elim (ℕ_discrete f g) [
    | yes e ↦ rw (← e, eq→== f f refl) is_free-mark_as_free_self
    | no e ↦ rw (ne→== f g e) (is_free-mark_as_free_ne g e)
  ]

  pub is_free-mark_as_used :
      (g : ℕ) → is_free (mark_as_used f s) g ≡ (if f == g then false else is_free s g)
  is_free-mark_as_used g = elim (ℕ_discrete f g) [
    | yes e ↦ rw (← e, eq→== f f refl) is_free-mark_as_used_self
    | no e ↦ rw (ne→== f g e) (is_free-mark_as_used_ne g e)
  ]
