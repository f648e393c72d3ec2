-- ===== src/Frames/Alloc.antt =====
-- `pageAllocator` and `pageDeAllocator` of sys/phyMemMapper.c, against the view of the bitmap.
use sbunix_64_bit_operating.Prelude.{
  ℕ, ◌*◌, ◌/◌, ◌<◌, ◌≤◌, ◌≡◌, refl, ap, inl, inr, true, false, none, some, Option-cases, ◌==◌,
  if◌then◌else◌, arith, ne→==,
}
use native.Mathlib.Decide.{dec_lt}
use sbunix_64_bit_operating.Frames.{
  Frames, IsValid, is_free, max_frames, page_size, no_frame, take_frame, get_first_frame,
  page_allocator, page_deallocator, first_row,
}
use sbunix_64_bit_operating.Frames.Marks.{
  mark_as_used-IsValid, is_free-mark_as_used, is_free-mark_as_free,
}
use sbunix_64_bit_operating.Frames.Search.{bit_at, IsFirst, first_row-some, first_row-none}

abbrev pub NoneFree : Frames → Type 0
NoneFree s = (g : ℕ) → g < max_frames → is_free s g ≡ false

-- `r` is the result of handing out the lowest free frame of `s`.
pub record IsGrant (s : Frames) (r : ℕ × Frames) (frame : ℕ) : Type 0 where
  pub address : r.0 ≡ frame * page_size
  pub within : frame < max_frames
  pub was_free : is_free s frame ≡ true
  pub lowest : (g : ℕ) → g < frame → is_free s g ≡ false
  pub valid : IsValid r.1
  pub others : (g : ℕ) → is_free r.1 g ≡ (if frame == g then false else is_free s g)

module _ {s : Frames} (v : IsValid s) where
  search-none : first_row 0 s.rows ≡ none → NoneFree s
  unfolding is_free bit_at
  search-none e g l = first_row-none 0 s.rows e g (omega (arith, v.bitmap_length))

  search-some : (f : ℕ) → first_row 0 s.rows ≡ some f → IsFirst s.rows f
  search-some f e =
      let r = first_row-some 0 s.rows f e in let e' : r.0 ≡ f = omega (arith, r.1) in rw e' at (r.2)

  get_first_frame-some : (f : ℕ) → first_row 0 s.rows ≡ some f → get_first_frame s ≡ f
  unfolding get_first_frame
  get_first_frame-some f e = ground arith

  IsGrant-first_row : (f : ℕ) → first_row 0 s.rows ≡ some f → IsGrant s (page_allocator s) f
  unfolding page_allocator take_frame is_free bit_at
  IsGrant-first_row f e =
      let p = search-some f e in
      let l : f < max_frames = omega (arith, p.within, v.bitmap_length) in
      let q : (f == no_frame) ≡ false = ne→== f no_frame (omega arith) in
      rw (get_first_frame-some f e, q)
        (record {
          address = refl;
          within = l;
          was_free = p.holds;
          lowest = p.lowest;
          valid = mark_as_used-IsValid f v;
          others = is_free-mark_as_used f v l;
        })

  -- With no frame free the allocator answers NULL and changes nothing.
  pub page_allocator-none : NoneFree s → page_allocator s ≡ (0, s)
  unfolding page_allocator take_frame get_first_frame is_free bit_at
  page_allocator-none h = elim (Option-cases (first_row 0 s.rows)) [
    | inl e ↦ ground arith
    | inr (f, e) ↦
        let p = search-some f e in
        let c = h f (omega (arith, p.within, v.bitmap_length)) in ground (arith, p.holds)
  ]

  -- While a frame is free, the allocator hands out the lowest one.
  pub page_allocator-grants :
      (g : ℕ)
      → g < max_frames
      → is_free s g ≡ true
      → (f : ℕ) × (f ≤ g) × IsGrant s (page_allocator s) f
  page_allocator-grants g l h = elim (Option-cases (first_row 0 s.rows)) [
    | inl e ↦ (let c = search-none e g l in ground arith)
    | inr (f, e) ↦ (f, least f (IsGrant-first_row f e).lowest, IsGrant-first_row f e)
  ]
    where
      least : (f : ℕ) → ((j : ℕ) → j < f → is_free s j ≡ false) → f ≤ g
      least f low = elim (dec_lt g f) [
        | yes q ↦ (let c = low g q in ground arith)
        | no q ↦ omega arith
      ]

  -- Giving a page back right after it was handed out restores what the bitmap says of every frame.
  pub page_deallocator-page_allocator :
      (f : ℕ)
      → IsGrant s (page_allocator s) f
      → (g : ℕ)
      → is_free (page_deallocator (page_allocator s).0 (page_allocator s).1) g ≡ is_free s g
  unfolding page_deallocator
  page_deallocator-page_allocator f k g =
      let q : (page_allocator s).0 / page_size ≡ f = omega (arith, k.address) in
      rw q
        (ground (arith, is_free-mark_as_free f k.valid k.within g, k.others g, k.was_free, f_is g))
    where
      f_is : (g : ℕ) → f ≡ g → is_free s f ≡ is_free s g
      f_is g e = ap (is_free s) e
