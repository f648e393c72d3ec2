-- ===== src/Tests.antt =====
-- The data that the tests run on, and the tests.
pub mod Memory
pub mod Tasks
pub mod Clock
pub mod Areas
pub mod Console
pub mod Paths
pub mod Files
pub mod Strings
pub mod Fork
pub mod Programs
pub mod Shell
pub mod Exec
pub mod Loader
use sbunix_64_bit_operating.Prelude.{
  ℕ, zero, suc, ◌-◌, ◌/◌, ◌%◌, ◌<◌, ◌≡◌, refl, ap, ◌∙◌, true, false, ◌∷◌, arith, ◌==◌, ne→==,
  get_or, replicate, length-replicate, zero-test_bit,
}
use sbunix_64_bit_operating.Frames.{Frames, IsValid, AllWords, is_free, max_frames, page_allocator}
use sbunix_64_bit_operating.Frames.Alloc.{page_allocator-grants}
use sbunix_64_bit_operating.Paging.{Mmu}
use sbunix_64_bit_operating.Paging.Descend.{Grants}

-- The frames 4 to 7 of the first row are free, and no others.
abbrev pub four_free : Frames
four_free = record {
  rows = 240 ∷ replicate 1023 0;
  ker_physbase = 0x20_0000;
  ker_physfree = 0x30_0000;
  physend = 0x7FF_E000;
  ahci_phys = 0;
}

AllWords-replicate : (n : ℕ) → AllWords (replicate n 0)
AllWords-replicate zero = tt
AllWords-replicate (suc n) = (omega arith, AllWords-replicate n)

pub four_free-IsValid : IsValid four_free
four_free-IsValid = record {
  bitmap_length = ap suc (length-replicate {A = ℕ} 1023 0);
  words = (omega arith, AllWords-replicate 1023);
}

-- Three frames that are free let the allocator be called three times.
pub Grants-is_free :
    {s : Frames} (a b c : ℕ)
    → IsValid s
    → (a < b) × (b < c) × (c < max_frames)
    → (is_free s a ≡ true) × (is_free s b ≡ true) × (is_free s c ≡ true)
    → Grants 3 s
Grants-is_free {s} a b c v l h =
    let (f, lf, gf) = page_allocator-grants v a (omega (arith, l)) h.0 in
    let s1 = (page_allocator s).1 in
    let b1 : is_free s1 b ≡ true = gf.others b ∙ rw (ne→== f b (λ e. omega (arith, l))) h.1 in
    let c1 : is_free s1 c ≡ true = gf.others c ∙ rw (ne→== f c (λ e. omega (arith, l))) h.2 in
    let (g, lg, gg) = page_allocator-grants gf.valid b (omega (arith, l)) b1 in
    let s2 = (page_allocator s1).1 in
    let c2 : is_free s2 c ≡ true = gg.others c ∙ rw (ne→== g c (λ e. omega (arith, l))) c1 in
    let (k, lk, gk) = page_allocator-grants gg.valid c (omega (arith, l)) c2 in
    (f, gf, (g, gg, (k, gk, tt)))

abbrev pub base : ℕ
base = 0xFFFF_FFFF_8000_0000

-- Empty memory, with the top table in the page 0x1000.
abbrev pub empty_mmu : Mmu
empty_mmu = record { frames = four_free; mem = λ w. 0; kernbase = base; pml4 = 0x1000 }

-- The frames 8 to 11 are free, and no others.
abbrev pub high_free : Frames
high_free = record {
  rows = 3840 ∷ replicate 1023 0;
  ker_physbase = 0x20_0000;
  ker_physfree = 0x30_0000;
  physend = 0x7FF_E000;
  ahci_phys = 0;
}

pub high_free-IsValid : IsValid high_free
high_free-IsValid = record {
  bitmap_length = ap suc (length-replicate {A = ℕ} 1023 0);
  words = (omega arith, AllWords-replicate 1023);
}

-- No frame is free.
abbrev pub none_free : Frames
none_free = record {
  rows = replicate 1024 0;
  ker_physbase = 0x20_0000;
  ker_physfree = 0x30_0000;
  physend = 0x7FF_E000;
  ahci_phys = 0;
}

pub none_free-IsValid : IsValid none_free
none_free-IsValid = record {
  bitmap_length = length-replicate {A = ℕ} 1024 0;
  words = AllWords-replicate 1024;
}

get_or-replicate : (n i : ℕ) → get_or {A = ℕ} (replicate n 0) i 0 ≡ 0
get_or-replicate zero i = refl
get_or-replicate (suc n) zero = refl
get_or-replicate (suc n) (suc i) = get_or-replicate n i

pub none_free-is_free : (g : ℕ) → is_free none_free g ≡ false
unfolding is_free
none_free-is_free g = rw (get_or-replicate 1024 (g / 64)) (zero-test_bit (g % 64))
