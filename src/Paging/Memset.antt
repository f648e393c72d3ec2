-- ===== src/Paging/Memset.antt =====
-- The loop of `memset` (sys/phyMemMapper.c).
use sbunix_64_bit_operating.Prelude.{
  ℕ, zero, suc, ◌+◌, ◌/◌, ◌≡◌, refl, ◌&&◌, arith, ltb, leb, ◌==◌, if◌then◌else◌,
}
use sbunix_64_bit_operating.Paging.{Mmu, memset_words, memset, store}

memset_words_lem :
    (n w : ℕ) (mem : ℕ → ℕ) (b : ℕ)
    → memset_words n w mem b ≡ (if leb w b && ltb b (w + n) then 0 else mem b)
unfolding memset_words
memset_words_lem zero w mem b = ground arith
memset_words_lem (suc n) w mem b =
    ground (arith, memset_words_lem n (w + 1) (λ b. if b == w then 0 else mem b) b)

-- `memset` zeroes the 512 words of the page at `p`, and no other.
pub memset-mem :
    (p : ℕ) (m : Mmu) (b : ℕ)
    → (memset p m).mem b ≡ (if leb (p / 8) b && ltb b (p / 8 + 512) then 0 else m.mem b)
unfolding memset
memset-mem p m b = memset_words_lem 512 (p / 8) m.mem b

pub store-mem : (w v : ℕ) (m : Mmu) (b : ℕ) → (store w v m).mem b ≡ (if b == w then v else m.mem b)
unfolding store
store-mem w v m b = refl
