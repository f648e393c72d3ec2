-- ===== src/Faults/Tables.antt =====
-- The tables of an address, and the copy of a page, for the page fault handler (sys/idt.c).
use sbunix_64_bit_operating.Prelude.{
  ℕ, zero, suc, ◌+◌, ◌-◌, ◌≤◌, ◌≡◌, refl, ap, ◌∙◌, ◌≢◌, ◌⊎◌, inl, inr, true, false, ◌&&◌, arith,
  ltb, leb, ◌==◌, if◌then◌else◌, ne→==, Bool-cases,
}
use sbunix_64_bit_operating.Paging.{
  Mmu, entry, present, frame, store, set_flags, map_levels, map_page_for_user, next_table,
  get_physical_page_addr, pml4_index, pdpt_index, pdt_index, pt_index, direct,
}
use sbunix_64_bit_operating.Paging.Descend.{IsTable}
use sbunix_64_bit_operating.Faults.{copy_words}

-- The loop of `memcpy` between two ranges apart.
pub copy_words_lem :
    (n src dest : ℕ) (mem : ℕ → ℕ) (b : ℕ)
    → (src + n ≤ dest) ⊎ (dest + n ≤ src)
    → copy_words n src dest mem b
      ≡ (if leb dest b && ltb b (dest + n) then mem (src + (b - dest)) else mem b)
unfolding copy_words
copy_words_lem zero src dest mem b h = ground arith
copy_words_lem (suc n) src dest mem b h =
    let written : ℕ → ℕ = λ c. if c == dest then mem src else mem c in
    let later = copy_words_lem n (src + 1) (dest + 1) written b (moved h) in
    elim (Bool-cases (leb (dest + 1) b && ltb b (dest + 1 + n))) [
      | inl q ↦
          let at : src + 1 + (b - (dest + 1)) ≡ src + (b - dest) = ground arith in
          let here : (leb dest b && ltb b (dest + suc n)) ≡ true = ground arith in
          later ∙ rw (q, here, at, ne→== (src + (b - dest)) dest (λ e. apart q e)) refl
      | inr q ↦ elim (Bool-cases (b == dest)) [
        | inl r ↦
            let here : (leb dest b && ltb b (dest + suc n)) ≡ true = ground arith in
            let at : src + (b - dest) ≡ src = ground arith in later ∙ rw (q, r, here, at) refl
        | inr r ↦
            let out : (leb dest b && ltb b (dest + suc n)) ≡ false = ground arith in
            later ∙ rw (q, r, out) refl
      ]
    ]
  where
    moved :
        (src + suc n ≤ dest) ⊎ (dest + suc n ≤ src)
        → (src + 1 + n ≤ dest + 1) ⊎ (dest + 1 + n ≤ src + 1)
    moved (inl l) = inl (omega arith)
    moved (inr l) = inr (omega arith)

    apart : (leb (dest + 1) b && ltb b (dest + 1 + n)) ≡ true → src + (b - dest) ≢ dest
    apart q e = elim h [ inl l ↦ ground arith | inr l ↦ ground arith ]

-- The tables of the address `v`, from the top one to the last.
pub record TablePath (mem : ℕ → ℕ) (v cr3 pdpt pdt pt : ℕ) : Type 0 where
  pub top_present : present (mem (entry cr3 (pml4_index v))) ≡ true
  pub to_pdpt : frame (mem (entry cr3 (pml4_index v))) ≡ pdpt
  pub pdpt_present : present (mem (entry pdpt (pdpt_index v))) ≡ true
  pub to_pdt : frame (mem (entry pdpt (pdpt_index v))) ≡ pdt
  pub pdt_present : present (mem (entry pdt (pdt_index v))) ≡ true
  pub to_pt : frame (mem (entry pdt (pdt_index v))) ≡ pt

module _ (m : Mmu) (v cr3 pdpt pdt pt : ℕ) where
  pub read_path :
      TablePath m.mem v cr3 pdpt pdt pt
      → get_physical_page_addr v cr3 m ≡ m.mem (entry pt (pt_index v))
  unfolding get_physical_page_addr
  read_path t = rw (t.top_present, t.to_pdpt, t.pdpt_present, t.to_pdt, t.pdt_present, t.to_pt) refl

  -- With the tables there, a page is mapped by one write.
  pub map_path :
      (p : ℕ)
      → TablePath m.mem v cr3 pdpt pdt pt
      → map_page_for_user v p (cr3 + m.kernbase) m
        ≡ store (entry pt (pt_index v)) (set_flags true p) m
  unfolding map_page_for_user map_levels next_table
  map_path p t =
      let e : direct m (cr3 + m.kernbase) ≡ cr3 = omega arith in
      rw (e, t.top_present, t.to_pdpt, t.pdpt_present, t.to_pdt, t.pdt_present, t.to_pt) refl

-- Four tables and a page, all of them pages handed out, the last table apart from the others.
pub record OwnPages (m : Mmu) (v cr3 pdpt pdt pt page : ℕ) : Type 0 where
  pub path : TablePath m.mem v cr3 pdpt pdt pt
  pub top : IsTable m cr3
  pub second : IsTable m pdpt
  pub third : IsTable m pdt
  pub last : IsTable m pt
  pub held : IsTable m page
  pub apart : (cr3 ≢ pt) × (pdpt ≢ pt) × (pdt ≢ pt) × (page ≢ pt)

-- The path does not depend on other pages.
pub TablePath-same :
    (mem mem' : ℕ → ℕ) (v cr3 pdpt pdt pt : ℕ)
    → mem' (entry cr3 (pml4_index v)) ≡ mem (entry cr3 (pml4_index v))
    → mem' (entry pdpt (pdpt_index v)) ≡ mem (entry pdpt (pdpt_index v))
    → mem' (entry pdt (pdt_index v)) ≡ mem (entry pdt (pdt_index v))
    → TablePath mem v cr3 pdpt pdt pt
    → TablePath mem' v cr3 pdpt pdt pt
TablePath-same mem mem' v cr3 pdpt pdt pt a b c t = record {
  top_present = ap (λ e. present e) a ∙ t.top_present;
  to_pdpt = ap (λ e. frame e) a ∙ t.to_pdpt;
  pdpt_present = ap (λ e. present e) b ∙ t.pdpt_present;
  to_pdt = ap (λ e. frame e) b ∙ t.to_pdt;
  pdt_present = ap (λ e. present e) c ∙ t.pdt_present;
  to_pt = ap (λ e. frame e) c ∙ t.to_pt;
}
