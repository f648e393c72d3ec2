-- ===== src/Paging/Protect.antt =====
-- `markPageAsRW` (sys/task.c) on a mapped page.
use sbunix_64_bit_operating.Prelude.{
  ℕ, ◌+◌, ◌≡◌, refl, ap, ◌∙◌, Bool, true, not, some, arith, if◌then◌else◌, test_bit, set_bit,
  clear_bit,
}
use sbunix_64_bit_operating.Paging.{
  Mmu, entry, store, set_flags, map_page_for_user, get_physical_page_addr, pt_index,
  mark_page_as_rw, direct,
}
use sbunix_64_bit_operating.Paging.Walk.{
  descend, walk, upper, map_levels-descend, mark_page_as_rw-walk, get_physical_page_addr-walk,
  entry_of,
}
use sbunix_64_bit_operating.Paging.Descend.{IsTable, SameOff}
use sbunix_64_bit_operating.Paging.Translate.{CanMap, Names, descended, read_last, SameOff-store}

-- What `markPageAsRW` makes of the last entry.
abbrev pub marked : Bool → ℕ → ℕ
marked read_only e = if read_only then clear_bit e 1 else set_bit e 1

marked-Names :
    (read_only : Bool) (e p : ℕ) {w user : Bool}
    → Names e p w user
    → Names (marked read_only e) p (not read_only) user
unfolding set_bit clear_bit test_bit
marked-Names read_only e p n = ground arith

-- The tables of `cr3` lead from `v` to the table `pt`, whatever the words of the page `pt` hold.
pub record Leads (m : Mmu) (cr3 v pt : ℕ) : Type 0 where
  pub table : IsTable m pt
  pub reaches : (g : ℕ → ℕ) → SameOff pt g m.mem → walk (upper v) cr3 g ≡ some pt

module _ {m : Mmu} (cr3 v : ℕ) {pt : ℕ} (l : Leads m cr3 v pt) where
  last_entry : get_physical_page_addr v cr3 m ≡ m.mem (entry pt (pt_index v))
  last_entry =
      get_physical_page_addr-walk v cr3 m ∙ ap (entry_of v m.mem) (l.reaches m.mem (λ b h. refl))

  Leads-store : (x : ℕ) → Leads (store (entry pt (pt_index v)) x m) cr3 v pt
  unfolding store
  Leads-store x = record {
    table = record { aligned = l.table.aligned; within = l.table.within; taken = l.table.taken };
    reaches = λ g s.
        l.reaches g
          (λ b h. s b h ∙ SameOff-store pt (pt_index v) x m l.table.aligned (omega arith) b h);
  }

  mark_result :
      (read_only : Bool)
      → mark_page_as_rw v (cr3 + m.kernbase) read_only m
        ≡ (0, store (entry pt (pt_index v)) (marked read_only (m.mem (entry pt (pt_index v)))) m)
  mark_result read_only =
      let e : direct m (cr3 + m.kernbase) ≡ cr3 = omega arith in
      mark_page_as_rw-walk v (cr3 + m.kernbase) read_only m
      ∙ rw (e, l.reaches m.mem (λ b h. refl)) refl

-- On an address that the tables lead to, `markPageAsRW` succeeds, takes away or gives the right to
-- write and leaves the page and the user bit; the tables still lead there.
pub mark_page_as_rw-Names :
    (read_only : Bool) {m : Mmu} (cr3 v p : ℕ) {pt : ℕ} {w user : Bool}
    → Leads m cr3 v pt
    → Names (get_physical_page_addr v cr3 m) p w user
    → ((mark_page_as_rw v (cr3 + m.kernbase) read_only m).0 ≡ 0)
      × Names
          (get_physical_page_addr v cr3 (mark_page_as_rw v (cr3 + m.kernbase) read_only m).1)
          p
          (not read_only)
          user
      × Leads (mark_page_as_rw v (cr3 + m.kernbase) read_only m).1 cr3 v pt
mark_page_as_rw-Names read_only {m} cr3 v p {pt} l n =
    let x = marked read_only (m.mem (entry pt (pt_index v))) in
    rw (mark_result cr3 v l read_only) (
      refl,
      rw (read_last v cr3 pt x m l.table l.reaches)
          (marked-Names read_only _ p (rw (last_entry cr3 v l) at n)),
      Leads-store cr3 v l x,
    )

pub map_page_for_user-Leads :
    {m : Mmu} (cr3 v p : ℕ)
    → CanMap m cr3 v
    → Leads (map_page_for_user v p (cr3 + m.kernbase) m) cr3 v (descend true (upper v) cr3 m).0
unfolding map_page_for_user
map_page_for_user-Leads {m} cr3 v p c =
    let e : direct m (cr3 + m.kernbase) ≡ cr3 = omega arith in
    let d = descended true cr3 v c in
    rw (e, map_levels-descend true cr3 v p m)
      (Leads-store cr3 v (record { table = d.table; reaches = d.reaches }) (set_flags true p))
