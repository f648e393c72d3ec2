-- ===== src/Faults/Write.antt =====
-- Copy on write (`_hndlr_isr14`, sys/idt.c): a user's write to a page that is present.
use sbunix_64_bit_operating.Prelude.{
  ℕ, zero, suc, ◌+◌, ◌<◌, ◌≡◌, refl, ap, ◌∙◌, ◌≢◌, inl, inr, Bool, true, false, ◌&&◌, not, some,
  List, [], ◌∷◌, arith, ◌==◌, if◌then◌else◌, eq→==, ne→==, Bool-cases, length, test_bit,
}
use sbunix_64_bit_operating.Paging.{Mmu, frame, get_physical_page_addr, mark_page_as_rw, minus_one}
use sbunix_64_bit_operating.Paging.Translate.{Names}
use sbunix_64_bit_operating.Paging.Protect.{Leads, mark_page_as_rw-Names}
use sbunix_64_bit_operating.Kernel.{Kernel, next_of}
use sbunix_64_bit_operating.Links.{Chain, count}
use sbunix_64_bit_operating.Sched.View.{View}
use sbunix_64_bit_operating.Faults.{
  returns, run_cr3, owners, write_fault, fault_branches, exit_first, page_fault, stack_border,
}

-- The task has the page at the address.
abbrev pub owns : (v phy x : ℕ) → Kernel → Bool
owns v phy x k =
    let e = get_physical_page_addr v (k.tasks x).regs.cr3 k.mmu in
    not (e == minus_one) && not (e == 0) && (frame e == phy)

abbrev pub sharers : (v phy : ℕ) → List ℕ → Kernel → ℕ
sharers v phy [] k = 0
sharers v phy (x ∷ xs) k = (if owns v phy x k then 1 else 0) + sharers v phy xs k

pub owners-sharers :
    (fuel v phy a n : ℕ) (xs : List ℕ) (k : Kernel)
    → Chain (next_of k) a xs k.running
    → count k.running xs ≡ 0
    → length xs < fuel
    → owners fuel v phy (next_of k a) n k ≡ some (n + sharers v phy xs k)
unfolding owners
owners-sharers zero v phy a n xs k c d l = absurd (omega arith)
owners-sharers (suc f) v phy a n [] k c d l =
    let e : n ≡ n + 0 = omega arith in rw (c, eq→== k.running k.running refl) (ap some e)
owners-sharers (suc f) v phy a n (x ∷ xs) k c d l =
    let other : (x == k.running) ≡ false = ground arith in
    rw (c.0, other)
      (elim (Bool-cases (owns v phy x k)) [
        | inl q ↦
            let e : n + 1 + sharers v phy xs k ≡ n + (1 + sharers v phy xs k) = omega arith in
            rw q (owners-sharers f v phy x (n + 1) xs k c.1 (omega arith) (omega arith) ∙ ap some e)
        | inr q ↦
            let e : n + sharers v phy xs k ≡ n + (0 + sharers v phy xs k) = omega arith in
            rw q (owners-sharers f v phy x n xs k c.1 (omega arith) (omega arith) ∙ ap some e)
      ])

-- The error code 7 of a user's write to a present page leads to `write_fault`.
pub page_fault-write :
    (fuel addr : ℕ) (k : Kernel)
    → frame addr ≢ stack_border
    → page_fault fuel addr 7 k ≡ write_fault fuel (frame addr) k
unfolding page_fault exit_first fault_branches test_bit
page_fault-write fuel addr k h = rw (ne→== (frame addr) stack_border h) refl

-- With no other owner the page stays and becomes writeable.
pub page_fault-sole :
    (fuel addr p : ℕ) (ring dead : List ℕ) (k : Kernel) {pt : ℕ} {w user : Bool}
    → frame addr ≢ stack_border
    → View k k.running ring dead
    → Leads k.mmu (run_cr3 k) (frame addr) pt
    → Names (get_physical_page_addr (frame addr) (run_cr3 k) k.mmu) p w user
    → sharers (frame addr) p ring k ≡ 0
    → length ring < fuel
    → (m : Mmu) × (page_fault fuel addr 7 k ≡ some (returns (record k { mmu = m })))
      × Names (get_physical_page_addr (frame addr) (run_cr3 k) m) p true user
unfolding write_fault
page_fault-sole fuel addr p ring dead k b v l n z f =
    let counted =
      owners-sharers fuel (frame addr) p k.running 1 ring k v.links
        (ground (arith, v.distinct k.running, eq→== k.running k.running refl)) f in
    let one : 1 + sharers (frame addr) p ring k ≡ 1 = omega (arith, z) in
    let marked = mark_page_as_rw-Names false (run_cr3 k) (frame addr) p l n in
    (
      (mark_page_as_rw (frame addr) (run_cr3 k + k.mmu.kernbase) false k.mmu).1,
      page_fault-write fuel addr k b ∙ rw (n.page, counted, one) refl,
      marked.1,
    )
