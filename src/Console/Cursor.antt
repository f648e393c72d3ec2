-- ===== src/Console/Cursor.antt =====
-- The position on the screen (sys/kprintf.c): inside of a line of the first 24, and kept there.
use sbunix_64_bit_operating.Prelude.{
  ℕ, zero, suc, ◌+◌, ◌-◌, ◌*◌, ◌%◌, ◌≤◌, ◌<◌, ◌≡◌, refl, sym, ap, ◌∙◌, subst, ◌⊎◌, inl, inr, Option,
  some, List, [], ◌∷◌, arith, ◌==◌, ==→eq, Bool-cases, ◌>>=◌,
}
use sbunix_64_bit_operating.Console.{
  Console, put_byte, scroll, check_if_line_full, write, blank_line, go_back, line_fuel, new_line,
  string_char, write_string,
}
use sbunix_64_bit_operating.Console.Screen.{scroll_lem}

-- The position lies on a cell of a line, and the line is one of the first 24 and of those counted.
pub record IsPlaced (k : Console) : Type 0 where
  pub low : k.vga + 160 ≤ k.next_line_adrs
  pub high : k.next_line_adrs ≤ k.vga + 3840
  pub counted : k.next_line_adrs ≤ k.vga + 160 * k.v_line_count
  pub after : k.next_line_adrs ≤ k.line_adr + 160
  pub before : k.line_adr < k.next_line_adrs
  pub even : (k.next_line_adrs - k.line_adr) % 2 ≡ 0
  pub whole : (k.next_line_adrs - k.vga) % 160 ≡ 0

-- Not in the first 24 lines.
abbrev pub Outside : ℕ → ℕ → Type 0
Outside vga a = (a < vga) ⊎ (vga + 3840 ≤ a)

-- A step that keeps the position placed and the memory outside of the lines.
pub record Prints (k k' : Console) : Type 0 where
  pub placed : IsPlaced k'
  pub same_vga : k'.vga ≡ k.vga
  pub outside : (a : ℕ) → Outside k.vga a → k'.video a ≡ k.video a

pub Prints-refl : {k : Console} → IsPlaced k → Prints k k
Prints-refl p = record { placed = p; same_vga = refl; outside = λ a o. refl }

pub Prints-trans : {k k' k'' : Console} → Prints k k' → Prints k' k'' → Prints k k''
Prints-trans {k} {k'} p q = record {
  placed = q.placed;
  same_vga = q.same_vga ∙ p.same_vga;
  outside = λ a o. q.outside a (subst (λ v. Outside v a) (sym p.same_vga) o) ∙ p.outside a o;
}

scroll-Outside : (vga : ℕ) (video : ℕ → ℕ) (a : ℕ) → Outside vga a → scroll vga video a ≡ video a
scroll-Outside vga video a (inl h) = ground (arith, scroll_lem vga video a)
scroll-Outside vga video a (inr h) = ground (arith, scroll_lem vga video a)

-- A line that may be full.
record IsNearlyPlaced (k : Console) : Type 0 where
  low : k.vga + 160 ≤ k.next_line_adrs
  high : k.next_line_adrs ≤ k.vga + 3840
  counted : k.next_line_adrs ≤ k.vga + 160 * k.v_line_count
  after : k.next_line_adrs ≤ k.line_adr + 160
  upto : k.line_adr ≤ k.next_line_adrs
  even : (k.next_line_adrs - k.line_adr) % 2 ≡ 0
  whole : (k.next_line_adrs - k.vga) % 160 ≡ 0

check_if_line_full-Prints : (k : Console) → IsNearlyPlaced k → Prints k (check_if_line_full k)
unfolding check_if_line_full
check_if_line_full-Prints k p = record {
  placed = ground arith;
  same_vga = ground arith;
  outside = λ a o. ground (arith, scroll-Outside k.vga k.video a o);
}

put_byte-Outside :
    (k : Console) (c a : ℕ)
    → IsPlaced k
    → Outside k.vga a
    → put_byte k.line_adr c k.video a ≡ k.video a
put_byte-Outside k c a p (inl h) = ground arith
put_byte-Outside k c a p (inr h) = ground arith

abbrev advance : ℕ → Console → Console
advance c k = record k { video = put_byte k.line_adr c k.video; line_adr = k.line_adr + 2 }

advance-IsNearlyPlaced : (c : ℕ) (k : Console) → IsPlaced k → IsNearlyPlaced (advance c k)
advance-IsNearlyPlaced c k p = ground arith

pub write-Prints : (c : ℕ) (k : Console) → IsPlaced k → Prints k (write c k)
unfolding write
write-Prints c k p =
    let q =
      check_if_line_full-Prints (advance (c % 256) k) (advance-IsNearlyPlaced (c % 256) k p) in
    record {
      placed = q.placed;
      same_vga = q.same_vga;
      outside = λ a o. q.outside a o ∙ put_byte-Outside k (c % 256) a p o;
    }

-- The line filled with blanks from the position on.
record Blanks (k k' : Console) : Type 0 where
  nearly : IsNearlyPlaced k'
  full : k'.line_adr ≡ k'.next_line_adrs
  same_vga : k'.vga ≡ k.vga
  outside : (a : ℕ) → Outside k.vga a → k'.video a ≡ k.video a

blank_line-Blanks :
    (fuel : ℕ) (k : Console)
    → IsNearlyPlaced k
    → k.next_line_adrs < k.line_adr + 2 * fuel
    → (k' : Console) × (blank_line fuel k ≡ some k') × Blanks k k'
unfolding blank_line
blank_line-Blanks zero k p h = absurd (omega arith)
blank_line-Blanks (suc fuel) k p h = elim (Bool-cases (k.line_adr == k.next_line_adrs)) [
  | inl e ↦ (
    k,
    rw e refl,
    record { nearly = p; full = ==→eq _ _ e; same_vga = refl; outside = λ a o. refl },
  )
  | inr e ↦
      let there : IsPlaced k = ground (arith, e) in
      let (k', run, b) =
        blank_line-Blanks fuel (advance 0x20 k) (advance-IsNearlyPlaced 0x20 k there)
          (omega arith) in
      (
        k',
        rw e run,
        record {
          nearly = b.nearly;
          full = b.full;
          same_vga = b.same_vga;
          outside = λ a o. b.outside a o ∙ put_byte-Outside k 0x20 a there o;
        },
      )
]

-- A run that returns, and keeps the position placed and the memory outside of the lines.
abbrev pub Printed : Console → Option Console → Type 0
Printed k run = (k' : Console) × (run ≡ some k') × Prints k k'

pub new_line-Printed : (k : Console) → IsPlaced k → Printed k (new_line k)
unfolding new_line
new_line-Printed k p =
    let (k1, run, b) = blank_line-Blanks line_fuel k (ground arith) (omega arith) in
    let q = check_if_line_full-Prints k1 b.nearly in
    (
      check_if_line_full k1,
      rw run refl,
      record {
        placed = q.placed;
        same_vga = q.same_vga ∙ b.same_vga;
        outside = λ a o. q.outside a (subst (λ v. Outside v a) (sym b.same_vga) o) ∙ b.outside a o;
      },
    )

pub go_back_lem :
    (fuel : ℕ) (k : Console)
    → IsPlaced k
    → k.line_adr + 160 < k.next_line_adrs + 2 * fuel
    → go_back fuel k ≡ some (record k { line_adr = k.next_line_adrs - 160 })
unfolding go_back
go_back_lem zero k p h = absurd (omega arith)
go_back_lem (suc fuel) k p h = elim (Bool-cases (k.line_adr == k.next_line_adrs - 160)) [
  | inl e ↦ rw e (ap (λ a. some (record k { line_adr = a })) (==→eq _ _ e))
  | inr e ↦ rw e (
      go_back_lem fuel (record k { line_adr = k.line_adr - 2 }) (ground (arith, e))
        (ground (arith, e)))
]

pub go_back-Printed : (k : Console) → IsPlaced k → Printed k (go_back line_fuel k)
go_back-Printed k p = (
  record k { line_adr = k.next_line_adrs - 160 },
  go_back_lem line_fuel k p (omega arith),
  record { placed = omega arith; same_vga = refl; outside = λ a o. refl },
)

pub string_char-Printed : (c : ℕ) (k : Console) → IsPlaced k → Printed k (string_char c k)
unfolding string_char
string_char-Printed c k p = elim (Bool-cases (c == b'\n')) [
  | inl e ↦ rw e (new_line-Printed k p)
  | inr e ↦ rw e (elim (Bool-cases (c == b'\r')) [
    | inl f ↦ rw f (go_back-Printed k p)
    | inr f ↦ rw f (write c k, refl, write-Prints c k p)
  ])
]

pub Printed-bind :
    {k : Console} {run : Option Console} (next : Console → Option Console)
    → Printed k run
    → ((k' : Console) → IsPlaced k' → Printed k' (next k'))
    → Printed k (run >>= next)
Printed-bind next (k1, run, p) follow =
    let (k2, run', q) = follow k1 p.placed in (k2, rw run run', Prints-trans p q)

pub write_string-Printed : (s : List ℕ) (k : Console) → IsPlaced k → Printed k (write_string s k)
unfolding write_string
write_string-Printed [] k p = (k, refl, Prints-refl p)
write_string-Printed (c ∷ s) k p =
    Printed-bind (write_string s) (string_char-Printed c k p) (write_string-Printed s)

-- At the end of the last of the first 24 lines, with at least 24 lines counted, the lines move up by
-- one: each of the upper 23 shows what the one below it showed, the last one is empty, all other
-- memory is as before, and the position goes to the start of the last line.
pub check_if_line_full-scrolls :
    (k : Console)
    → k.line_adr ≡ k.vga + 3840
    → k.next_line_adrs ≡ k.vga + 3840
    → 24 ≤ k.v_line_count
    → ((check_if_line_full k).line_adr ≡ k.vga + 3680)
      × ((check_if_line_full k).next_line_adrs ≡ k.vga + 3840)
      × ((b : ℕ) → b < 3680 → (check_if_line_full k).video (k.vga + b) ≡ k.video (k.vga + b + 160))
      × ((b : ℕ) → 3680 ≤ b → b < 3840 → (check_if_line_full k).video (k.vga + b) ≡ 0)
      × ((a : ℕ) → Outside k.vga a → (check_if_line_full k).video a ≡ k.video a)
unfolding check_if_line_full
check_if_line_full-scrolls k here next count = (
  ground arith,
  ground arith,
  λ b h. ground (arith, scroll_lem k.vga k.video (k.vga + b)),
  λ b l h. ground (arith, scroll_lem k.vga k.video (k.vga + b)),
  λ a o. ground (arith, scroll-Outside k.vga k.video a o),
)
