-- ===== src/Console/Text.antt =====
-- Text on the screen: what `kprintf("%s", s)` (sys/kprintf.c), as `writeFile` calls it, shows for a text
-- that fits in the rest of the line.
use sbunix_64_bit_operating.Prelude.{
  ℕ, zero, suc, ◌+◌, ◌*◌, ◌%◌, ◌≤◌, ◌<◌, ◌≡◌, refl, ap, ◌∙◌, ◌≢◌, ◌⊎◌, inl, inr, some, List, [],
  ◌∷◌, arith, ne→==, length, get_or,
}
use sbunix_64_bit_operating.Console.{
  Console, str, put_byte, check_if_line_full, write, string_char, write_string, print_s, conversion,
  print_from, kprintf, fill,
}
use sbunix_64_bit_operating.Console.Screen.{fill-cells}
use sbunix_64_bit_operating.Console.Cursor.{IsPlaced}

-- Neither a newline nor a carriage return.
abbrev pub AllPlain : List ℕ → Type 0
AllPlain [] = Unit {0}
AllPlain (c ∷ s) = (c ≢ b'\n') × (c ≢ b'\r') × AllPlain s

-- The text behind the position, the position behind the text, and all other memory as before.
pub record Shows (s : List ℕ) (k k' : Console) : Type 0 where
  pub position : k'.line_adr ≡ k.line_adr + 2 * length s
  pub same_line : (k'.next_line_adrs ≡ k.next_line_adrs) × (k'.v_line_count ≡ k.v_line_count)
  pub cells : (i : ℕ) → i < length s → k'.video (k.line_adr + 2 * i) ≡ get_or s i 0 % 256
  pub others :
      (b : ℕ)
      → ((b < k.line_adr) ⊎ (k.line_adr + 2 * length s ≤ b)) ⊎ ((b + k.line_adr) % 2 ≡ 1)
      → k'.video b ≡ k.video b

write-room :
    (c : ℕ) (k : Console)
    → k.line_adr + 2 < k.next_line_adrs
    → write c k
      ≡ record k { video = put_byte k.line_adr (c % 256) k.video; line_adr = k.line_adr + 2 }
unfolding write check_if_line_full
write-room c k h = rw (ne→== (k.line_adr + 2) k.next_line_adrs (λ e. omega arith)) refl

string_char-room :
    (c : ℕ) (k : Console)
    → c ≢ b'\n'
    → c ≢ b'\r'
    → k.line_adr + 2 < k.next_line_adrs
    → string_char c k
      ≡ some (record k { video = put_byte k.line_adr (c % 256) k.video; line_adr = k.line_adr + 2 })
unfolding string_char
string_char-room c k n r h = rw (ne→== c b'\n' n, ne→== c b'\r' r) (ap some (write-room c k h))

Shows-cons :
    (c : ℕ) (s : List ℕ) (k k' : Console)
    → Shows s
        (record k { video = put_byte k.line_adr (c % 256) k.video; line_adr = k.line_adr + 2 })
        k'
    → Shows (c ∷ s) k k'
Shows-cons c s k k' h = record {
  position = omega (arith, h.position);
  same_line = h.same_line;
  cells = cell;
  others = other;
}
  where
    cell : (i : ℕ) → i < length (c ∷ s) → k'.video (k.line_adr + 2 * i) ≡ get_or (c ∷ s) i 0 % 256
    cell zero l = h.others (k.line_adr + 0) (inl (inl (omega arith))) ∙ ground arith
    cell (suc i) l =
        let e : k.line_adr + 2 * suc i ≡ k.line_adr + 2 + 2 * i = omega arith in
        rw e (h.cells i (omega arith))

    other :
        (b : ℕ)
        → ((b < k.line_adr) ⊎ (k.line_adr + 2 * length (c ∷ s) ≤ b)) ⊎ ((b + k.line_adr) % 2 ≡ 1)
        → k'.video b ≡ k.video b
    other b (inl (inl l)) = h.others b (inl (inl (omega arith))) ∙ ground arith
    other b (inl (inr l)) = h.others b (inl (inr (omega arith))) ∙ ground arith
    other b (inr odd) = h.others b (inr (omega arith)) ∙ ground arith

pub write_string-Shows :
    (s : List ℕ) (k : Console)
    → AllPlain s
    → k.line_adr + 2 * length s < k.next_line_adrs
    → (k' : Console) × (write_string s k ≡ some k') × Shows s k k'
unfolding write_string
write_string-Shows [] k p h = (
  k,
  refl,
  record {
    position = omega arith;
    same_line = (refl, refl);
    cells = λ i l. absurd (omega arith);
    others = λ b o. refl;
  },
)
write_string-Shows (c ∷ s) k p h =
    let k1 : Console = record k {
      video = put_byte k.line_adr (c % 256) k.video;
      line_adr = k.line_adr + 2;
    } in
    let (k', run, shows) = write_string-Shows s k1 p.2 (omega arith) in
    (k', rw (string_char-room c k p.0 p.1 (omega arith)) run, Shows-cons c s k k' shows)

-- For a text without line ends that fits in the rest of the line, `kprintf("%s", s)` returns: the cells
-- from the position on show the text, the position lies behind it on the same line, and the characters
-- of all other cells are as before.
pub kprintf-Shows :
    (s : List ℕ) (k : Console)
    → IsPlaced k
    → AllPlain s
    → k.line_adr + 2 * length s < k.next_line_adrs
    → (k' : Console) × (kprintf (b'%' ∷ b's' ∷ []) (str s ∷ []) k ≡ some k')
      × (k'.line_adr ≡ k.line_adr + 2 * length s)
      × (k'.next_line_adrs ≡ k.next_line_adrs)
      × ((i : ℕ) → i < length s → k'.video (k.line_adr + 2 * i) ≡ get_or s i 0 % 256)
      × ((b : ℕ)
          → (b < k.line_adr) ⊎ (k.line_adr + 2 * length s ≤ b)
          → (b + k.vga) % 2 ≡ 0
          → k'.video b ≡ k.video b)
unfolding kprintf print_from conversion print_s
kprintf-Shows s k p a h =
    let k0 : Console = record k { video = fill 1920 2 (k.vga + 1) 7 k.video } in
    let (k', run, shows) = write_string-Shows s k0 a h in
    (
      k',
      rw run refl,
      shows.position,
      shows.same_line.0,
      shows.cells,
      λ b o even. shows.others b (inl o) ∙ ground (arith, fill-cells 1920 (k.vga + 1) 7 k.video b),
    )
