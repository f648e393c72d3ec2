-- ===== src/Console/Print.antt =====
-- `kprintf` (sys/kprintf.c) as a whole: it returns, and it stays on the screen's lines.
use sbunix_64_bit_operating.Prelude.{
  ℕ, ◌+◌, ◌%◌, ◌^◌, ◌≤◌, ◌<◌, ◌≡◌, refl, ◌∙◌, ◌≢◌, inl, inr, Option, none, some, List, [], ◌∷◌,
  arith, ltb, ◌==◌, ltb→lt, lt→ltb, ne→==, Bool-cases, ◌>>=◌,
}
use sbunix_64_bit_operating.Console.{
  Console, Arg, int, long, chr, str, ptr, write, plain, write_number, write_int, hex_prefix,
  print_d, print_ld, print_c, print_s, print_x, print_p, conversion, print_from, kprintf, fill,
}
use sbunix_64_bit_operating.Console.Screen.{fill-cells}
use sbunix_64_bit_operating.Console.Cursor.{
  IsPlaced, Outside, Prints, Prints-refl, Prints-trans, Printed, Printed-bind, write-Prints,
  new_line-Printed, go_back-Printed, write_string-Printed,
}
use sbunix_64_bit_operating.Console.Digits.{IsNumeral, write_all, write_number-IsNumeral}

-- A format without a backspace, with the arguments that its conversions take.
pub data IsFormat : List ℕ → List Arg → Type 0 where
  end : (args : List Arg) → IsFormat [] args
  text :
      {c : ℕ} {rest : List ℕ} {args : List Arg}
      → c ≢ b'%'
      → c ≢ 8
      → IsFormat rest args
      → IsFormat (c ∷ rest) args
  percent :
      {rest : List ℕ} {args : List Arg} → IsFormat rest args → IsFormat (b'%' ∷ b'%' ∷ rest) args
  decimal :
      {x : ℕ} {rest : List ℕ} {args : List Arg}
      → x < 2 ^ 32
      → IsFormat rest args
      → IsFormat (b'%' ∷ b'd' ∷ rest) (int x ∷ args)
  long_decimal :
      {x : ℕ} {rest : List ℕ} {args : List Arg}
      → x < 2 ^ 64
      → IsFormat (b'd' ∷ rest) args
      → IsFormat (b'%' ∷ b'l' ∷ b'd' ∷ rest) (long x ∷ args)
  character :
      {c : ℕ} {rest : List ℕ} {args : List Arg}
      → IsFormat rest args
      → IsFormat (b'%' ∷ b'c' ∷ rest) (chr c ∷ args)
  string :
      {s rest : List ℕ} {args : List Arg}
      → IsFormat rest args
      → IsFormat (b'%' ∷ b's' ∷ rest) (str s ∷ args)
  hexadecimal :
      {x : ℕ} {rest : List ℕ} {args : List Arg}
      → x < 2 ^ 32
      → IsFormat rest args
      → IsFormat (b'%' ∷ b'x' ∷ rest) (int x ∷ args)
  pointer :
      {x : ℕ} {rest : List ℕ} {args : List Arg}
      → x < 2 ^ 64
      → IsFormat rest args
      → IsFormat (b'%' ∷ b'p' ∷ rest) (ptr x ∷ args)

write_all-Prints : (ds : List ℕ) (k : Console) → IsPlaced k → Prints k (write_all ds k)
unfolding write_all
write_all-Prints [] k p = Prints-refl p
write_all-Prints (d ∷ ds) k p =
    let q = write-Prints _ k p in Prints-trans q (write_all-Prints ds _ q.placed)

write_number-Printed :
    (base x : ℕ) (k : Console)
    → 2 ≤ base
    → x < base ^ 20
    → IsPlaced k
    → Printed k (write_number base x k)
write_number-Printed base x k b h p =
    let (ds, run, _) = write_number-IsNumeral base b x k h in
    (write_all ds k, run, write_all-Prints ds k p)

write_int-Printed :
    (base x : ℕ) (k : Console)
    → 2 ≤ base
    → 2 ^ 31 ≤ base ^ 20
    → IsPlaced k
    → Printed k (write_int base x k)
unfolding write_int
write_int-Printed base x k b h p = elim (Bool-cases (ltb x (2 ^ 31))) [
  | inl e ↦
      let small : x < base ^ 20 = omega (arith, h, ltb→lt x (2 ^ 31) e) in
      rw e (write_number-Printed base x k b small p)
  | inr e ↦ rw e (write (x + b'0') k, refl, write-Prints (x + b'0') k p)
]

hex_prefix-Prints : (k : Console) → IsPlaced k → Prints k (hex_prefix k)
unfolding hex_prefix
hex_prefix-Prints k p =
    let q = write-Prints b'0' k p in Prints-trans q (write-Prints b'x' _ q.placed)

-- A run that prints and leaves the arguments `args`.
abbrev Converted : List Arg → Console → Option (List Arg × Console) → Type 0
Converted args k run = (k' : Console) × (run ≡ some (args, k')) × Prints k k'

Printed-Converted :
    {k : Console} {run : Option Console} (args : List Arg)
    → Printed k run
    → Converted args k (run >>= λ k1. some (args, k1))
Printed-Converted args (k1, run, p) = (k1, rw run refl, p)

Converted-Printed :
    {k : Console} {run : Option (List Arg × Console)} (rest : List ℕ) (args : List Arg)
    → Converted args k run
    → ((k' : Console) → IsPlaced k' → Printed k' (print_from rest args k'))
    → Printed k (run >>= λ r. print_from rest r.0 r.1)
Converted-Printed rest args (k1, run, p) follow =
    let (k2, run', q) = follow k1 p.placed in (k2, rw run run', Prints-trans p q)

from_prefix :
    {k : Console} {run : Option Console} → IsPlaced k → Printed (hex_prefix k) run → Printed k run
from_prefix {k} p (k1, run, q) = (k1, run, Prints-trans (hex_prefix-Prints k p) q)

plain-Printed : (c : ℕ) (k : Console) → c ≢ 8 → IsPlaced k → Printed k (plain c k)
unfolding plain
plain-Printed c k h p = elim (Bool-cases (c == b'\n')) [
  | inl e ↦ rw e (new_line-Printed k p)
  | inr e ↦ rw e (elim (Bool-cases (c == b'\r')) [
    | inl f ↦ rw f (go_back-Printed k p)
    | inr f ↦ rw (f, ne→== c 8 h) (write c k, refl, write-Prints c k p)
  ])
]

print_from-plain :
    (c : ℕ) (rest : List ℕ) (args : List Arg) (k : Console)
    → c ≢ b'%'
    → print_from (c ∷ rest) args k ≡ (plain c k >>= print_from rest args)
unfolding print_from
print_from-plain c [] args k h = rw (ne→== c b'%' h) (bind_some (plain c k))
  where
    bind_some : (o : Option Console) → o ≡ (o >>= print_from [] args)
    bind_some none = refl
    bind_some (some k1) = refl
print_from-plain c (d ∷ rest) args k h = rw (ne→== c b'%' h) refl

print_c-Converted :
    (c : ℕ) (args : List Arg) (k : Console)
    → IsPlaced k
    → Converted args k (print_c (chr c ∷ args) k)
unfolding print_c
print_c-Converted c args k p = elim (Bool-cases (c % 256 == b'\n')) [
  | inl e ↦ rw e (Printed-Converted args (new_line-Printed k p))
  | inr e ↦ rw e (Printed-Converted args (write c k, refl, write-Prints c k p))
]

print_from-Printed :
    (fmt : List ℕ) (args : List Arg) (k : Console)
    → IsFormat fmt args
    → IsPlaced k
    → Printed k (print_from fmt args k)
unfolding print_from conversion print_d print_ld print_s print_x print_p
print_from-Printed fmt args k (end args') p = (k, refl, Prints-refl p)
print_from-Printed fmt args k (text {c} {rest} h b f) p = rw (print_from-plain c rest args k h) (
    Printed-bind (print_from rest args) (plain-Printed c k b p)
      (λ k1 q. print_from-Printed rest args k1 f q))
print_from-Printed fmt args k (percent {rest} f) p =
    Converted-Printed rest args (write b'%' k, refl, write-Prints b'%' k p)
      (λ k1 q. print_from-Printed rest args k1 f q)
print_from-Printed fmt args k (decimal {x} {rest} {args = args'} h f) p =
    Converted-Printed rest args'
      (Printed-Converted args' (write_int-Printed 10 x k (omega arith) (omega arith) p))
      (λ k1 q. print_from-Printed rest args' k1 f q)
print_from-Printed fmt args k (long_decimal {x} {rest} {args = args'} h f) p =
    Converted-Printed (b'd' ∷ rest) args'
      (Printed-Converted args' (write_number-Printed 10 x k (omega arith) (omega arith) p))
      (λ k1 q. print_from-Printed (b'd' ∷ rest) args' k1 f q)
print_from-Printed fmt args k (character {c} {rest} {args = args'} f) p =
    Converted-Printed rest args' (print_c-Converted c args' k p)
      (λ k1 q. print_from-Printed rest args' k1 f q)
print_from-Printed fmt args k (string {s} {rest} {args = args'} f) p =
    Converted-Printed rest args' (Printed-Converted args' (write_string-Printed s k p))
      (λ k1 q. print_from-Printed rest args' k1 f q)
print_from-Printed fmt args k (hexadecimal {x} {rest} {args = args'} h f) p =
    let placed = (hex_prefix-Prints k p).placed in
    Converted-Printed rest args'
      (Printed-Converted args'
        (from_prefix p (write_int-Printed 16 x (hex_prefix k) (omega arith) (omega arith) placed)))
      (λ k1 q. print_from-Printed rest args' k1 f q)
print_from-Printed fmt args k (pointer {x} {rest} {args = args'} h f) p =
    let placed = (hex_prefix-Prints k p).placed in
    Converted-Printed rest args'
      (Printed-Converted args' (
        from_prefix p
          (write_number-Printed 16 x (hex_prefix k) (omega arith) (omega arith) placed)))
      (λ k1 q. print_from-Printed rest args' k1 f q)

-- With the position on one of the first 24 lines, `kprintf` of a format without a backspace and with
-- its arguments returns, leaves the position on one of these lines, and writes nowhere else.
pub kprintf-Printed :
    (fmt : List ℕ) (args : List Arg) (k : Console)
    → IsFormat fmt args
    → IsPlaced k
    → Printed k (kprintf fmt args k)
unfolding kprintf
kprintf-Printed fmt args k f p =
    let k0 : Console = record k { video = fill 1920 2 (k.vga + 1) 7 k.video } in
    let p0 : IsPlaced k0 = ground arith in
    let (k1, run, q) = print_from-Printed fmt args k0 f p0 in
    (
      k1,
      run,
      record {
        placed = q.placed;
        same_vga = q.same_vga;
        outside = λ a o. q.outside a o ∙ colours k a o;
      },
    )
  where
    colours :
        (k : Console) (a : ℕ) → Outside k.vga a → fill 1920 2 (k.vga + 1) 7 k.video a ≡ k.video a
    colours k a (inl h) = ground (arith, fill-cells 1920 (k.vga + 1) 7 k.video a)
    colours k a (inr h) = ground (arith, fill-cells 1920 (k.vga + 1) 7 k.video a)

-- The run leaves the arguments `args` and has written the numeral of `x` in the base.
abbrev pub Spelled : (base x : ℕ) → List Arg → Console → Option (List Arg × Console) → Type 0
Spelled base x args k run =
    (ds : List ℕ) × (run ≡ some (args, write_all ds k)) × IsNumeral base x ds

write_number-Spelled :
    (base x : ℕ) (args : List Arg) (k : Console)
    → 2 ≤ base
    → x < base ^ 20
    → Spelled base x args k (write_number base x k >>= λ k1. some (args, k1))
write_number-Spelled base x args k b h =
    let (ds, run, spelled) = write_number-IsNumeral base b x k h in (ds, rw run refl, spelled)

-- `%d` and `%x` of an int that is not negative, and `%ld` and `%p` of any 64-bit number, take their
-- argument and write the digits of the number in base 10 and 16, without leading zeros; `%x` and `%p`
-- write "0x" before.
pub conversion-Spelled :
    (x y following : ℕ) (args : List Arg) (k : Console)
    → x < 2 ^ 31
    → y < 2 ^ 64
    → Spelled 10 x args k (conversion b'd' following (int x ∷ args) k)
      × Spelled 10 y args k (conversion b'l' b'd' (long y ∷ args) k)
      × Spelled 16 x args (write b'x' (write b'0' k)) (conversion b'x' following (int x ∷ args) k)
      × Spelled 16 y args (write b'x' (write b'0' k)) (conversion b'p' following (ptr y ∷ args) k)
unfolding conversion print_d print_ld print_x print_p write_int hex_prefix
conversion-Spelled x y following args k hx hy = (
  rw (lt→ltb x (2 ^ 31) hx) (write_number-Spelled 10 x args k (omega arith) (omega arith)),
  write_number-Spelled 10 y args k (omega arith) (omega arith),
  rw (lt→ltb x (2 ^ 31) hx) (write_number-Spelled 16 x args _ (omega arith) (omega arith)),
  write_number-Spelled 16 y args _ (omega arith) (omega arith),
)
