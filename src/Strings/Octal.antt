-- ===== src/Strings/Octal.antt =====
-- `toInteger` (sys/tarfs.c) on the octal numbers of a tar header.
use sbunix_64_bit_operating.Prelude.{
  ℕ, zero, suc, ◌+◌, ◌-◌, ◌*◌, ◌/◌, ◌%◌, ◌^◌, ◌<◌, ◌≡◌, refl, ◌∙◌, List, [], ◌∷◌, ◌++◌, arith,
}
use native.Mathlib.Nat.{pow-succ'}
use sbunix_64_bit_operating.Strings.{to_integer, to_integer_from, int_mod, to_int}

-- A number in `k` octal digits.
abbrev pub to_octal : (k n : ℕ) → List ℕ
to_octal zero n = []
to_octal (suc k) n = to_octal k (n / 8) ++ (48 + n % 8) ∷ []

to_integer_from-append :
    (c : ℕ) (s : List ℕ) (num : ℕ)
    → to_integer_from num (s ++ c ∷ [])
      ≡ (to_integer_from num s * 8 + to_int c + int_mod - 48) % int_mod
unfolding to_integer_from
to_integer_from-append c [] num = refl
to_integer_from-append c (d ∷ s) num = to_integer_from-append c s _

-- The digits of a number that fits into them and into 32 bits are read as that number.
pub to_integer-to_octal : (k n : ℕ) → n < 8 ^ k → n < int_mod → to_integer (to_octal k n) ≡ n
unfolding to_integer
to_integer-to_octal zero n h l = unfold to_integer_from in omega arith
to_integer-to_octal (suc k) n h l =
    let fits : n / 8 < 8 ^ k = omega (arith, h, pow-succ' 8 k) in
    let before = to_integer-to_octal k (n / 8) fits (omega (arith, l)) in
    to_integer_from-append (48 + n % 8) (to_octal k (n / 8)) 0 ∙ rw before (ground (arith, l))
