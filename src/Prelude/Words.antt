-- ===== src/Prelude/Words.antt =====
-- Single bits of a machine word. `test_bit w c` is `w & (1 << c)` as a truth value, `set_bit w c` is
-- `w | (1 << c)` and `clear_bit w c` is `w & ~(1 << c)`, each by recursion on the shift.
use Prim.Native.Nat.{ℕ, zero, suc, ◌+◌, ◌*◌, ◌/◌, ◌%◌, ◌^◌, ◌≤◌, ◌<◌}
use mathlib.Core.Path.{◌≡◌, refl, ap, sym, ◌∙◌}
use mathlib.Core.Logic.{◌≢◌}
use mathlib.Core.Bool.{Bool, true, false}
use native.Mathlib.Omega.{arith}
use native.Mathlib.Nat.{pow-suc, pow-succ', div-div-eq-div-mul}
use sbunix_64_bit_operating.Prelude.Tests.{◌==◌}

unfoldable pub test_bit : ℕ → ℕ → Bool
test_bit w zero = w % 2 == 1
test_bit w (suc c) = test_bit (w / 2) c

unfoldable pub set_bit : ℕ → ℕ → ℕ
set_bit w zero = w / 2 * 2 + 1
set_bit w (suc c) = set_bit (w / 2) c * 2 + w % 2

unfoldable pub clear_bit : ℕ → ℕ → ℕ
clear_bit w zero = w / 2 * 2
clear_bit w (suc c) = clear_bit (w / 2) c * 2 + w % 2

div_two_of_double : (a r : ℕ) → r < 2 → (a * 2 + r) / 2 ≡ a
div_two_of_double a r h = omega arith

pub test_bit-set_self : (w c : ℕ) → test_bit (set_bit w c) c ≡ true
unfolding test_bit set_bit
test_bit-set_self w zero = ground arith
test_bit-set_self w (suc c) =
    ap (λ v. test_bit v c) (div_two_of_double (set_bit (w / 2) c) (w % 2) (omega arith))
    ∙ test_bit-set_self (w / 2) c

pub test_bit-set_ne : (w c d : ℕ) → c ≢ d → test_bit (set_bit w c) d ≡ test_bit w d
unfolding test_bit set_bit
test_bit-set_ne w zero zero h = absurd (h refl)
test_bit-set_ne w zero (suc d) h = ap (λ v. test_bit v d) (omega arith)
test_bit-set_ne w (suc c) zero h = ap (λ v. v == 1) (omega arith)
test_bit-set_ne w (suc c) (suc d) h =
    ap (λ v. test_bit v d) (div_two_of_double (set_bit (w / 2) c) (w % 2) (omega arith))
    ∙ test_bit-set_ne (w / 2) c d (λ e. h (ap suc e))

pub test_bit-clear_self : (w c : ℕ) → test_bit (clear_bit w c) c ≡ false
unfolding test_bit clear_bit
test_bit-clear_self w zero = ground arith
test_bit-clear_self w (suc c) =
    ap (λ v. test_bit v c) (div_two_of_double (clear_bit (w / 2) c) (w % 2) (omega arith))
    ∙ test_bit-clear_self (w / 2) c

pub test_bit-clear_ne : (w c d : ℕ) → c ≢ d → test_bit (clear_bit w c) d ≡ test_bit w d
unfolding test_bit clear_bit
test_bit-clear_ne w zero zero h = absurd (h refl)
test_bit-clear_ne w zero (suc d) h = ap (λ v. test_bit v d) (omega arith)
test_bit-clear_ne w (suc c) zero h = ap (λ v. v == 1) (omega arith)
test_bit-clear_ne w (suc c) (suc d) h =
    ap (λ v. test_bit v d) (div_two_of_double (clear_bit (w / 2) c) (w % 2) (omega arith))
    ∙ test_bit-clear_ne (w / 2) c d (λ e. h (ap suc e))

-- The recursion is the arithmetic reading of `w & (1 << c)`.
pub test_bit-eq-shift : (w c : ℕ) → test_bit w c ≡ ((w / 2 ^ c) % 2 == 1)
unfolding test_bit
test_bit-eq-shift w zero = ap (λ v. v % 2 == 1) (omega arith)
test_bit-eq-shift w (suc c) =
    test_bit-eq-shift (w / 2) c
    ∙ ap (λ v. v % 2 == 1) (div-div-eq-div-mul w 2 (2 ^ c) ∙ ap (λ k. w / k) (sym (pow-succ' 2 c)))

-- A word with no bit below its width is 0.
pub no_bit→zero : (n w : ℕ) → w < 2 ^ n → ((c : ℕ) → c < n → test_bit w c ≡ false) → w ≡ 0
unfolding test_bit
no_bit→zero zero w h p = omega arith
no_bit→zero (suc n) w h p = ground (
  arith,
  pow-suc 2 n,
  p 0 (omega arith),
  no_bit→zero n (w / 2) (omega (arith, pow-suc 2 n)) (λ c l. p (suc c) (omega arith)),
)

pub zero-test_bit : (c : ℕ) → test_bit 0 c ≡ false
unfolding test_bit
zero-test_bit zero = refl
zero-test_bit (suc c) = zero-test_bit c

pub set_bit-lt : (n w c : ℕ) → c < n → w < 2 ^ n → set_bit w c < 2 ^ n
unfolding set_bit
set_bit-lt zero w c h p = elim h [ ]
set_bit-lt (suc n) w zero h p = omega (arith, pow-suc 2 n)
set_bit-lt (suc n) w (suc c) h p =
    omega (arith, pow-suc 2 n, set_bit-lt n (w / 2) c (omega arith) (omega (arith, pow-suc 2 n)))

pub clear_bit-le : (w c : ℕ) → clear_bit w c ≤ w
unfolding clear_bit
clear_bit-le w zero = omega arith
clear_bit-le w (suc c) = omega (arith, clear_bit-le (w / 2) c)
