-- ===== src/Console/Digits.antt =====
-- The conversions of numbers (sys/kprintf.c) against the numerals of the base.
use sbunix_64_bit_operating.Prelude.{
  ℕ, zero, suc, ◌+◌, ◌*◌, ◌/◌, ◌%◌, ◌^◌, ◌≤◌, ◌<◌, ◌≡◌, refl, ap, ◌∙◌, ◌⊎◌, inl, inr, Option, some,
  List, [], ◌∷◌, arith, leb, lt→ltb, leb→le, Bool-cases,
}
use native.Mathlib.Nat.{
  pow-zero, pow-suc, one-le-pow, div-lt_iff_lt-mul, le-div_iff_mul-le, mul-div_cancel, div-add-mod',
  mod-lt, div-one, div-eq_of_lt,
}
use sbunix_64_bit_operating.Console.{
  Console, write, glyph, dig_count, write_digits, write_number, number_fuel,
}

-- The number that the digits spell behind `n`.
abbrev pub value : (base n : ℕ) → List ℕ → ℕ
value base n [] = n
value base n (d ∷ ds) = value base (n * base + d) ds

abbrev pub AllBelow : ℕ → List ℕ → Type 0
AllBelow base [] = Unit {0}
AllBelow base (d ∷ ds) = (d < base) × AllBelow base ds

-- No zero in front of other digits.
abbrev pub NoLeadingZero : List ℕ → Type 0
NoLeadingZero [] = ⊥
NoLeadingZero (d ∷ []) = Unit {0}
NoLeadingZero (d ∷ e ∷ ds) = 0 < d

-- The digits spell the number in the base, with no zero in front.
pub record IsNumeral (base x : ℕ) (ds : List ℕ) : Type 0 where
  pub spells : value base 0 ds ≡ x
  pub below : AllBelow base ds
  pub leading : NoLeadingZero ds

unfoldable pub write_all : List ℕ → Console → Console
write_all [] k = k
write_all (d ∷ ds) k = write_all ds (write (glyph d) k)

numerals : (base k y : ℕ) → List ℕ
numerals base zero y = y ∷ []
numerals base (suc k) y = (y / base ^ suc k) ∷ numerals base k (y % base ^ suc k)

module _ (base : ℕ) (h : 2 ≤ base) where
  weight_pos : (k : ℕ) → 0 < base ^ k
  weight_pos k = omega (arith, one-le-pow k base (omega arith))

  value-numerals : (k n y : ℕ) → value base n (numerals base k y) ≡ n * base ^ suc k + y
  unfolding numerals
  value-numerals zero n y = rw (pow-suc base 0, pow-zero base) (grind arith)
  value-numerals (suc k) n y =
      value-numerals k (n * base + y / base ^ suc k) (y % base ^ suc k)
      ∙ grind (arith, div-add-mod' y (base ^ suc k), pow-suc base (suc k))

  AllBelow-numerals : (k y : ℕ) → y < base ^ suc k → AllBelow base (numerals base k y)
  unfolding numerals
  AllBelow-numerals zero y l =
      let e : base ^ 1 ≡ base = rw (pow-suc base 0, pow-zero base) (omega arith) in
      (omega (arith, e, l), tt)
  AllBelow-numerals (suc k) y l = (
    (div-lt_iff_lt-mul (weight_pos (suc k))).1 (grind (arith, pow-suc base (suc k))),
    AllBelow-numerals k (y % base ^ suc k) (mod-lt y (weight_pos (suc k))),
  )

  -- The weight found is the largest power of the base that is not above the number.
  abbrev Weighs : ℕ → ℕ → ℕ → Option ℕ → Type 0
  Weighs g x w found =
      (k : ℕ) × (found ≡ some (w * base ^ k))
      × (x < base ^ suc k)
      × ((k ≡ 0) ⊎ (base ^ k ≤ x))
      × (k ≤ g)

  Weighs-next :
      (g x w : ℕ) {found : Option ℕ}
      → base ≤ x
      → Weighs g (x / base) (w * base) found
      → Weighs (suc g) x w found
  Weighs-next g x w {found} big (k, run, fits, least, few) =
      let e : w * base * base ^ k ≡ w * base ^ suc k = grind (arith, pow-suc base k) in
      let fits' : x < base ^ suc k * base =
        (div-lt_iff_lt-mul {k = base} {x = x} (omega arith)).0 fits in
      let least' : base ^ suc k ≤ x = least_case least in
      (suc k, run ∙ ap some e, omega (arith, fits', pow-suc base (suc k)), inr least', omega arith)
    where
      least_case : ((k ≡ 0) ⊎ (base ^ k ≤ x / base)) → base ^ suc k ≤ x
      least_case (inl z) = rw (z, pow-suc base 0, pow-zero base) (omega arith)
      least_case (inr b) =
          let b' : base ^ k * base ≤ x = (le-div_iff_mul-le {k = base} {y = x} (omega arith)).0 b in
          omega (arith, b', pow-suc base k)

  dig_count_lem :
      (fuel g x w : ℕ) → x < base ^ suc g → g < fuel → Weighs g x w (dig_count fuel base x w)
  unfolding dig_count
  dig_count_lem zero g x w l f = absurd (omega arith)
  dig_count_lem (suc fuel) g x w l f = elim (Bool-cases (leb base x)) [
    | inr small ↦
        let e : base ^ 1 ≡ base = rw (pow-suc base 0, pow-zero base) (omega arith) in
        let one : base ^ 0 ≡ 1 = pow-zero base in
        (
          0,
          rw small (rw one (ap some (omega arith))),
          ground (arith, e, small),
          inl refl,
          omega arith,
        )
    | inl big ↦
        rw big
          (another g l f (leb→le base x big) (λ g'. dig_count_lem fuel g' (x / base) (w * base)))
  ]
    where
      another :
          (g : ℕ)
          → x < base ^ suc g
          → g < suc fuel
          → base ≤ x
          → ((g' : ℕ)
              → x / base < base ^ suc g'
              → g' < fuel
              → Weighs g' (x / base) (w * base) (dig_count fuel base (x / base) (w * base)))
          → Weighs g x w (dig_count fuel base (x / base) (w * base))
      another zero l f big ih =
          let e : base ^ 1 ≡ base = rw (pow-suc base 0, pow-zero base) (omega arith) in
          absurd (omega (arith, e, l, big))
      another (suc g) l f big ih =
          let l0 : x < base ^ suc g * base = omega (arith, l, pow-suc base (suc g)) in
          let l' : x / base < base ^ suc g =
            (div-lt_iff_lt-mul {k = base} {x = x} (omega arith)).1 l0 in
          Weighs-next g x w big (ih g l' (omega arith))

  write_digits_lem :
      (k fuel y : ℕ) (c : Console)
      → k + 1 < fuel
      → write_digits fuel base y (base ^ k) c ≡ some (write_all (numerals base k y) c)
  unfolding write_digits numerals write_all
  write_digits_lem k zero y c f = absurd (omega arith)
  write_digits_lem k (suc zero) y c f = absurd (omega arith)
  write_digits_lem zero (suc (suc fuel)) y c f =
      let none_left : 1 / base ≡ 0 = div-eq_of_lt (omega arith) in
      rw (pow-zero base, none_left, div-one y) refl
  write_digits_lem (suc k) (suc (suc fuel)) y c f =
      let e : base ^ suc k / base ≡ base ^ k =
        rw (pow-suc base k) (mul-div_cancel (base ^ k) (omega arith)) in
      rw (lt→ltb 0 (base ^ suc k) (weight_pos (suc k)), e)
        (write_digits_lem k (suc fuel) (y % base ^ suc k) (write (glyph (y / base ^ suc k)) c)
          (omega arith))

  NoLeadingZero-numerals :
      (k x : ℕ) → ((k ≡ 0) ⊎ (base ^ k ≤ x)) → NoLeadingZero (numerals base k x)
  unfolding numerals
  NoLeadingZero-numerals zero x _ = tt
  NoLeadingZero-numerals (suc zero) x (inl z) = absurd (omega arith)
  NoLeadingZero-numerals (suc (suc k)) x (inl z) = absurd (omega arith)
  NoLeadingZero-numerals (suc zero) x (inr b) = (le-div_iff_mul-le (weight_pos 1)).1 (omega arith)
  NoLeadingZero-numerals (suc (suc k)) x (inr b) =
      (le-div_iff_mul-le (weight_pos (suc (suc k)))).1 (omega arith)

  -- The number's numeral is written, for a number that the fuel covers.
  pub write_number-IsNumeral :
      (x : ℕ) (c : Console)
      → x < base ^ 20
      → (ds : List ℕ) × (write_number base x c ≡ some (write_all ds c)) × IsNumeral base x ds
  unfolding write_number
  write_number-IsNumeral x c l =
      let (k, run, fits, least, few) = dig_count_lem number_fuel 19 x 1 l (omega arith) in
      let weight : 1 * base ^ k ≡ base ^ k = omega arith in
      (
        numerals base k x,
        rw (run, weight) (write_digits_lem k number_fuel x c (omega arith)),
        record {
          spells = value-numerals k 0 x ∙ omega arith;
          below = AllBelow-numerals k x fits;
          leading = NoLeadingZero-numerals k x least;
        },
      )
