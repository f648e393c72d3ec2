-- ===== src/Frames/Search.antt =====
-- The two loops of `getFirstFrame` (sys/phyMemMapper.c).
use sbunix_64_bit_operating.Prelude.{
  ℕ, zero, suc, ◌+◌, ◌*◌, ◌/◌, ◌%◌, ◌<◌, ◌≤◌, ◌≡◌, ap, ◌∙◌, inl, inr, Bool, true, false, ◌-◌, List,
  [], ◌∷◌, length, get_or, ◌==◌, none, some, Option-cases, Bool-cases, test_bit, arith,
  zero-test_bit,
}
use native.Mathlib.Decide.{dec_lt}
use sbunix_64_bit_operating.Frames.{first_col, first_row}

-- Bit number `k` of the bitmap.
unfoldable pub bit_at : List ℕ → ℕ → Bool
bit_at ws k = test_bit (get_or ws (k / 64) 0) (k % 64)

-- `k` is the lowest set bit.
pub record IsFirst (ws : List ℕ) (k : ℕ) : Type 0 where
  pub within : k < length ws * 64
  pub holds : bit_at ws k ≡ true
  pub lowest : (j : ℕ) → j < k → bit_at ws j ≡ false

abbrev pub AllClear : List ℕ → Type 0
AllClear ws = (j : ℕ) → j < length ws * 64 → bit_at ws j ≡ false

bit_at-head : (w : ℕ) (ws : List ℕ) (j : ℕ) → j < 64 → bit_at (w ∷ ws) j ≡ test_bit w j
unfolding bit_at
bit_at-head w ws j h =
    let q : j / 64 ≡ 0 = omega arith in let r : j % 64 ≡ j = omega arith in rw (q, r)

bit_at-tail : (w : ℕ) (ws : List ℕ) (j : ℕ) → bit_at (w ∷ ws) (64 + j) ≡ bit_at ws j
unfolding bit_at
bit_at-tail w ws j =
    let q : (64 + j) / 64 ≡ suc (j / 64) = omega arith in
    let r : (64 + j) % 64 ≡ j % 64 = omega arith in rw (q, r)

-- A clear first word, and a fact about the rest.
clear-cons :
    (w : ℕ) (ws : List ℕ) (n : ℕ)
    → ((c : ℕ) → c < 64 → test_bit w c ≡ false)
    → ((j : ℕ) → j < n → bit_at ws j ≡ false)
    → (j : ℕ) → j < 64 + n
    → bit_at (w ∷ ws) j ≡ false
clear-cons w ws n p q j h = elim (dec_lt j 64) [
  | yes l ↦ bit_at-head w ws j l ∙ p j l
  | no l ↦ ap (bit_at (w ∷ ws)) (omega arith) ∙ bit_at-tail w ws (j - 64) ∙ q (j - 64) (omega arith)
]

first_col-some :
    (n c w d : ℕ)
    → first_col n c w ≡ some d
    → (c ≤ d)
      × (d < c + n)
      × (test_bit w d ≡ true)
      × ((e : ℕ) → c ≤ e → e < d → test_bit w e ≡ false)
unfolding first_col
first_col-some zero c w d h = ground arith
first_col-some (suc n) c w d h = elim (Bool-cases (test_bit w c)) [
  | inl t ↦
      let e : c ≡ d = ground arith in
      (omega arith, omega arith, rw (← e) t, λ x l u. absurd (omega arith))
  | inr t ↦
      let r = first_col-some n (c + 1) w d (ground arith) in
      (
        omega (arith, r.0),
        omega (arith, r.1),
        r.2,
        λ x l u. elim (dec_lt c x) [
          | yes q ↦ r.3 x (omega arith) u
          | no q ↦ (let q' : x ≡ c = omega arith in rw q' t)
        ],
      )
]

first_col-none :
    (n c w : ℕ) → first_col n c w ≡ none → (e : ℕ) → c ≤ e → e < c + n → test_bit w e ≡ false
unfolding first_col
first_col-none zero c w h e l u = absurd (omega arith)
first_col-none (suc n) c w h e l u = elim (Bool-cases (test_bit w c)) [
  | inl t ↦ ground arith
  | inr t ↦ elim (dec_lt c e) [
    | yes q ↦ first_col-none n (c + 1) w (ground arith) e (omega arith) (omega arith)
    | no q ↦ (let q' : e ≡ c = omega arith in rw q' t)
  ]
]

-- A clear row is skipped: a result in the rows behind it counts from 64 on.
skip_row :
    (r w : ℕ) (ws : List ℕ) (f : ℕ)
    → ((c : ℕ) → c < 64 → test_bit w c ≡ false)
    → (k : ℕ) × (f ≡ (r + 1) * 64 + k) × IsFirst ws k
    → (k : ℕ) × (f ≡ r * 64 + k) × IsFirst (w ∷ ws) k
skip_row r w ws f p (k, e, v) = (
  64 + k,
  omega arith,
  record {
    within = omega (arith, v.within);
    holds = bit_at-tail w ws k ∙ v.holds;
    lowest = clear-cons w ws k p v.lowest;
  },
)

zero_row : (w : ℕ) → (w == 0) ≡ true → (c : ℕ) → c < 64 → test_bit w c ≡ false
zero_row w e c h = let z : w ≡ 0 = ground arith in rw z (zero-test_bit c)

-- A found frame is the lowest set bit of the rows searched.
pub first_row-some :
    (r : ℕ) (ws : List ℕ) (f : ℕ)
    → first_row r ws ≡ some f
    → (k : ℕ) × (f ≡ r * 64 + k) × IsFirst ws k
unfolding first_row
first_row-some r [] f h = ground arith
first_row-some r (w ∷ ws) f h = elim (Bool-cases (w == 0)) [
  | inl z ↦ skip_row r w ws f (zero_row w z) (first_row-some (r + 1) ws f (ground arith))
  | inr z ↦ elim (Option-cases (first_col 64 0 w)) [
    | inl o ↦
        skip_row r w ws f (λ c. first_col-none 64 0 w o c (omega arith))
          (first_row-some (r + 1) ws f (ground arith))
    | inr (c, o) ↦
        let s = first_col-some 64 0 w c o in
        (
          c,
          ground arith,
          record {
            within = omega (arith, s.1);
            holds = bit_at-head w ws c s.1 ∙ s.2;
            lowest = λ j l. bit_at-head w ws j (omega (arith, s.1)) ∙ s.3 j (omega arith) l;
          },
        )
  ]
]

-- No frame found: every row is clear.
pub first_row-none : (r : ℕ) (ws : List ℕ) → first_row r ws ≡ none → AllClear ws
unfolding first_row
first_row-none r [] h j l = absurd (omega arith)
first_row-none r (w ∷ ws) h j l = elim (Bool-cases (w == 0)) [
  | inl z ↦
      clear-cons w ws _ (zero_row w z) (first_row-none (r + 1) ws (ground arith)) j (omega arith)
  | inr z ↦ elim (Option-cases (first_col 64 0 w)) [
    | inl o ↦
        clear-cons w ws _ (λ c. first_col-none 64 0 w o c (omega arith))
          (first_row-none (r + 1) ws (ground arith)) j (omega arith)
    | inr (c, o) ↦ ground arith
  ]
]
