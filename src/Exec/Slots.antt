-- ===== src/Exec/Slots.antt =====
-- Reading the words that `exec` (sys/task.c) pushes: the last one has the lowest address.
use sbunix_64_bit_operating.Prelude.{
  ℕ, zero, suc, ◌+◌, ◌-◌, ◌*◌, ◌≤◌, ◌<◌, ◌≡◌, refl, sym, ap, ◌∙◌, ◌≢◌, inl, inr, true, false, List,
  [], ◌∷◌, ◌++◌, map, arith, leb, ◌==◌, leb→le, ==→eq, eq→==, Bool-cases, length, get_or,
  length-append,
}
use mathlib.Core.List.{append_assoc, append-nil}
use sbunix_64_bit_operating.Exec.{environment_words}

abbrev pub rev {ℓ} : {A : Type ℓ} → List A → List A
rev [] = []
rev (x ∷ xs) = rev xs ++ x ∷ []

rev-append {ℓ} : {A : Type ℓ} (xs ys : List A) → rev (xs ++ ys) ≡ rev ys ++ rev xs
rev-append [] ys = sym (append-nil (rev ys))
rev-append (x ∷ xs) ys =
    ap (λ r. r ++ x ∷ []) (rev-append xs ys) ∙ append_assoc (rev ys) (rev xs) (x ∷ [])

pub rev-rev {ℓ} : {A : Type ℓ} (xs : List A) → rev (rev xs) ≡ xs
rev-rev [] = refl
rev-rev (x ∷ xs) = rev-append (rev xs) (x ∷ []) ∙ ap (x ∷◌) (rev-rev xs)

map-append {ℓ κ} :
    {A : Type ℓ} {B : Type κ} (f : A → B) (xs ys : List A) → map f (xs ++ ys) ≡ map f xs ++ map f ys
map-append f [] ys = refl
map-append f (x ∷ xs) ys = ap (f x ∷◌) (map-append f xs ys)

pub rev-map {ℓ κ} :
    {A : Type ℓ} {B : Type κ} (f : A → B) (xs : List A) → map f (rev xs) ≡ rev (map f xs)
rev-map f [] = refl
rev-map f (x ∷ xs) = map-append f (rev xs) (x ∷ []) ∙ ap (λ r. r ++ f x ∷ []) (rev-map f xs)

pub get_or-behind :
    (pre : List ℕ) (i : ℕ) (rest : List ℕ)
    → get_or (pre ++ rest) (length pre + i) 0 ≡ get_or rest i 0
get_or-behind [] i rest = ap (λ j. get_or rest j 0) (omega arith)
get_or-behind (x ∷ pre) i rest =
    let e : length (x ∷ pre) + i ≡ suc (length pre + i) = omega arith in
    rw e (get_or-behind pre i rest)

-- The words at the places `s` + `n` - 1 down to `s`.
abbrev pub slots_down : (v : List ℕ) (s n : ℕ) → List ℕ
slots_down v s zero = []
slots_down v s (suc n) = get_or v (s + n) 0 ∷ slots_down v s n

slots_down_last :
    (v : List ℕ) (s n : ℕ) → slots_down v s (suc n) ≡ slots_down v (s + 1) n ++ get_or v s 0 ∷ []
slots_down_last v s zero = ap (λ i. get_or v i 0 ∷ []) (omega arith)
slots_down_last v s (suc n) =
    let e : s + suc n ≡ s + 1 + n = omega arith in
    rw e (ap (get_or v (s + 1 + n) 0 ∷◌) (slots_down_last v s n))

pub slots_down-rev :
    (pre words post v : List ℕ)
    → v ≡ pre ++ (words ++ post)
    → slots_down v (length pre) (length words) ≡ rev words
slots_down-rev pre [] post v e = refl
slots_down-rev pre (w ∷ words) post v e =
    let longer : length pre + 1 ≡ length (pre ++ w ∷ []) = sym (length-append pre (w ∷ [])) in
    let first : get_or v (length pre) 0 ≡ w =
      let place : length pre ≡ length pre + 0 = omega arith in
      ap (λ i. get_or v i 0) place
      ∙ ap (λ u. get_or u (length pre + 0) 0) e
      ∙ get_or-behind pre 0 ((w ∷ words) ++ post) in
    let shift : v ≡ (pre ++ w ∷ []) ++ (words ++ post) =
      e ∙ sym (append_assoc pre (w ∷ []) (words ++ post)) in
    slots_down_last v (length pre) (length words)
    ∙ rw (longer, first) (ap (λ r. r ++ w ∷ []) (slots_down-rev (pre ++ w ∷ []) words post v shift))

pub environment_words-length : (left z i : ℕ) → length (environment_words left z i) ≡ left
unfolding environment_words
environment_words-length zero z i = refl
environment_words-length (suc left) z i = elim (Bool-cases (z == i)) [
  | inl y ↦ rw y (ap suc (environment_words-length left (z - 0x1000) (i - 0x1000)))
  | inr n ↦ rw n (ap suc (environment_words-length left (z - 0x1000) i))
]

leb→gt : (a b : ℕ) → leb a b ≡ false → b < a
leb→gt a b h = ground arith

==→ne : (a b : ℕ) → (a == b) ≡ false → a ≢ b
==→ne a b h = ground arith

-- The pointers to the pages up to number `e`, from `b` on.
pub environment_words-page :
    (left b e j z i : ℕ)
    → z ≡ b + 0x1000 * left
    → i ≡ b + 0x1000 * e
    → e ≤ left
    → j ≤ e
    → get_or (environment_words (suc left) z i) (left - j) 0 ≡ b + 0x1000 * j
unfolding environment_words
environment_words-page zero b e j z i at to h k =
    let y : (z == i) ≡ true = eq→== z i (omega arith) in
    let first : i ≡ b + 0x1000 * j = omega arith in
    let place : 0 - j ≡ 0 = omega arith in rw (y, place) first
environment_words-page (suc left) b e j z i at to h k = elim (Bool-cases (z == i)) [
  | inl y ↦
      let same : z ≡ i = ==→eq z i y in
      let whole : e ≡ suc left = omega (arith, at, to, same) in
      rw y (elim (Bool-cases (leb j left)) [
        | inl below ↦
            let q : j ≤ left = leb→le j left below in
            let place : suc left - j ≡ suc (left - j) = omega (arith, q) in
            rw place (
              environment_words-page left b left j (z - 0x1000) (i - 0x1000) (omega (arith, at))
                (omega (arith, to, whole)) (omega arith) q)
        | inr above ↦
            let q : left < j = leb→gt j left above in
            let place : suc left - j ≡ 0 = omega (arith, q) in
            let first : i ≡ b + 0x1000 * j = omega (arith, to, whole, q, k) in rw place first
      ])
  | inr n ↦
      let apart : e ≤ left = omega (arith, at, to, h, ==→ne z i n) in
      let place : suc left - j ≡ suc (left - j) = omega (arith, k, apart) in
      rw (n, place)
        (environment_words-page left b e j (z - 0x1000) i (omega (arith, at)) to apart k)
]
