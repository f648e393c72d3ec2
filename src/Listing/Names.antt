-- ===== src/Listing/Names.antt =====
-- The functions of sys/tarfs.c that cut the name of an entry for readDir.
use sbunix_64_bit_operating.Prelude.{
  ℕ, zero, suc, ◌≤◌, ◌<◌, ◌≡◌, refl, ap, inl, inr, true, false, some, List, [], ◌∷◌, ◌++◌, arith,
  ltb, ◌==◌, if◌then◌else◌, lt→ltb, eq→==, ne→==, Bool-cases, length,
}
use sbunix_64_bit_operating.Strings.Compare.{AllChars}
use sbunix_64_bit_operating.Listing.{get_first_directory, get_sub_directory, string_in, name_in}

-- The name up to its first slash, with the slash.
abbrev pub child_name : List ℕ → List ℕ
child_name [] = []
child_name (c ∷ s) = if c == b'/' then b'/' ∷ [] else c ∷ child_name s

pub child_name-length : (s : List ℕ) → length (child_name s) ≤ length s
child_name-length [] = omega arith
child_name-length (c ∷ s) = elim (Bool-cases (c == b'/')) [
  | inl y ↦ rw y (omega arith)
  | inr n ↦ rw n (omega (arith, child_name-length s))
]

pub child_name-AllChars : (s : List ℕ) → AllChars s → AllChars (child_name s)
child_name-AllChars [] a = tt
child_name-AllChars (c ∷ s) (low, high, a) = elim (Bool-cases (c == b'/')) [
  | inl y ↦ rw y (omega arith)
  | inr n ↦ rw n (low, high, child_name-AllChars s a)
]

get_first_directory-child_name :
    (count : ℕ) (s : List ℕ)
    → length s < count
    → AllChars s
    → get_first_directory (suc count) s ≡ child_name s ++ 0 ∷ []
unfolding get_first_directory
get_first_directory-child_name zero s h a = absurd (omega arith)
get_first_directory-child_name (suc count) [] h a = refl
get_first_directory-child_name (suc count) (c ∷ s) h (low, high, a) =
    elim (Bool-cases (c == b'/')) [
      | inl y ↦ let left : (suc count == 0) ≡ false = ground arith in rw (y, left) refl
      | inr n ↦ rw n (ap (c ∷◌) (get_first_directory-child_name count s (omega arith) a))
    ]

pub string_in-end : (s : List ℕ) → AllChars s → string_in (s ++ 0 ∷ []) ≡ some s
unfolding string_in
string_in-end [] a = refl
string_in-end (c ∷ s) (low, high, a) = rw (ne→== c 0 (omega arith), string_in-end s a) refl

pub name_in-child_name :
    (s : List ℕ)
    → length s < 255
    → AllChars s
    → name_in (get_first_directory 4096 s) ≡ some (child_name s)
unfolding name_in
name_in-child_name s h a =
    let short : ltb (length (child_name s)) 255 ≡ true =
      lt→ltb _ _ (omega (arith, child_name-length s)) in
    rw
      (
        get_first_directory-child_name 4095 s (omega arith) a,
        string_in-end (child_name s) (child_name-AllChars s a),
        short,
      )
      refl

pub get_sub_directory-append :
    (count : ℕ) (parent rest : List ℕ)
    → (get_sub_directory count parent (parent ++ rest)).1 ≡ get_first_directory count rest
unfolding get_sub_directory
get_sub_directory-append count [] rest = refl
get_sub_directory-append count (p ∷ parent) rest =
    rw (eq→== p p refl) (get_sub_directory-append count parent rest)
