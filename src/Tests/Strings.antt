-- ===== src/Tests/Strings.antt =====
-- Tests of the string functions.
use sbunix_64_bit_operating.Prelude.{ℕ, ◌≡◌, refl, List, [], ◌∷◌, arith}
use sbunix_64_bit_operating.Strings.{strcpy, strcpy_from, memread, startswith}
use sbunix_64_bit_operating.Strings.Compare.{AllChars}

-- The names "ls" and "lsx".
abbrev ls : List ℕ
ls = 108 ∷ 115 ∷ []

abbrev lsx : List ℕ
lsx = 108 ∷ 115 ∷ 120 ∷ []

ls-AllChars : AllChars ls
ls-AllChars = (omega arith, omega arith, (omega arith, omega arith, tt))

lsx-AllChars : AllChars lsx
lsx-AllChars =
    (omega arith, omega arith, (omega arith, omega arith, (omega arith, omega arith, tt)))

strcpy_run : strcpy (108 ∷ 115 ∷ []) ≡ 108 ∷ 115 ∷ 0 ∷ []
unfolding strcpy strcpy_from
strcpy_run = refl

memread_run : memread 4 (108 ∷ 115 ∷ []) ≡ (108 ∷ 115 ∷ 0 ∷ [], 2)
unfolding memread
memread_run = refl

startswith_run : startswith (47 ∷ []) (47 ∷ 98 ∷ []) ≡ 0
unfolding startswith
startswith_run = refl
