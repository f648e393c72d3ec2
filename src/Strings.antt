-- ===== src/Strings.antt =====
-- The string functions of sys/tarfs.c. A string is the list of its bytes before the NUL, and what a
-- function writes through a pointer is the list of the bytes written. A char is signed, an int has 32
-- bits, and a negative int is its remainder modulo 2 ^ 32.
pub mod Compare
pub mod Octal
pub mod Prefix
use sbunix_64_bit_operating.Prelude.{
  ℕ, zero, suc, ◌+◌, ◌-◌, ◌*◌, ◌%◌, List, [], ◌∷◌, ltb, ◌==◌, if◌then◌else◌, replicate,
}

abbrev pub int_mod : ℕ
int_mod = 4_294_967_296

-- A char as an int.
abbrev pub to_int : ℕ → ℕ
to_int c = if ltb c 128 then c else c + int_mod - 256

abbrev pub difference : ℕ → ℕ → ℕ
difference a b = (to_int a + int_mod - to_int b) % int_mod

unfoldable pub strcmp : List ℕ → List ℕ → ℕ
strcmp [] [] = difference 0 0
strcmp [] (b ∷ bs) = difference 0 b
strcmp (a ∷ rest) [] = difference a 0
strcmp (a ∷ rest) (b ∷ bs) =
    let further = strcmp rest bs in if a == b then further else difference a b

-- `startswith`: 0, or -1.
unfoldable pub startswith : (parent child : List ℕ) → ℕ
startswith [] child = 0
startswith (p ∷ ps) [] = int_mod - 1
startswith (p ∷ ps) (c ∷ cs) =
    let further = startswith ps cs in if p == c then further else int_mod - 1

-- The loop of `toInteger`, from the number read so far on.
unfoldable pub to_integer_from : (num : ℕ) → List ℕ → ℕ
to_integer_from num [] = num
to_integer_from num (c ∷ cs) = to_integer_from ((num * 8 + to_int c + int_mod - 48) % int_mod) cs

unfoldable pub to_integer : List ℕ → ℕ
to_integer s = to_integer_from 0 s

-- `strcpy`, from position `i` on: at most 256 bytes, and a NUL behind fewer than 255.
unfoldable pub strcpy_from : (i : ℕ) → List ℕ → List ℕ
strcpy_from i [] = if ltb i 255 then 0 ∷ [] else []
strcpy_from i (c ∷ cs) =
    let further = strcpy_from (i + 1) cs in if ltb i 256 then c ∷ further else []

unfoldable pub strcpy : (src : List ℕ) → List ℕ
strcpy src = strcpy_from 0 src

-- `memread` of a string: what is written, and the number of bytes copied.
unfoldable pub memread : (n : ℕ) → (src : List ℕ) → List ℕ × ℕ
memread zero src = ([], 0)
memread (suc n) [] = (0 ∷ [], 0)
memread (suc n) (c ∷ cs) = let (written, count) = memread n cs in (c ∷ written, count + 1)

unfoldable pub memset_file : (c n : ℕ) → List ℕ
memset_file c n = replicate n (c % 256)
