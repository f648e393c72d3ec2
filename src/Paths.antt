-- ===== src/Paths.antt =====
-- Paths (`get_between_2slashes` and `remove_dotslash`, sys/tarfs.c). The path written so far is a list
-- with the last character first; the sizes of the buffers are not modelled, and the working directory
-- is the string that getCWD has written.
pub mod Components
pub mod Resolve
use sbunix_64_bit_operating.Prelude.{
  ℕ, zero, suc, ◌/◌, Option, none, some, List, [], ◌∷◌, ◌==◌, if◌then◌else◌, length, get_or, ◌>>=◌,
  drop,
}
use sbunix_64_bit_operating.Strings.{strcmp}

unfoldable pub get_between_2slashes : List ℕ → List ℕ
get_between_2slashes [] = []
get_between_2slashes (c ∷ s) = if c == b'/' then [] else c ∷ get_between_2slashes s

-- The string behind the list so far, character by character.
unfoldable pub push_all : List ℕ → List ℕ → List ℕ
push_all [] output = output
push_all (c ∷ s) output = push_all s (c ∷ output)

-- `while (*output != '/') output--`: a read in front of the buffer has no result.
unfoldable pub back_to_slash : List ℕ → Option (List ℕ)
back_to_slash [] = none
back_to_slash (c ∷ output) = if c == b'/' then some (c ∷ output) else back_to_slash output

-- The branch of "..".
unfoldable pub go_up : List ℕ → Option (List ℕ)
go_up [] = none
go_up (c ∷ []) = some (c ∷ [])
go_up (c ∷ d ∷ output) = back_to_slash (d ∷ output)

abbrev pub char_at : ℕ → List ℕ → ℕ
char_at i s = get_or s i 0

unfoldable pub skip_slashes : List ℕ → List ℕ
skip_slashes [] = []
skip_slashes (c ∷ s) = if c == b'/' then skip_slashes s else c ∷ s

-- The branch of a name.
unfoldable pub enter : (name input output : List ℕ) → List ℕ × List ℕ
enter name input output =
    let input1 = drop (length name) input in
    if char_at 0 input1 == b'/'
    then (skip_slashes (drop 1 input1), b'/' ∷ push_all name output)
    else (input1, push_all name output)

abbrev pub dot : List ℕ
dot = b'.' ∷ []

abbrev pub dot_dot : List ℕ
dot_dot = b'.' ∷ b'.' ∷ []

-- A round of the loop: the input and the output behind it.
unfoldable pub round : (input output : List ℕ) → Option (List ℕ × List ℕ)
round input output =
    let temp_output = get_between_2slashes input in
    if strcmp temp_output dot == 0
    then some (if char_at 1 input == b'/' then drop 2 input else drop 1 input, output)
    else if strcmp temp_output [] == 0
    then some (drop 1 input, output)
    else if strcmp temp_output dot_dot == 0
    then (do
      output1 ← go_up output
      some (if char_at 2 input == b'/' then drop 3 input else drop 2 input, output1))
    else some (enter temp_output input output)

-- The loop, on fuel.
unfoldable pub resolve : (fuel : ℕ) → (input output : List ℕ) → Option (List ℕ)
resolve zero input output = none
resolve (suc fuel) [] output = some output
resolve (suc fuel) (c ∷ input) output = do
  (input1, output1) ← round (c ∷ input) output
  resolve fuel input1 output1

-- A slash, unless the path ends with one; a read in front of the buffer has no result.
unfoldable pub end_with_slash : List ℕ → Option (List ℕ)
end_with_slash [] = none
end_with_slash (c ∷ output) = some (if c == b'/' then c ∷ output else b'/' ∷ c ∷ output)

-- Where the loop starts: at the root, or in the working directory.
unfoldable pub start_of : (cwd src : List ℕ) → Option (List ℕ × List ℕ)
start_of cwd src =
    if char_at 0 src == b'/'
    then some (drop 1 src, b'/' ∷ [])
    else (do output ← end_with_slash (push_all cwd []); some (src, output))

-- Every round consumes a character.
unfoldable pub remove_dotslash : (cwd src : List ℕ) → (d : ℕ) → Option (List ℕ)
remove_dotslash cwd src d = do
  (input, output) ← start_of cwd src
  output1 ← resolve (suc (length src)) input output
  output2 ← (if d == 1 then end_with_slash output1 else some output1)
  some (push_all output2 [])
