-- ===== src/Environ.antt =====
-- The environment (`getCWD`, `getPATH`, `getenv`, `setenv` and `env`, sys/tarfs.c): a string in each page
-- from 0x302000 on, up to a page that starts with a NUL. An entry without `=`, a missing last page
-- and a string that does not fit have no result.
pub mod Entries
pub mod Quotes
use sbunix_64_bit_operating.Prelude.{
  ℕ, ◌+◌, Bool, true, false, Option, none, some, List, [], ◌∷◌, ◌++◌, ltb, leb, ◌==◌, if◌then◌else◌,
  length, get_or, set, ◌>>=◌, drop, take,
}
use sbunix_64_bit_operating.Strings.{strcmp}

-- The strings of the pages.
abbrev pub Environ : Type 0
Environ = List (List ℕ)

-- The loop up to the `=`: the name and the value.
unfoldable pub split_entry : List ℕ → Option (List ℕ × List ℕ)
split_entry [] = none
split_entry (c ∷ s) =
    let rest = (do (name, value) ← split_entry s; some (c ∷ name, value)) in
    if c == b'=' then some ([], s) else rest

-- The name of an entry in the 256 bytes of `temp`.
unfoldable pub entry_name : List ℕ → Option (List ℕ)
entry_name entry = do
  (name, value) ← split_entry entry
  if ltb (length name) 256 then some name else none

-- The loop over the pages: the page of the first entry with the name, and the offset of its value.
unfoldable pub find_entry : (name : List ℕ) → (page : ℕ) → Environ → Option (Option (ℕ × ℕ))
find_entry name page [] = none
find_entry name page ([] ∷ pages) = some none
find_entry name page ((c ∷ s) ∷ pages) = do
  temp ← entry_name (c ∷ s)
  let rest = find_entry name (page + 1) pages
  if strcmp temp name == 0 then some (some (page, length temp + 1)) else rest

unfoldable pub getenv : (name : List ℕ) → Environ → Option (Option (ℕ × ℕ))
getenv name pages = find_entry name 0 pages

-- The string behind a pointer into a page.
abbrev pub string_at : ℕ × ℕ → Environ → List ℕ
string_at p pages = drop p.1 (get_or pages p.0 [])

-- The string written at a pointer into a page, with `ends` NULs behind it.
unfoldable pub store_string : (ends : ℕ) → ℕ × ℕ → (value : List ℕ) → Environ → Option Environ
store_string ends p value pages =
    if leb (p.1 + length value + ends) 4096
    then some (set pages p.0 (take p.1 (get_or pages p.0 []) ++ value))
    else none

-- A new entry in the last page, and a new last page behind it.
unfoldable pub append_entry : (entry : List ℕ) → Environ → Environ
append_entry entry [] = []
append_entry entry ([] ∷ pages) = entry ∷ [] ∷ drop 1 pages
append_entry entry ((c ∷ s) ∷ pages) = (c ∷ s) ∷ append_entry entry pages

unfoldable pub setenv : (name value : List ℕ) → Environ → Option Environ
setenv name value pages = do
  start ← getenv name pages
  elim start [
    | some p ↦ store_string 2 p value pages
    | none ↦
        (if leb (length name + 1 + length value + 1) 4096
          then some (append_entry (name ++ b'=' ∷ value) pages)
          else none)
  ]

abbrev pub pwd : List ℕ
pwd = b'P' ∷ b'W' ∷ b'D' ∷ []

abbrev pub path : List ℕ
path = b'P' ∷ b'A' ∷ b'T' ∷ b'H' ∷ []

-- The loop that copies a value into `count` bytes, and its NUL. A copy that is left without a NUL has
-- no result.
unfoldable pub copy_value : (value : List ℕ) → (count : ℕ) → Option (List ℕ)
copy_value value count = if leb (length value + 2) count then some value else none

-- The string that getCWD and getPATH write; without the entry they write nothing.
unfoldable pub copy_entry : (name : List ℕ) → (count : ℕ) → Environ → Option (List ℕ)
copy_entry name count pages = do p ← (← getenv name pages); copy_value (string_at p pages) count

unfoldable pub get_cwd : (count : ℕ) → Environ → Option (List ℕ)
get_cwd count pages = copy_entry pwd count pages

unfoldable pub get_path : (count : ℕ) → Environ → Option (List ℕ)
get_path count pages = copy_entry path count pages

abbrev pub quote : ℕ
quote = b'"'

-- The string without its last character, if that is a quote, and whether it was one.
unfoldable pub end_quote : List ℕ → List ℕ × Bool
end_quote [] = ([], false)
end_quote (c ∷ []) = if c == quote then ([], true) else (c ∷ [], false)
end_quote (c ∷ d ∷ s) = let (rest, cut) = end_quote (d ∷ s) in (c ∷ rest, cut)

-- The value behind the `=`: with quotes around it they are left out; a lone quote is refused.
unfoldable pub env_value : List ℕ → Option (List ℕ)
env_value [] = some []
env_value (c ∷ s) =
    if c == quote then elim s [ [] ↦ none | d ∷ t ↦ some (end_quote (d ∷ t)).0 ] else some (c ∷ s)

-- The answer, true for 0 and false for -1, and the environment behind it.
unfoldable pub env_set : (name : List ℕ) → Option (List ℕ) → Environ → Option (Bool × Environ)
env_set name none pages = some (false, pages)
env_set name (some value) pages = do pages1 ← setenv name value pages; some (true, pages1)

unfoldable pub env_split : Option (List ℕ × List ℕ) → Environ → Option (Bool × Environ)
env_split none pages = some (false, pages)
env_split (some (name, text)) pages = env_set name (env_value text) pages

unfoldable pub env : (argument : List ℕ) → Environ → Option (Bool × Environ)
env argument pages = env_split (split_entry argument) pages
