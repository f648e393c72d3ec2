-- ===== src/Tar.antt =====
-- The archive of files in memory (sys/tarfs.c, include/sys/tarfs.h): its headers by their addresses, and
-- the walks from header to header that look a name up.
pub mod Lookup
use sbunix_64_bit_operating.Prelude.{
  ℕ, zero, suc, ◌+◌, ◌-◌, ◌%◌, ◌^◌, Bool, true, false, ◌&&◌, Option, none, some, List, ltb, ◌==◌,
  if◌then◌else◌, ◌>>=◌,
}
use sbunix_64_bit_operating.Strings.{strcmp, to_integer, int_mod}

-- The fields of a header that the code reads: the name, and the size in octal digits.
pub record PosixHeaderUstar : Type 0 where
  pub name : List ℕ
  pub size : List ℕ

pub record Tarfs : Type 0 where
  pub binary_tarfs_start : ℕ
  pub binary_tarfs_end : ℕ
  pub header : ℕ → PosixHeaderUstar

-- The size with the padding to full blocks, as an int.
unfoldable pub padded : ℕ → ℕ
padded size =
    if ltb size (2 ^ 31) && ltb 0 (size % 512) then (size + (512 - size % 512)) % int_mod else size

-- An int added to a pointer.
unfoldable pub add_int : (p i : ℕ) → ℕ
add_int p i = (p + (if ltb i (2 ^ 31) then i else i + 2 ^ 64 - 2 ^ 32)) % 2 ^ 64

-- The address of the header behind the one at `p`.
unfoldable pub next_header : Tarfs → ℕ → ℕ
next_header t p = (add_int p (padded (to_integer (t.header p).size)) + 512) % 2 ^ 64

-- The loop of the lookups, on fuel: whether the name was found, and the address where it ended.
unfoldable pub search_from : (fuel : ℕ) → Tarfs → (file : List ℕ) → (p : ℕ) → Option (Bool × ℕ)
search_from zero t file p = none
search_from (suc fuel) t file p =
    let rest = search_from fuel t file (next_header t p) in
    if ltb p t.binary_tarfs_end
    then (if strcmp (t.header p).name file == 0 then some (true, p) else rest)
    else some (false, p)

unfoldable pub get_file_address : (fuel : ℕ) → Tarfs → (file : List ℕ) → Option ℕ
get_file_address fuel t file = do
  (file_found, p) ← search_from fuel t file t.binary_tarfs_start
  let size = to_integer (t.header p).size
  some (
      if ltb 0 size && ltb size (2 ^ 31) && file_found
      then p + 512
      else if (size == 0) && file_found
      then p
      else 0)

unfoldable pub get_dir_address : (fuel : ℕ) → Tarfs → (dir : List ℕ) → Option ℕ
get_dir_address fuel t dir = do
  (dir_found, p) ← search_from fuel t dir t.binary_tarfs_start
  some (if (to_integer (t.header p).size == 0) && dir_found then p else 0)

unfoldable pub check_if_directory_present : (fuel : ℕ) → Tarfs → (buf : List ℕ) → Option Bool
check_if_directory_present fuel t buf = do i ← get_dir_address fuel t buf; some (ltb 0 i)
