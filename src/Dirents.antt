-- ===== src/Dirents.antt =====
-- All entries of a directory at once (`getDirEntries`, sys/tarfs.c), as the structures that it writes to
-- the caller's buffer. An int is its remainder modulo 2 ^ 32, and the descriptor is not negative. A
-- name too long for its 256 bytes has no result, and neither has a read of a structure that was not
-- written.

pub mod Names
pub mod Whole
use sbunix_64_bit_operating.Prelude.{
  ℕ, zero, suc, ◌+◌, ◌-◌, ◌%◌, ◌^◌, Bool, true, false, Option, none, some, List, [], ◌∷◌, ltb, ◌==◌,
  if◌then◌else◌, get_or, ◌>>=◌,
}
use sbunix_64_bit_operating.Strings.{strcmp, startswith, int_mod}
use sbunix_64_bit_operating.Tar.{Tarfs, next_header}
use sbunix_64_bit_operating.Paths.{char_at}
use sbunix_64_bit_operating.Files.{empty, is_unused, Files, root, get_fd_address}
use sbunix_64_bit_operating.Listing.{Dirent, size_of_dirent, name_in}

-- The bytes behind the loop that copies a name, from position `i` on: a slash if the name goes on with
-- one, and a NUL if there is room.
unfoldable pub end_name : (i : ℕ) → (child : List ℕ) → List ℕ
end_name i child =
    if ltb i 255
    then (if char_at 0 child == b'/'
        then b'/' ∷ (if ltb (i + 1) 255 then 0 ∷ [] else [])
        else 0 ∷ [])
    else []

-- The bytes written to `d_name`. The loop ends when the int `count` comes to 0.
unfoldable pub direntry_name : (i count : ℕ) → (child : List ℕ) → List ℕ
direntry_name i count [] = end_name i []
direntry_name i count (c ∷ child) =
    let count1 = (count + int_mod - 1) % int_mod in
    let further = direntry_name (i + 1) count1 child in
    if c == b'/'
    then end_name i (c ∷ child)
    else c ∷ (if count1 == 0 then end_name (i + 1) child else further)

-- `count<sizeof(struct dirent)`, where a negative int is larger than the size.
abbrev pub too_small : ℕ → Bool
too_small count = ltb count size_of_dirent

-- The structure at the buffer, `none` inside for the answer -1.
unfoldable pub get_first_direntry : (count : ℕ) → (child : List ℕ) → Option (Option Dirent)
get_first_direntry count child =
    let entry : Option (Option Dirent) = (do
      name ← name_in (direntry_name 0 count child)
      some (some (record { d_ino = 0; d_off = 0; d_reclen = size_of_dirent; d_name = name }))) in
    if too_small count then some none else entry

unfoldable pub get_sub_direntry : (count : ℕ) → (parent child : List ℕ) → Option (Option Dirent)
get_sub_direntry count [] child = get_first_direntry count child
get_sub_direntry count (p ∷ parent) [] = some none
get_sub_direntry count (p ∷ parent) (c ∷ child) =
    let further = get_sub_direntry count parent child in if p == c then further else some none

-- `count-=sizeof(Dirent)`.
abbrev pub less_dirent : ℕ → ℕ
less_dirent count = (count + int_mod - size_of_dirent) % int_mod

-- What the loops leave: whether they ended at an entry outside, the structures kept, and the count.
pub record Written : Type 0 where
  pub outside : Bool
  pub entries : List Dirent
  pub count : ℕ

unfoldable pub keep_entry : Dirent → Option Written → Option Written
keep_entry dir rest = do w ← rest; some (record w { entries = dir ∷ w.entries })

-- The loop over the archive for the root, on fuel.
unfoldable pub entries_root :
    (fuel : ℕ) → Tarfs → (prev_dir : List ℕ) → (start count : ℕ) → Option Written
entries_root zero t prev_dir start count = none
entries_root (suc fuel) t prev_dir start count =
    let start1 = next_header t start in
    let turn : Option Written = (do
      dir ← (← get_first_direntry count (t.header start).name)
      let skipped = entries_root fuel t prev_dir start1 count
      let kept = keep_entry dir (entries_root fuel t dir.d_name start1 (less_dirent count))
      if strcmp dir.d_name prev_dir == 0 then skipped else kept) in
    if ltb start t.binary_tarfs_end
    then turn
    else some (record { outside = false; entries = []; count = count })

-- The loop for another directory.
unfoldable pub entries_sub :
    (fuel : ℕ) → Tarfs → (name prev_dir : List ℕ) → (start count : ℕ) → Option Written
entries_sub zero t name prev_dir start count = none
entries_sub (suc fuel) t name prev_dir start count =
    let start1 = next_header t start in
    let skipped = entries_sub fuel t name prev_dir start1 count in
    let turn : Option Written = (do
      entry ← get_sub_direntry count name (t.header start).name
      elim entry [
        | none ↦ skipped
        | some dir ↦
            (let kept =
                keep_entry dir (entries_sub fuel t name dir.d_name start1 (less_dirent count)) in
              if strcmp dir.d_name prev_dir == 0 then skipped else kept)
      ]) in
    if ltb start t.binary_tarfs_end
    then (if startswith name (t.header start).name == 0
        then turn
        else some (record { outside = true; entries = []; count = count }))
    else some (record { outside = false; entries = []; count = count })

-- `y-count`, with a negative count taken as 0.
unfoldable pub bytes_written : (y count : ℕ) → ℕ
bytes_written y count =
    let count1 = if ltb count (2 ^ 31) then count else 0 in (y + int_mod - count1) % int_mod

-- The answer, an int, and the structures in the buffer. Another directory than the root whose entries
-- end with the archive gives 0.
unfoldable pub get_dir_entries :
    (fuel : ℕ) → Tarfs → (fd count : ℕ) → Files → Option (ℕ × List Dirent)
get_dir_entries fuel t fd count files = do
  page ← get_fd_address fd files
  elim page [
    | none ↦ some (0, [])
    | some p ↦
        (let f = get_or p.fds (fd % 5) empty in
          let at_root : Option (ℕ × List Dirent) = (do
            w ← entries_root fuel t [] f.start count
            some (bytes_written count w.count, w.entries)) in
          let at_sub : Option (ℕ × List Dirent) = (do
            w ← entries_sub fuel t f.name [] ((f.start + 512) % 2 ^ 64) count
            some (if w.outside then bytes_written count w.count else 0, w.entries)) in
          if is_unused f then some (0, []) else if strcmp f.name root == 0 then at_root else at_sub)
  ]
