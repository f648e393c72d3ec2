-- ===== src/Files/Directories.antt =====
-- Opening and closing a directory (`openDirectory`, `get_fd` and `closeDir`, sys/tarfs.c), from the path
-- to the descriptor.
use sbunix_64_bit_operating.Prelude.{
  ℕ, ◌+◌, ◌≤◌, ◌<◌, ◌≡◌, ◌≢◌, Bool, true, false, some, List, ◌∷◌, ◌++◌, arith, ◌==◌, length, drop,
}
use sbunix_64_bit_operating.Strings.Compare.{AllChars, strcmp-ne}
use sbunix_64_bit_operating.Paging.{Mmu}
use sbunix_64_bit_operating.Tar.{Tarfs}
use sbunix_64_bit_operating.Tar.Lookup.{Entry, LaidOut, NoneNamed, span_of, get_file_address-first}
use sbunix_64_bit_operating.Paths.Components.{Component, AllNamed, AllNames, absolute}
use sbunix_64_bit_operating.Environ.{Environ, pwd}
use sbunix_64_bit_operating.Environ.Entries as Entries
use sbunix_64_bit_operating.Environ.Entries.{Variable, AllVariables}
use sbunix_64_bit_operating.Directory.{argument, target, environ_at, directory, resolved}
use sbunix_64_bit_operating.Files.{is_unused, Files, root, open_directory}
use sbunix_64_bit_operating.Files.Place.{nth}
use sbunix_64_bit_operating.Files.Table.{addresses, Chosen}
use sbunix_64_bit_operating.Files.Calls.{IsTable, descriptors, opened, fill_descriptor-Chosen}

-- The path is none of the two that openDirectory treats apart.
abbrev pub IsPath : List ℕ → Type 0
IsPath s = (0 < length s) × AllChars s × (s ≢ root)

-- With PWD at the directory of `stack`, a descriptor from 3 to 99 free, and the first entry of the
-- archive, which is not at address 0, with the name of the target a directory; for an argument that is
-- not empty and not a slash alone, with PWD's path of at most 254 bytes and the target's of less than
-- 255 behind its first slash, and fuel for the entries before: openDirectory opens the lowest free
-- descriptor on that entry, under the target's path without its first slash and with its own address,
-- its place in its page, as the handle, and keeps all other descriptors.
pub open_directory-Chosen :
    (xs ys : List Variable) (rest : Environ) (from_root : Bool) (stack : List (List ℕ))
    (cs : List Component) (t : Tarfs) (es more : List Entry) (fuel g : ℕ) (files : Files) (m : Mmu)
    → AllVariables xs
    → Entries.NoneNamed pwd xs
    → AllNamed cs
    → AllNames stack
    → length (absolute stack) + 2 ≤ 256
    → IsPath (argument from_root cs)
    → length (drop 1 (absolute (target from_root stack cs))) < 255
    → 0 < t.binary_tarfs_start
    → LaidOut t t.binary_tarfs_start (es ++ directory (target from_root stack cs) ∷ more)
    → NoneNamed (drop 1 (absolute (target from_root stack cs))) es
    → length es < fuel
    → IsTable files
    → 2 < g
    → g < 100
    → is_unused (nth (descriptors files) g) ≡ true
    → (n : ℕ) × (files' : Files) × (m' : Mmu) × (open_directory fuel t
          (environ_at xs stack ys rest)
          (argument from_root cs)
          files
          m
        ≡ some (some n, files', m'))
      × (n ≤ g)
      × Chosen
          (opened
            (t.binary_tarfs_start + span_of es)
            (drop 1 (absolute (target from_root stack cs)))
            (λ a. a))
          0
          (descriptors files)
          n
          (descriptors files')
          (addresses files'.fd_pointers)
unfolding open_directory
open_directory-Chosen xs ys rest from_root stack cs t es more fuel g files m a none_before n names
      room p short above l none_named h table low high free =
    let dest = absolute (target from_root stack cs) in
    let (cwd, at, to) = resolved xs ys rest a none_before from_root stack cs n names room in
    let e = directory (target from_root stack cs) in
    let there = (get_file_address-first es e more fuel t l none_named h).1 in
    let some_path : (length (argument from_root cs) == 0) ≡ false = ground (arith, p.0) in
    let not_root = strcmp-ne (argument from_root cs) root p.1 (omega arith) p.2 in
    let somewhere : (t.binary_tarfs_start + span_of es == 0) ≡ false = ground arith in
    let (k, files', m', run, at_most, c) =
      fill_descriptor-Chosen (t.binary_tarfs_start + span_of es) (drop 1 dest) (λ a. a) files m g
        table short low high free in
    (k, files', m', rw (some_path, not_root, at, to, there, somewhere) run, at_most, c)
