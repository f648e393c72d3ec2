-- ===== src/Dirents/Whole.antt =====
-- getDirEntries (sys/tarfs.c) against the list of the archive's entries.
use sbunix_64_bit_operating.Prelude.{
  ℕ, zero, suc, ◌+◌, ◌-◌, ◌*◌, ◌%◌, ◌^◌, ◌≤◌, ◌<◌, ◌≡◌, refl, sym, ap, subst, ◌≢◌, ◌⊎◌, inl, inr,
  true, false, some, List, [], ◌∷◌, ◌++◌, map, arith, ltb, ◌==◌, ==→eq, Bool-cases, length, get_or,
  length-append,
}
use sbunix_64_bit_operating.Strings.{startswith, strcmp}
use sbunix_64_bit_operating.Strings.Compare.{AllChars, strcmp-eq, strcmp-ne}
use sbunix_64_bit_operating.Strings.Prefix.{Extends, startswith-Extends}
use sbunix_64_bit_operating.Tar.{Tarfs, next_header}
use sbunix_64_bit_operating.Tar.Lookup.{Entry, LaidOut, span, next_header-span}
use sbunix_64_bit_operating.Files.{empty, FdPage, Files, root, get_fd_address}
use sbunix_64_bit_operating.Listing.{size_of_dirent}
use sbunix_64_bit_operating.Listing.Names.{child_name, child_name-AllChars}
use sbunix_64_bit_operating.Listing.Next.{AllShort, Children, AllChars-suffix}
use sbunix_64_bit_operating.Listing.Whole.{dirent}
use sbunix_64_bit_operating.Dirents.{
  Written, less_dirent, keep_entry, get_sub_direntry, entries_sub, bytes_written, get_dir_entries,
}
use sbunix_64_bit_operating.Dirents.Names.{get_sub_direntry-dirent}

-- Some entry is not below the directory, as the blocks at the end of an archive are not.
abbrev pub AnyOutside : (d : List ℕ) → List Entry → Type 0
AnyOutside d [] = ⊥
AnyOutside d (e ∷ es) = (Extends d e.name → ⊥) ⊎ AnyOutside d es

sub_direntry-named :
    (d rest name : List ℕ) (count : ℕ)
    → d ++ rest ≡ name
    → length name < 255
    → AllChars name
    → size_of_dirent ≤ count
    → count < 2 ^ 31
    → get_sub_direntry count d name ≡ some (some (dirent (child_name rest)))
sub_direntry-named d rest name count whole short chars room small =
    let fits : length rest < 255 = omega (arith, short, ap length whole, length-append d rest) in
    let c = AllChars-suffix d rest (subst AllChars (sym whole) chars) in
    rw (← whole) (get_sub_direntry-dirent d rest count c fits room small)

-- The structures of the children, and the count without their bytes.
abbrev written : List (List ℕ) → (count : ℕ) → Written
written names count = record {
  outside = true;
  entries = map dirent names;
  count = count - size_of_dirent * length names;
}

keep_entry-written :
    (name : List ℕ) (names : List (List ℕ)) (count : ℕ)
    → keep_entry (dirent name) (some (written names (count - size_of_dirent)))
      ≡ some (written (name ∷ names) count)
unfolding keep_entry
keep_entry-written name names count =
    let less : count - size_of_dirent - size_of_dirent * length names
        ≡ count - size_of_dirent * length (name ∷ names) =
      omega arith in
    ap (λ a. some (record { outside = true; entries = map dirent (name ∷ names); count = a })) less

-- A round that keeps the structure of an entry below the directory.
entries_sub-kept :
    (fuel : ℕ) (t : Tarfs) (d before : List ℕ) (p q count : ℕ) (file name : List ℕ)
    (names : List (List ℕ))
    → ltb p t.binary_tarfs_end ≡ true
    → (t.header p).name ≡ file
    → (startswith d file == 0) ≡ true
    → get_sub_direntry count d file ≡ some (some (dirent name))
    → (strcmp name before == 0) ≡ false
    → next_header t p ≡ q
    → less_dirent count ≡ count - size_of_dirent
    → entries_sub fuel t d name q (count - size_of_dirent)
      ≡ some (written names (count - size_of_dirent))
    → entries_sub (suc fuel) t d before p count ≡ some (written (name ∷ names) count)
unfolding entries_sub
entries_sub-kept fuel t d before p q count file name names here named below entry other step less
      run =
    rw (here, named, below, entry, other, step, less, run) (keep_entry-written name names count)

entries_sub-Children :
    (es : List Entry) (fuel : ℕ) (t : Tarfs) (d before : List ℕ) (p count : ℕ)
    → LaidOut t p es
    → AllShort es
    → AllChars before
    → AnyOutside d es
    → length es < fuel
    → size_of_dirent * length es ≤ count
    → count < 2 ^ 31
    → (names : List (List ℕ)) × (entries_sub fuel t d before p count ≡ some (written names count))
      × Children d before es names
      × (length names ≤ length es)
unfolding entries_sub
entries_sub-Children es zero t d before p count l short c any h room small = absurd (omega arith)
entries_sub-Children [] (suc fuel) t d before p count l short c any h room small = absurd any
entries_sub-Children (e ∷ es) (suc fuel) t d before p count
      (inside, named, chars, sized, small_size, fits, l) (short, shorts) c any h room small =
    let here : ltb p t.binary_tarfs_end ≡ true = ground arith in
    let step = next_header-span t p e sized small_size fits in
    elim (Bool-cases (startswith d e.name == 0)) [
      | inr n ↦
          let none_off : count ≡ count - size_of_dirent * length {A = List ℕ} [] = omega arith in
          (
            [],
            rw (here, named, n)
                (ap (λ a. some (record { outside = true; entries = []; count = a })) none_off),
            inl (λ x. absurd (ground (arith, n, (startswith-Extends d e.name).1 x)), refl),
            omega arith,
          )
      | inl y ↦
          let (rest, whole) = (startswith-Extends d e.name).0 (==→eq _ 0 y) in
          let entry =
            sub_direntry-named d rest e.name count whole short chars (omega arith) small in
          let name_chars =
            child_name-AllChars rest (AllChars-suffix d rest (subst AllChars (sym whole) chars)) in
          let same = strcmp-eq (child_name rest) before name_chars c in
          let any' : AnyOutside d es = elim any [
            | inl outside ↦ absurd (outside (rest, whole))
            | inr later ↦ later
          ] in
          elim (Bool-cases (strcmp (child_name rest) before == 0)) [
            | inl z ↦
                let (names, run, children, few) =
                  entries_sub-Children es fuel t d before (p + span e) count l shorts c any'
                    (omega arith) (omega arith) small in
                (
                  names,
                  rw (here, named, y, entry, z, step) run,
                  inr (rest, whole, inl (same.0 (==→eq _ 0 z), children)),
                  omega arith,
                )
            | inr n ↦
                let other : child_name rest ≢ before = λ x. absurd (ground (arith, n, same.1 x)) in
                let less : less_dirent count ≡ count - size_of_dirent = ground arith in
                let (names, run, children, few) =
                  entries_sub-Children es fuel t d (child_name rest) (p + span e)
                    (count - size_of_dirent) l shorts name_chars any' (omega arith) (omega arith)
                    (omega arith) in
                (
                  child_name rest ∷ names,
                  entries_sub-kept fuel t d before p (p + span e) count e.name (child_name rest)
                      names here named y entry n step less run,
                  inr (rest, whole, inr (other, (names, refl, children))),
                  omega arith,
                )
          ]
    ]

-- On a descriptor that is open on a directory other than the root, with names shorter than 255 bytes,
-- an entry behind the directory's that is not below it, and a buffer with room for a structure for
-- each entry: getDirEntries writes the structures of the directory's children in the order of the
-- entries, without one that is like the one before it, and answers their size in bytes.
pub get_dir_entries-Children :
    (es : List Entry) (e : Entry) (fuel : ℕ) (t : Tarfs) (d : List ℕ) (fd count : ℕ) (files : Files)
    (page : FdPage)
    → AllChars d
    → 0 < length d
    → d ≢ root
    → get_fd_address fd files ≡ some (some page)
    → (get_or page.fds (fd % 5) empty).name ≡ d
    → LaidOut t (get_or page.fds (fd % 5) empty).start (e ∷ es)
    → e.size ≡ 0
    → AllShort es
    → AnyOutside d es
    → length es < fuel
    → size_of_dirent * length es ≤ count
    → count < 2 ^ 31
    → (names : List (List ℕ)) × (get_dir_entries fuel t fd count files
        ≡ some (size_of_dirent * length names, map dirent names))
      × Children d [] es names
unfolding get_dir_entries
get_dir_entries-Children es e fuel t d fd count files page chars filled not_root there named l
      empty_size short any h room small =
    let start = (get_or page.fds (fd % 5) empty).start in
    let behind : span e ≡ 512 = rw empty_size (ground arith) in
    let first : (start + 512) % 2 ^ 64 ≡ start + 512 = ground (arith, l.5, behind) in
    let l' : LaidOut t (start + 512) es = subst (λ a. LaidOut t (start + a) es) behind l.6 in
    let (names, run, children, few) =
      entries_sub-Children es fuel t d [] (start + 512) count l' short tt any h room small in
    let some_name : (length d == 0) ≡ false = ground arith in
    let size : bytes_written count (count - size_of_dirent * length names)
        ≡ size_of_dirent * length names =
      unfold bytes_written in ground arith in
    (
      names,
      rw (there, named, some_name, strcmp-ne d root chars (omega arith) not_root, first, run, size)
          refl,
      children,
    )
