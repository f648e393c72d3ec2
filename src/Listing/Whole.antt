-- ===== src/Listing/Whole.antt =====
-- readDir (sys/tarfs.c) called again and again on a directory.
use sbunix_64_bit_operating.Prelude.{
  ℕ, zero, suc, ◌+◌, ◌<◌, ◌≡◌, refl, sym, ◌∙◌, subst, ◌≢◌, false, Option, none, some, List, [], ◌∷◌,
  arith, ◌==◌, length,
}
use sbunix_64_bit_operating.Strings.Compare.{AllChars, strcmp-ne}
use sbunix_64_bit_operating.Kernel.{Kernel}
use sbunix_64_bit_operating.Areas.{malloc}
use sbunix_64_bit_operating.Tar.{Tarfs}
use sbunix_64_bit_operating.Tar.Lookup.{Entry, LaidOut, span, next_header-span}
use sbunix_64_bit_operating.Files.{FileDescriptor, Files, root, set_descriptor}
use sbunix_64_bit_operating.Listing.{
  Dirent, size_of_dirent, list_next, at_entry, end_read_dir, read_descriptor, read_dir,
}
use sbunix_64_bit_operating.Listing.Next.{
  AllShort, NextChild, Children, list_sub-NextChild, NextChild-last, NextChild-further,
}
use sbunix_64_bit_operating.Listing.Handle.{Holds, held, held-address, set_descriptor-Holds}

-- The structure that readDir fills.
abbrev pub dirent : List ℕ → Dirent
dirent name = record { d_ino = 0; d_off = 0; d_reclen = size_of_dirent; d_name = name }

-- Calls of readDir, one after the other, answer these names and then NULL.
abbrev pub Reads : (fuel : ℕ) → Tarfs → (dirp : ℕ) → Files → Kernel → List (List ℕ) → Type 0
Reads fuel t dirp files k [] =
    (files' : Files) × (k' : Kernel) × (read_dir fuel t dirp files k ≡ some (none, files', k'))
Reads fuel t dirp files k (name ∷ names) =
    (buf : ℕ) × (files' : Files) × (k' : Kernel) × (read_dir fuel t dirp files k
      ≡ some (some (buf, dirent name), files', k'))
    × Reads fuel t dirp files' k' names

-- The descriptor is open on the directory, at an entry of the archive with these entries behind it.
abbrev pub Lists : Tarfs → (d : List ℕ) → List Entry → FileDescriptor → Type 0
Lists t d es f =
    (f.name ≡ d) × AllChars f.d_prev_dir × AllShort es × ((e : Entry) × LaidOut t f.offset (e ∷ es))

read_dir-Holds :
    (fuel : ℕ) (t : Tarfs) (dirp fd : ℕ) (files : Files) (k : Kernel) (h : Holds dirp fd files)
    (found : Option (List ℕ × ℕ))
    → 0 < dirp
    → list_next fuel t (held h) ≡ some found
    → (let (buf, k1) = malloc size_of_dirent k in
        let (answer, files1) = end_read_dir buf fd h.page (held h) found files in
        read_dir fuel t dirp files k ≡ some (answer, files1, k1))
unfolding read_dir read_descriptor
read_dir-Holds fuel t dirp fd files k h found pos run =
    let there : (dirp == 0) ≡ false = ground arith in rw (there, h.handle, held-address h, run) refl

list_next-NextChild :
    (fuel : ℕ) (t : Tarfs) (d : List ℕ) (es : List Entry) (f : FileDescriptor)
    → Lists t d es f
    → AllChars d
    → 0 < length d
    → d ≢ root
    → length es < fuel
    → (answer : Option (List ℕ × ℕ)) × (p : ℕ) × (list_next fuel t f ≡ some answer)
      × LaidOut t p es
      × NextChild d f.d_prev_dir p es answer
unfolding list_next
list_next-NextChild fuel t d es f (named, c, short, (e, (inside, _, _, sized, small, fits, l)))
      chars filled not_root h =
    let p = f.offset + span e in
    let (answer, run, next) = list_sub-NextChild es fuel t d f.d_prev_dir p l short c h in
    let some_name : (length d == 0) ≡ false = ground arith in
    (
      answer,
      p,
      rw
          (
            named,
            strcmp-ne d root chars (omega arith) not_root,
            some_name,
            next_header-span t f.offset e sized small fits,
          )
          run,
      l,
      next,
    )

module _ (fuel : ℕ) (t : Tarfs) (d : List ℕ) (dirp fd : ℕ) (chars : AllChars d)
    (filled : 0 < length d) (not_root : d ≢ root) (pos : 0 < dirp) where
  -- The names that the calls answer are those of the children.
  abbrev Answers : (es : List Entry) (files : Files) → Kernel → Holds dirp fd files → Type 0
  Answers es files k h =
      (names : List (List ℕ)) × Reads fuel t dirp files k names
      × Children d (held h).d_prev_dir es names

  reads_end :
      (es : List Entry) (files : Files) (k : Kernel) (h : Holds dirp fd files) (p : ℕ)
      → list_next fuel t (held h) ≡ some none
      → NextChild d (held h).d_prev_dir p es none
      → Answers es files k h
  reads_end es files k h p run next = (
    [],
    (
      files,
      (malloc size_of_dirent k).1,
      read_dir-Holds fuel t dirp fd files k h none pos run ∙ (unfold end_read_dir in refl),
    ),
    NextChild-last es d (held h).d_prev_dir p next,
  )

  reads_further :
      (es : List Entry) (files : Files) (k : Kernel) (h : Holds dirp fd files) (p : ℕ)
      (found : List ℕ × ℕ)
      → Lists t d es (held h)
      → list_next fuel t (held h) ≡ some (some found)
      → LaidOut t p es
      → NextChild d (held h).d_prev_dir p es (some found)
      → ((more : List Entry) (files' : Files) (k' : Kernel) (h' : Holds dirp fd files')
          → Lists t d more (held h')
          → length more < length es
          → Answers more files' k' h')
      → Answers es files k h
  reads_further es files k h p (name, q) at run l next again =
      let (x, more, l', short, c, less, further) =
        NextChild-further es t d (held h).d_prev_dir p name q l at.2 next in
      let f : FileDescriptor = at_entry (name, q) (held h) in
      let files' : Files = set_descriptor fd h.page f files in
      let (h', same) = set_descriptor-Holds h f refl in
      let at' : Lists t d more (held h') =
        subst (Lists t d more) (sym same) (at.0, c, short, (x, l')) in
      let (names, r, children) = again more files' (malloc size_of_dirent k).1 h' at' less in
      let ran : read_dir fuel t dirp files k
          ≡ some (
            some ((malloc size_of_dirent k).0, dirent name),
            files',
            (malloc size_of_dirent k).1,
          ) =
        read_dir-Holds fuel t dirp fd files k h (some (name, q)) pos run
        ∙ (unfold end_read_dir in refl) in
      (
        name ∷ names,
        ((malloc size_of_dirent k).0, files', (malloc size_of_dirent k).1, ran, r),
        further names (subst (λ g. Children d g.d_prev_dir more names) same children),
      )

  reads_once :
      (es : List Entry) (files : Files) (k : Kernel) (h : Holds dirp fd files)
      → Lists t d es (held h)
      → length es < fuel
      → ((more : List Entry) (files' : Files) (k' : Kernel) (h' : Holds dirp fd files')
          → Lists t d more (held h')
          → length more < length es
          → Answers more files' k' h')
      → Answers es files k h
  reads_once es files k h at enough again =
      let (answer, p, run, l, next) =
        list_next-NextChild fuel t d es (held h) at chars filled not_root enough in
      either answer p run l next
    where
      either :
          (answer : Option (List ℕ × ℕ)) (p : ℕ)
          → list_next fuel t (held h) ≡ some answer
          → LaidOut t p es
          → NextChild d (held h).d_prev_dir p es answer
          → Answers es files k h
      either none p run l next = reads_end es files k h p run next
      either (some found) p run l next = reads_further es files k h p found at run l next again

  reads :
      (bound : ℕ) (es : List Entry) (files : Files) (k : Kernel) (h : Holds dirp fd files)
      → Lists t d es (held h)
      → length es < fuel
      → length es < bound
      → Answers es files k h
  reads zero es files k h at enough b = absurd (omega arith)
  reads (suc bound) es files k h at enough b =
      reads_once es files k h at enough (λ more files' k' h' at' less.
        reads bound more files' k' h' at' (omega arith) (omega arith))

  -- With the handle's descriptor open on a directory other than the root, at an entry of the archive,
  -- and names shorter than 255 bytes: calls of `readDir` answer the names of the directory's children
  -- in the order of the entries behind, up to the first one that is not below the directory, without
  -- one that is like the one before it, and then NULL.
  pub read_dir-Children :
      (es : List Entry) (files : Files) (k : Kernel) (h : Holds dirp fd files)
      → Lists t d es (held h)
      → length es < fuel
      → (names : List (List ℕ)) × Reads fuel t dirp files k names
        × Children d (held h).d_prev_dir es names
  read_dir-Children es files k h at enough =
      reads (suc (length es)) es files k h at enough (omega arith)
