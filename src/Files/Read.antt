-- ===== src/Files/Read.antt =====
-- Reading an open file (`readFile` and `memread`, sys/tarfs.c): reads one after the other give the text
-- piece by piece.
use sbunix_64_bit_operating.Prelude.{
  ℕ, zero, suc, ◌+◌, ◌/◌, ◌%◌, ◌≤◌, ◌<◌, ◌≡◌, refl, sym, ap, ◌∙◌, true, false, Option, none, some,
  List, [], ◌∷◌, ◌++◌, arith, ltb, lt→ltb, length, get_or, set, length-append, length-set,
  get_or-set_self, drop,
}
use sbunix_64_bit_operating.Files.{
  FileDescriptor, empty, is_unused, FdPage, Files, get_fd_address, set_descriptor, read_string,
  read_file,
}
use sbunix_64_bit_operating.Files.Place.{nth}
use sbunix_64_bit_operating.Files.Table.{AllFull}
use sbunix_64_bit_operating.Files.Calls.{
  IsTable, descriptors, set_descriptor-flat, descriptor_of, length-flat,
}

read_string-nil : (m : ℕ) → read_string m [] ≡ []
unfolding read_string
read_string-nil zero = refl
read_string-nil (suc m) = refl

read_string-append :
    (n m : ℕ) (s : List ℕ)
    → read_string (n + m) s ≡ read_string n s ++ read_string m (drop (length (read_string n s)) s)
unfolding read_string
read_string-append zero m s = ap (λ k. read_string k s) (omega arith)
read_string-append (suc n) m [] =
    let e : suc n + m ≡ suc (n + m) = omega arith in rw (e, read_string-nil m) refl
read_string-append (suc n) m (c ∷ s) =
    let e : suc n + m ≡ suc (n + m) = omega arith in rw e (ap (c ∷◌) (read_string-append n m s))

read_string-le : (n : ℕ) (s : List ℕ) → length (read_string n s) ≤ length s
unfolding read_string
read_string-le zero s = omega arith
read_string-le (suc n) [] = omega arith
read_string-le (suc n) (c ∷ s) = omega (arith, read_string-le n s)

AllFull-set :
    (pages : List (Option FdPage)) (i j : ℕ) (p : FdPage) (f : FileDescriptor)
    → AllFull pages
    → get_or pages i none ≡ some p
    → AllFull (set pages i (some (record p { fds = set p.fds j f })))
AllFull-set [] i j p f full h = tt
AllFull-set (none ∷ pages) zero j p f full h = absurd (cc)
AllFull-set (some q ∷ pages) zero j p f full h =
    let same : p ≡ q = cc in
    let five : length p.fds ≡ 5 = rw same full.0 in (length-set p.fds j f ∙ five, full.1)
AllFull-set (q ∷ pages) (suc i) j p f full h = (full.0, AllFull-set pages i j p f full.1 h)

-- The descriptor is open, in a page of the table.
pub record IsOpen (fd : ℕ) (files : Files) : Type 0 where
  pub table : IsTable files
  pub low : fd < 100
  pub page : FdPage
  pub there : get_or files.fd_pointers (fd / 5) none ≡ some page
  pub open_now : is_unused (nth (descriptors files) fd) ≡ false

-- The descriptor behind a read of `n` bytes.
abbrev pub moved : ℕ → FileDescriptor → FileDescriptor
moved n f = record f { offset = f.offset + n }

set_descriptor-IsOpen :
    (fd n : ℕ) (files : Files) (o : IsOpen fd files)
    → (nth (descriptors (set_descriptor fd o.page (moved n (nth (descriptors files) fd)) files)) fd
        ≡ moved n (nth (descriptors files) fd))
      × IsOpen fd (set_descriptor fd o.page (moved n (nth (descriptors files) fd)) files)
set_descriptor-IsOpen fd n files o =
    let f : FileDescriptor = moved n (nth (descriptors files) fd) in
    let inside : fd < length (descriptors files) =
      omega (arith, o.low, length-flat files.fd_pointers o.table.full, o.table.pages) in
    let at : nth (descriptors (set_descriptor fd o.page f files)) fd ≡ f =
      ap (λ fds. nth fds fd) (set_descriptor-flat fd o.page f files o.table o.there)
      ∙ get_or-set_self (descriptors files) fd f empty inside in
    (
      at,
      record {
        table = record {
          full =
              unfold set_descriptor in
              AllFull-set files.fd_pointers (fd / 5) (fd % 5) o.page f o.table.full o.there;
          pages = unfold set_descriptor in length-set files.fd_pointers (fd / 5) _ ∙ o.table.pages;
        };
        low = o.low;
        page = record o.page { fds = set o.page.fds (fd % 5) f };
        there =
            unfold set_descriptor in
            get_or-set_self files.fd_pointers (fd / 5) _ none (omega (arith, o.low, o.table.pages));
        open_now = ap is_unused at ∙ o.open_now;
      },
    )

module _ (text : ℕ → List ℕ) where
  -- What a read of `count` bytes through the descriptor gives.
  abbrev pub bytes_of : (fd count : ℕ) → Files → List ℕ
  bytes_of fd count files = read_string count (text (nth (descriptors files) fd).offset)

  read_file_lem :
      (fd count : ℕ) (files : Files)
      → IsOpen fd files
      → (files' : Files) × (read_file text fd count files
          ≡ some (some (bytes_of fd count files), files'))
        × (nth (descriptors files') fd
            ≡ moved (length (bytes_of fd count files)) (nth (descriptors files) fd))
        × IsOpen fd files'
  unfolding read_file get_fd_address
  read_file_lem fd count files o =
      let inside : ltb (fd / 5) 20 ≡ true = lt→ltb _ _ (omega (arith, o.low)) in
      let e = descriptor_of fd o.page files o.table o.low o.there in
      let next = set_descriptor-IsOpen fd (length (bytes_of fd count files)) files o in
      (
        set_descriptor fd o.page
            (moved (length (bytes_of fd count files)) (nth (descriptors files) fd)) files,
        rw (inside, o.there, e, o.open_now) refl,
        next.0,
        next.1,
      )

  -- With the strings in memory, a string from a later address being the rest of it: reading n bytes
  -- and then m bytes through an open descriptor gives the bytes that one read of n + m gives, those of
  -- the text at the offset up to its NUL, and leaves the offset behind them.
  pub read_file-append :
      (fd n m : ℕ) (files : Files)
      → IsOpen fd files
      → ((a k : ℕ) → k ≤ length (text a) → text (a + k) ≡ drop k (text a))
      → (files1 : Files) × (files2 : Files) × (first : List ℕ) × (second : List ℕ) × (read_file text
            fd n files
          ≡ some (some first, files1))
        × (read_file text fd m files1 ≡ some (some second, files2))
        × (first ++ second ≡ bytes_of fd (n + m) files)
        × ((nth (descriptors files2) fd).offset
            ≡ (nth (descriptors files) fd).offset + length (first ++ second))
  read_file-append fd n m files o strings =
      let (files1, run1, at1, o1) = read_file_lem fd n files o in
      let (files2, run2, at2, o2) = read_file_lem fd m files1 o1 in
      let a = (nth (descriptors files) fd).offset in
      let first = bytes_of fd n files in
      let second = bytes_of fd m files1 in
      let further : second ≡ read_string m (drop (length first) (text a)) =
        ap (λ f. read_string m (text (f.offset))) at1
        ∙ ap (read_string m) (strings a (length first) (read_string-le n (text a))) in
      let size = length-append first second in
      (
        files1,
        files2,
        first,
        second,
        run1,
        run2,
        ap (first ++◌) further ∙ sym (read_string-append n m (text a)),
        ap (λ f. f.offset) at2
            ∙ ap (λ (f : FileDescriptor). f.offset + length second) at1
            ∙ omega (arith, size),
      )
