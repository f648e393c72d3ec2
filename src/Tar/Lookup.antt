-- ===== src/Tar/Lookup.antt =====
-- The lookups of sys/tarfs.c against the list of the archive's entries.
use sbunix_64_bit_operating.Prelude.{
  ℕ, zero, suc, ◌+◌, ◌*◌, ◌/◌, ◌^◌, ◌≤◌, ◌<◌, ◌≡◌, refl, ap, ◌∙◌, ◌≢◌, Bool, true, false, Option,
  some, List, [], ◌∷◌, ◌++◌, arith, ltb, ◌==◌, if◌then◌else◌, eq→==, length,
}
use sbunix_64_bit_operating.Strings.{strcmp, to_integer}
use sbunix_64_bit_operating.Strings.Compare.{strcmp-eq, strcmp-ne, AllChars}
use sbunix_64_bit_operating.Tar.{
  Tarfs, padded, add_int, next_header, search_from, get_file_address, get_dir_address,
}

-- A file with its size in bytes; a directory has size 0.
pub record Entry : Type 0 where
  pub name : List ℕ
  pub size : ℕ

-- The bytes that an entry takes: its header and its contents in whole blocks.
abbrev pub span : Entry → ℕ
span e = 512 + (e.size + 511) / 512 * 512

abbrev pub span_of : List Entry → ℕ
span_of [] = 0
span_of (e ∷ es) = span e + span_of es

-- The archive has these entries from `p` on.
abbrev pub LaidOut : Tarfs → ℕ → List Entry → Type 0
LaidOut t p [] = t.binary_tarfs_end ≤ p
LaidOut t p (e ∷ es) =
    (p < t.binary_tarfs_end)
    × ((t.header p).name ≡ e.name)
    × AllChars e.name
    × (to_integer (t.header p).size ≡ e.size)
    × (e.size < 2 ^ 30)
    × (p + span e < 2 ^ 64)
    × LaidOut t (p + span e) es

abbrev pub NoneNamed : List ℕ → List Entry → Type 0
NoneNamed file [] = Unit {0}
NoneNamed file (e ∷ es) = (e.name ≢ file) × NoneNamed file es

pub next_header-span :
    (t : Tarfs) (p : ℕ) (e : Entry)
    → to_integer (t.header p).size ≡ e.size
    → e.size < 2 ^ 30
    → p + span e < 2 ^ 64
    → next_header t p ≡ p + span e
unfolding next_header padded add_int
next_header-span t p e s small fits = rw s (ground arith)

search_from-absent :
    (es : List Entry) (fuel : ℕ) (t : Tarfs) (file : List ℕ) (p : ℕ)
    → LaidOut t p es
    → AllChars file
    → NoneNamed file es
    → length es < fuel
    → search_from fuel t file p ≡ some (false, p + span_of es)
unfolding search_from
search_from-absent [] zero t file p l c n h = absurd (omega arith)
search_from-absent (e ∷ es) zero t file p l c n h = absurd (omega arith)
search_from-absent [] (suc fuel) t file p l c n h =
    let past : ltb p t.binary_tarfs_end ≡ false = ground arith in
    rw past (ap (λ q. some (false, q)) (omega arith))
search_from-absent (e ∷ es) (suc fuel) t file p (before, named, chars, sized, small, fits, l) c n
      h =
    let here : ltb p t.binary_tarfs_end ≡ true = ground arith in
    rw (here, named, strcmp-ne e.name file chars c n.0, next_header-span t p e sized small fits)
      (search_from-absent es fuel t file (p + span e) l c n.1 (omega arith)
        ∙ ap (λ q. some (false, q)) (omega arith))

-- A search that ends at the header of the entry at `q`.
abbrev pub Found : Tarfs → Entry → Option (Bool × ℕ) → ℕ → Type 0
Found t e run q =
    (run ≡ some (true, q))
    × (to_integer (t.header q).size ≡ e.size)
    × (e.size < 2 ^ 30)
    × AllChars e.name

pub search_from-Found :
    (es : List Entry) (e : Entry) (more : List Entry) (fuel : ℕ) (t : Tarfs) (p : ℕ)
    → LaidOut t p (es ++ e ∷ more)
    → NoneNamed e.name es
    → length es < fuel
    → Found t e (search_from fuel t e.name p) (p + span_of es)
unfolding search_from
search_from-Found [] e more zero t p l n h = absurd (omega arith)
search_from-Found (x ∷ es) e more zero t p l n h = absurd (omega arith)
search_from-Found [] e more (suc fuel) t p (before, named, chars, sized, small, fits, l) n h =
    let here : ltb p t.binary_tarfs_end ≡ true = ground arith in
    let same : (strcmp e.name e.name == 0) ≡ true =
      eq→== _ 0 ((strcmp-eq e.name e.name chars chars).1 refl) in
    let nothing : p + 0 ≡ p = omega arith in
    rw nothing (rw (here, named, same) refl, sized, small, chars)
search_from-Found (x ∷ es) e more (suc fuel) t p (before, named, chars, sized, small, fits, l) n h =
    let here : ltb p t.binary_tarfs_end ≡ true = ground arith in
    let (run, size, fit, c) = search_from-Found es e more fuel t (p + span x) l n.1 (omega arith) in
    let further : p + span x + span_of es ≡ p + (span x + span_of es) = omega arith in
    rw (← further) (
      rw (here, named, strcmp-ne x.name e.name chars c n.0, next_header-span t p x sized small fits)
          run,
      size,
      fit,
      c,
    )

-- The answer of get_file_address on an entry at `q`.
abbrev pub file_at : Entry → ℕ → ℕ
file_at e q = if ltb 0 e.size then q + 512 else q

-- In an archive with these entries, with more fuel than the entries before, get_file_address answers
-- for the first entry of the name the address of its contents, or of its header if it is empty, and
-- get_dir_address answers its header if it is empty and 0 if not.
pub get_file_address-first :
    (es : List Entry) (e : Entry) (more : List Entry) (fuel : ℕ) (t : Tarfs)
    → LaidOut t t.binary_tarfs_start (es ++ e ∷ more)
    → NoneNamed e.name es
    → length es < fuel
    → (get_file_address fuel t e.name ≡ some (file_at e (t.binary_tarfs_start + span_of es)))
      × (get_dir_address fuel t e.name
          ≡ some (if ltb 0 e.size then 0 else t.binary_tarfs_start + span_of es))
unfolding get_file_address get_dir_address
get_file_address-first es e more fuel t l n h =
    let (run, size, fit, c) = search_from-Found es e more fuel t t.binary_tarfs_start l n h in
    (rw (run, size) (ground arith), rw (run, size) (ground arith))

-- Where no entry has the name, with more fuel than there are entries, both lookups answer 0.
pub get_file_address-absent :
    (es : List Entry) (fuel : ℕ) (t : Tarfs) (file : List ℕ)
    → LaidOut t t.binary_tarfs_start es
    → AllChars file
    → NoneNamed file es
    → length es < fuel
    → (get_file_address fuel t file ≡ some 0) × (get_dir_address fuel t file ≡ some 0)
unfolding get_file_address get_dir_address
get_file_address-absent es fuel t file l c n h =
    let run = search_from-absent es fuel t file t.binary_tarfs_start l c n h in
    (rw run (ground arith), rw run (ground arith))
