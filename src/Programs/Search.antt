-- ===== src/Programs/Search.antt =====
-- `get_executable_path` (sys/tarfs.c) against the list of the places where a program may be.
use sbunix_64_bit_operating.Prelude.{
  ℕ, zero, suc, ◌<◌, ◌≡◌, refl, sym, ap, ◌∙◌, subst, inl, inr, true, false, ◌||◌, Option, none,
  some, List, [], ◌∷◌, ◌++◌, map, arith, ltb, ◌==◌, if◌then◌else◌, ne→==, length, drop,
}
use mathlib.Core.List.{append_assoc, append-nil}
use sbunix_64_bit_operating.Strings.Compare.{AllChars}
use sbunix_64_bit_operating.Tar.{Tarfs, get_file_address}
use sbunix_64_bit_operating.Tar.Lookup.{Entry, LaidOut}
use sbunix_64_bit_operating.Paths.{push_all, end_with_slash, resolve, start_of, remove_dotslash}
use sbunix_64_bit_operating.Paths.Components.{
  named, IsName, AllNames, absolute, reversed_path, push_all-push_all, push_all-absolute,
  push_all-reversed_path,
}
use sbunix_64_bit_operating.Paths.Resolve.{
  round_last_name, resolve-round, end_with_slash-reversed, path_of-relative,
}
use sbunix_64_bit_operating.Environ.{Environ, get_cwd, get_path}
use sbunix_64_bit_operating.Directory.{cwd_for}
use sbunix_64_bit_operating.Programs.{in_directory, search_path, get_executable_path}
use sbunix_64_bit_operating.Programs.Present.{FirstPresent, get_file_address-Present}
use sbunix_64_bit_operating.Programs.Directories.{
  SearchDirectory, written, path_value, program_in, NoColon, AllSearchable, next_directory-written,
  in_directory-written, program_in-AllChars, written-AllChars-NoColon, path_value-length,
}

-- The name of a program resolves to the file of that name in the working directory.
remove_dotslash-name :
    (f : List ℕ) (stack : List (List ℕ))
    → IsName f
    → remove_dotslash (absolute stack) f 512 ≡ some (absolute stack ++ f)
unfolding remove_dotslash start_of
remove_dotslash-name [] stack n = absurd (n.0 refl)
remove_dotslash-name (c ∷ s) stack n =
    let output = push_all (c ∷ s) (reversed_path stack) in
    let run : resolve (suc (length (c ∷ s))) (c ∷ s) (reversed_path stack) ≡ some output =
      resolve-round (length (c ∷ s)) (c ∷ s) (reversed_path stack) (omega arith)
        (round_last_name (c ∷ s) (reversed_path stack) n)
      ∙ (unfold resolve in refl) in
    rw (ne→== c b'/' n.2.0, push_all-absolute stack, end_with_slash-reversed stack, run)
      (ap some (
        push_all-push_all (c ∷ s) (reversed_path stack) []
        ∙ push_all-reversed_path stack ((c ∷ s) ++ [])
        ∙ ap (absolute stack ++◌) (append-nil (c ∷ s))))

module _ (es : List Entry) (fuel : ℕ) (t : Tarfs) (f : List ℕ) (chars : AllChars f)
    (l : LaidOut t t.binary_tarfs_start es) (above : 0 < t.binary_tarfs_start)
    (enough : length es < fuel) where
  -- A run that answers the first of the names that the archive has.
  abbrev Searches : Option (Option (List ℕ)) → List (List ℕ) → Type 0
  Searches run names =
      (answer : Option (List ℕ)) × (run ≡ some answer) × FirstPresent es names answer

  search_path-turn :
      (rounds : ℕ) (s : List ℕ) (c : ℕ) (more path : List ℕ) {a : ℕ}
      → AllChars s
      → NoColon s
      → ((c == b':') || (c == 0)) ≡ true
      → in_directory s f ≡ some path
      → get_file_address fuel t (drop 1 path) ≡ some a
      → search_path (suc rounds) fuel t f (s ++ c ∷ more) ≡ (
          let further = search_path rounds fuel t f more in
          if a == 0 then further else some (some (drop 1 path)))
  unfolding search_path
  search_path-turn rounds [] c more path a n stop inside there =
      absurd (unfold in_directory end_with_slash push_all in cc)
  search_path-turn rounds (x ∷ s) c more path a n stop inside there =
      rw
        (
          ne→== x 0 (omega (arith, a)),
          next_directory-written (x ∷ s) c more a n stop,
          inside,
          there,
        )
        refl

  search_path-Searches :
      (rounds : ℕ) (d : SearchDirectory) (c : ℕ) (more : List ℕ) (names : List (List ℕ))
      → AllSearchable (d ∷ [])
      → ((c == b':') || (c == 0)) ≡ true
      → Searches (search_path rounds fuel t f more) names
      → Searches
          (search_path (suc rounds) fuel t f (written d ++ c ∷ more))
          (program_in f d.stack ∷ names)
  search_path-Searches rounds d c more names a stop (answer, run, first) =
      let (c', n) = written-AllChars-NoColon d a in
      let file = program_in f d.stack in
      let (place, there, found) =
        get_file_address-Present file es fuel t (program_in-AllChars f d.stack chars a.0) l above
          enough in
      let turn =
        search_path-turn rounds (written d) c more (absolute d.stack ++ f) c' n stop
          (in_directory-written d f a.0) there in
      elim found [
        | inl (present, somewhere) ↦
            let e : (place == 0) ≡ false = ground arith in
            (some file, turn ∙ rw e refl, inl (present, refl))
        | inr (absent, nowhere) ↦
            let e : (place == 0) ≡ true = ground arith in
            (answer, turn ∙ rw e run, inr (absent, first))
      ]

  search_path-path_value :
      (ds : List SearchDirectory) (rounds : ℕ) (junk : List ℕ)
      → AllSearchable ds
      → length ds < rounds
      → Searches
          (search_path rounds fuel t f (path_value ds ++ 0 ∷ 0 ∷ junk))
          (map (λ d. program_in f d.stack) ds)
  search_path-path_value ds zero junk a h = absurd (omega arith)
  search_path-path_value [] (suc rounds) junk a h = (none, unfold search_path in refl, refl)
  search_path-path_value (d ∷ []) (suc zero) junk a h = absurd (omega arith)
  search_path-path_value (d ∷ []) (suc (suc rounds)) junk a h =
      search_path-Searches (suc rounds) d 0 (0 ∷ junk) [] a refl
        (none, unfold search_path in refl, refl)
  search_path-path_value (d ∷ e ∷ ds) (suc rounds) junk (names, n, a) h =
      let further = search_path-path_value (e ∷ ds) rounds junk a (omega arith) in
      let whole = append_assoc (written d) (b':' ∷ path_value (e ∷ ds)) (0 ∷ 0 ∷ junk) in
      subst
        (λ text.
          Searches (search_path (suc rounds) fuel t f text)
            (map (λ d. program_in f d.stack) (d ∷ e ∷ ds)))
        (sym whole)
        (search_path-Searches rounds d b':' (path_value (e ∷ ds) ++ 0 ∷ 0 ∷ junk)
          (map (λ d. program_in f d.stack) (e ∷ ds)) (names, n, tt) refl further)

  -- With PWD at the directory of `stack` and PATH the list `ds`, the name of a program is looked up in
  -- the working directory first and then in the directories of PATH in their order: the answer is the
  -- first of these files that the archive has, and NULL if it has none of them. The byte behind PATH's
  -- NUL in the buffer, which nothing has written, is taken to be 0; the archive is not at address 0.
  pub get_executable_path-FirstPresent :
      (pages : Environ) (stack : List (List ℕ)) (ds : List SearchDirectory) (junk : List ℕ)
      → IsName f
      → AllNames stack
      → AllSearchable ds
      → get_cwd 256 pages ≡ some (absolute stack)
      → get_path 512 pages ≡ some (path_value ds)
      → (answer : Option (List ℕ)) × (get_executable_path fuel t pages (0 ∷ junk) f ≡ some answer)
        × FirstPresent es (program_in f stack ∷ map (λ d. program_in f d.stack) ds) answer
  unfolding get_executable_path cwd_for
  get_executable_path-FirstPresent pages stack ds junk n a searchable at value =
      let file = program_in f stack in
      let relative = path_of-relative (named f ∷ []) (n, tt) in
      let (place, there, found) =
        get_file_address-Present file es fuel t (program_in-AllChars f stack chars a) l above
          enough in
      let (answer, run, first) =
        search_path-path_value ds (suc (length (path_value ds))) junk searchable
          (omega (arith, path_value-length ds)) in
      elim found [
        | inl (present, somewhere) ↦
            let e : ltb 0 place ≡ true = ground arith in
            (
              some file,
              rw (relative, at, remove_dotslash-name f stack n, there, e) refl,
              inl (present, refl),
            )
        | inr (absent, nowhere) ↦
            let e : ltb 0 place ≡ false = ground arith in
            (
              answer,
              rw (relative, at, remove_dotslash-name f stack n, there, e, value) run,
              inr (absent, first),
            )
      ]
