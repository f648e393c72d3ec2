-- ===== src/Directory.antt =====
-- The working directory: `changeDirectory` (sys/tarfs.c), which resolves a path, looks the directory up
-- in the archive and writes it over the value of PWD.
use sbunix_64_bit_operating.Prelude.{
  ℕ, ◌+◌, ◌≤◌, ◌<◌, ◌≡◌, refl, ap, ◌∙◌, Bool, true, false, Option, some, List, [], ◌∷◌, ◌++◌, arith,
  ltb, leb, ◌==◌, if◌then◌else◌, length, ◌>>=◌, drop,
}
use mathlib.Core.List.{foldl}
use sbunix_64_bit_operating.Strings.Compare.{AllChars}
use sbunix_64_bit_operating.Tar.{Tarfs, check_if_directory_present}
use sbunix_64_bit_operating.Tar.Lookup.{
  Entry, LaidOut, NoneNamed, span_of, get_file_address-first, get_file_address-absent,
}
use sbunix_64_bit_operating.Paths.{char_at, start_of, remove_dotslash}
use sbunix_64_bit_operating.Paths.Components.{Component, path_of, go, AllNamed, AllNames, absolute}
use sbunix_64_bit_operating.Paths.Resolve.{remove_dotslash-absolute, path_of-relative}
use sbunix_64_bit_operating.Environ.{
  Environ, getenv, get_cwd, copy_entry, copy_value, store_string, pwd,
}
use sbunix_64_bit_operating.Environ.Entries as Entries
use sbunix_64_bit_operating.Environ.Entries.{
  Variable, AllVariables, environ_of, entry_of, getenv-present, page_of, replace_page, name_before,
}

-- The working directory, which only a relative path reads.
unfoldable pub cwd_for : (src : List ℕ) → Environ → Option (List ℕ)
cwd_for src pages = if char_at 0 src == b'/' then some [] else get_cwd 256 pages

-- Whether the directory was there, and the environment; without PWD there is no result.
unfoldable pub change_directory :
    (fuel : ℕ) → Tarfs → (buf : List ℕ) → Environ → Option (Bool × Environ)
change_directory fuel t buf pages = do
  cwd ← cwd_for buf pages
  dest ← remove_dotslash cwd buf 1
  present ← check_if_directory_present fuel t (drop 1 dest)
  let missing : Option (Bool × Environ) = some (false, pages)
  let written : Option (Bool × Environ) = (do
    env_value ← (← getenv pwd pages)
    pages1 ← store_string 1 env_value dest pages
    some (true, pages1))
  if present then written else missing

-- The argument of a change of directory: a path from the root or from the working directory, and the
-- directory that it leads to.
abbrev pub argument : (from_root : Bool) → List Component → List ℕ
argument from_root cs = if from_root then b'/' ∷ path_of cs else path_of cs

abbrev pub target : (from_root : Bool) → List (List ℕ) → List Component → List (List ℕ)
target from_root stack cs = foldl go (if from_root then [] else stack) cs

abbrev pub working : List (List ℕ) → Variable
working stack = record { name = pwd; value = absolute stack }

-- The variables with the working directory among them.
abbrev pub environ_at : List Variable → List (List ℕ) → List Variable → Environ → Environ
environ_at xs stack ys rest = environ_of (xs ++ working stack ∷ ys) rest

pub pwd-IsVariable : Entries.IsVariable pwd
pwd-IsVariable = omega arith

-- The archive's entry of a directory, whose name has no slash in front.
abbrev pub directory : List (List ℕ) → Entry
directory stack = record { name = drop 1 (absolute stack); size = 0 }

-- A path from the root does not depend on the working directory.
from_root-cwd :
    (cwd cwd' s : List ℕ) → remove_dotslash cwd (b'/' ∷ s) 1 ≡ remove_dotslash cwd' (b'/' ∷ s) 1
unfolding remove_dotslash start_of
from_root-cwd cwd cwd' s = refl

module _ (xs ys : List Variable) (rest : Environ) (a : AllVariables xs)
    (none_before : Entries.NoneNamed pwd xs) where
  get_cwd-absolute :
      (stack : List (List ℕ))
      → length (absolute stack) + 2 ≤ 256
      → get_cwd 256 (environ_at xs stack ys rest) ≡ some (absolute stack)
  unfolding get_cwd copy_entry copy_value
  get_cwd-absolute stack room =
      let fits : leb (length (absolute stack) + 2) 256 ≡ true = ground arith in
      let e : drop 4 (pwd ++ b'=' ∷ absolute stack) ≡ absolute stack = refl in
      rw
        (
          getenv-present xs (working stack) ys rest a pwd-IsVariable none_before,
          page_of xs (working stack) ys rest,
          fits,
        )
        refl

  pub resolved :
      (from_root : Bool) (stack : List (List ℕ)) (cs : List Component)
      → AllNamed cs
      → AllNames stack
      → length (absolute stack) + 2 ≤ 256
      → (cwd : List ℕ) × (cwd_for (argument from_root cs) (environ_at xs stack ys rest) ≡ some cwd)
        × (remove_dotslash cwd (argument from_root cs) 1
            ≡ some (absolute (target from_root stack cs)))
  unfolding cwd_for
  resolved true stack cs n m room = (
    [],
    refl,
    from_root-cwd [] (absolute []) (path_of cs) ∙ (remove_dotslash-absolute cs [] n tt).0,
  )
  resolved false stack cs n m room = (
    absolute stack,
    rw (path_of-relative cs n) (get_cwd-absolute stack room),
    (remove_dotslash-absolute cs stack n m).1,
  )

  -- With PWD at the directory of `stack`, the first entry of the archive with the name of the target
  -- a directory, the archive not at address 0, and the paths short enough for their buffers and for
  -- the page, `changeDirectory` succeeds and puts the target in place of PWD's value; all other
  -- variables are as before.
  pub change_directory-target :
      (from_root : Bool) (stack : List (List ℕ)) (cs : List Component) (t : Tarfs)
      (es more : List Entry) (fuel : ℕ)
      → AllNamed cs
      → AllNames stack
      → length (absolute stack) + 2 ≤ 256
      → length (absolute (target from_root stack cs)) + 5 ≤ 4096
      → 0 < t.binary_tarfs_start
      → LaidOut t t.binary_tarfs_start (es ++ directory (target from_root stack cs) ∷ more)
      → NoneNamed (drop 1 (absolute (target from_root stack cs))) es
      → length es < fuel
      → change_directory fuel t (argument from_root cs) (environ_at xs stack ys rest)
        ≡ some (true, environ_at xs (target from_root stack cs) ys rest)
  unfolding change_directory check_if_directory_present store_string
  change_directory-target from_root stack cs t es more fuel n m room fits above l none_named h =
      let dest = absolute (target from_root stack cs) in
      let (cwd, at, to) = resolved from_root stack cs n m room in
      let env_value = getenv-present xs (working stack) ys rest a pwd-IsVariable none_before in
      let enough : leb (4 + length dest + 1) 4096 ≡ true = ground arith in
      let somewhere : ltb 0 (t.binary_tarfs_start + span_of es) ≡ true = ground arith in
      let e = directory (target from_root stack cs) in
      rw
        (
          at,
          to,
          (get_file_address-first es e more fuel t l none_named h).1,
          somewhere,
          env_value,
          enough,
          page_of xs (working stack) ys rest,
        )
        (ap (λ pages. some (true, pages))
          (replace_page xs (working stack) (working (target from_root stack cs)) ys rest))

  -- Where no entry of the archive has the name of the target, `changeDirectory` answers -1 and changes
  -- nothing.
  pub change_directory-missing :
      (from_root : Bool) (stack : List (List ℕ)) (cs : List Component) (t : Tarfs) (es : List Entry)
      (fuel : ℕ)
      → AllNamed cs
      → AllNames stack
      → length (absolute stack) + 2 ≤ 256
      → AllChars (drop 1 (absolute (target from_root stack cs)))
      → LaidOut t t.binary_tarfs_start es
      → NoneNamed (drop 1 (absolute (target from_root stack cs))) es
      → length es < fuel
      → change_directory fuel t (argument from_root cs) (environ_at xs stack ys rest)
        ≡ some (false, environ_at xs stack ys rest)
  unfolding change_directory check_if_directory_present
  change_directory-missing from_root stack cs t es fuel n m room chars l none_named h =
      let dest = absolute (target from_root stack cs) in
      let (cwd, at, to) = resolved from_root stack cs n m room in
      rw (at, to, (get_file_address-absent es fuel t (drop 1 dest) l chars none_named h).1) refl
