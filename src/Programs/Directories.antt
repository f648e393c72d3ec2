-- ===== src/Programs/Directories.antt =====
-- The directories of PATH, and how the loop of `get_executable_path` (sys/tarfs.c) cuts them out of its
-- value and puts the name of a file behind them.
use sbunix_64_bit_operating.Prelude.{
  ℕ, ◌≤◌, ◌<◌, ◌≡◌, refl, sym, ap, ◌∙◌, subst, ◌≢◌, Bool, true, false, ◌||◌, some, List, [], ◌∷◌,
  ◌++◌, arith, ◌==◌, ne→==, length, length-append, drop,
}
use mathlib.Core.List.{append_assoc, append-nil}
use sbunix_64_bit_operating.Strings.Compare.{AllChars}
use sbunix_64_bit_operating.Paths.{push_all, end_with_slash}
use sbunix_64_bit_operating.Paths.Components.{
  AllNames, absolute, reversed_path, push_all-append, push_all-push_all, push_all-absolute,
  push_all-reversed_path,
}
use sbunix_64_bit_operating.Paths.Resolve.{end_with_slash-push_all, end_with_slash-reversed}
use sbunix_64_bit_operating.Programs.{next_directory, in_directory}

-- A directory of PATH, and whether it stands there with a slash at its end. The root always has one.
pub record SearchDirectory : Type 0 where
  pub stack : List (List ℕ)
  pub slash : Bool

abbrev written_as : List (List ℕ) → Bool → List ℕ
written_as [] slash = absolute []
written_as (d ∷ stack) true = absolute (d ∷ stack)
written_as (d ∷ stack) false = absolute stack ++ d

abbrev pub written : SearchDirectory → List ℕ
written d = written_as d.stack d.slash

-- The value of PATH.
abbrev pub path_value : List SearchDirectory → List ℕ
path_value [] = []
path_value (d ∷ []) = written d
path_value (d ∷ e ∷ ds) = written d ++ b':' ∷ path_value (e ∷ ds)

-- The file of the name in a directory, as the archive names it.
abbrev pub program_in : List ℕ → List (List ℕ) → List ℕ
program_in f stack = drop 1 (absolute stack ++ f)

abbrev pub NoColon : List ℕ → Type 0
NoColon [] = Unit {0}
NoColon (c ∷ s) = (c ≢ b':') × NoColon s

abbrev pub AllSearchable : List SearchDirectory → Type 0
AllSearchable [] = Unit {0}
AllSearchable (d ∷ ds) = AllNames d.stack × NoColon (absolute d.stack) × AllSearchable ds

AllChars-append : (s t : List ℕ) → AllChars s → AllChars t → AllChars (s ++ t)
AllChars-append [] t a b = b
AllChars-append (c ∷ s) t (low, high, a) b = (low, high, AllChars-append s t a b)

AllChars-prefix : (s t : List ℕ) → AllChars (s ++ t) → AllChars s
AllChars-prefix [] t a = tt
AllChars-prefix (c ∷ s) t (low, high, a) = (low, high, AllChars-prefix s t a)

NoColon-prefix : (s t : List ℕ) → NoColon (s ++ t) → NoColon s
NoColon-prefix [] t n = tt
NoColon-prefix (c ∷ s) t (n, m) = (n, NoColon-prefix s t m)

absolute-AllChars : (stack : List (List ℕ)) → AllNames stack → AllChars (absolute stack)
absolute-AllChars [] a = omega arith
absolute-AllChars (d ∷ stack) (n, a) =
    AllChars-append (absolute stack) (d ++ b'/' ∷ []) (absolute-AllChars stack a)
      (AllChars-append d (b'/' ∷ []) n.1 (omega arith))

pub program_in-AllChars :
    (f : List ℕ) (stack : List (List ℕ))
    → AllChars f
    → AllNames stack
    → AllChars (program_in f stack)
program_in-AllChars f stack c a =
    without (absolute stack ++ f) (AllChars-append (absolute stack) f (absolute-AllChars stack a) c)
  where
    without : (s : List ℕ) → AllChars s → AllChars (drop 1 s)
    without [] a = tt
    without (c ∷ s) a = a.2

-- What the loop up to a colon needs of a directory.
pub written-AllChars-NoColon :
    (d : SearchDirectory) → AllSearchable (d ∷ []) → AllChars (written d) × NoColon (written d)
written-AllChars-NoColon d a = of d.stack d.slash a.0 a.1
  where
    of :
        (stack : List (List ℕ)) (slash : Bool)
        → AllNames stack
        → NoColon (absolute stack)
        → AllChars (written_as stack slash) × NoColon (written_as stack slash)
    of [] slash a n = (absolute-AllChars [] a, n)
    of (d ∷ stack) true a n = (absolute-AllChars (d ∷ stack) a, n)
    of (d ∷ stack) false a n =
        let cut = sym (append_assoc (absolute stack) d (b'/' ∷ [])) in
        (
          AllChars-prefix (absolute stack ++ d) (b'/' ∷ [])
              (subst AllChars cut (absolute-AllChars (d ∷ stack) a)),
          NoColon-prefix (absolute stack ++ d) (b'/' ∷ []) (subst NoColon cut n),
        )

pub next_directory-written :
    (s : List ℕ) (c : ℕ) (more : List ℕ)
    → AllChars s
    → NoColon s
    → ((c == b':') || (c == 0)) ≡ true
    → next_directory (s ++ c ∷ more) ≡ some (s, c ∷ more)
unfolding next_directory
next_directory-written [] c more a n stop = rw stop refl
next_directory-written (x ∷ s) c more (low, high, a) (n, m) stop =
    rw (next_directory-written s c more a m stop, ne→== x b':' n, ne→== x 0 (omega arith)) refl

in_directory-reversed :
    (s f : List ℕ) (stack : List (List ℕ))
    → end_with_slash (push_all s []) ≡ some (reversed_path stack)
    → in_directory s f ≡ some (absolute stack ++ f)
unfolding in_directory
in_directory-reversed s f stack e = rw e (
    ap some (
      push_all-push_all f (reversed_path stack) []
      ∙ push_all-reversed_path stack (f ++ [])
      ∙ ap (absolute stack ++◌) (append-nil f)))

pub in_directory-written :
    (d : SearchDirectory) (f : List ℕ)
    → AllNames d.stack
    → in_directory (written d) f ≡ some (absolute d.stack ++ f)
in_directory-written d f a = in_directory-reversed (written d) f d.stack (ends d.stack d.slash a)
  where
    ends :
        (stack : List (List ℕ)) (slash : Bool)
        → AllNames stack
        → end_with_slash (push_all (written_as stack slash) []) ≡ some (reversed_path stack)
    ends [] slash a = rw (push_all-absolute []) (end_with_slash-reversed [])
    ends (d ∷ stack) true a =
        rw (push_all-absolute (d ∷ stack)) (end_with_slash-reversed (d ∷ stack))
    ends ([] ∷ stack) false a = absurd (a.0.0 refl)
    ends ((c ∷ s) ∷ stack) false a =
        rw (push_all-append (absolute stack) (c ∷ s) [], push_all-absolute stack)
          (unfold push_all in end_with_slash-push_all c s (reversed_path stack) a.0.2.0 a.0.2.1)

absolute-pos : (stack : List (List ℕ)) → 0 < length (absolute stack)
absolute-pos [] = omega arith
absolute-pos (d ∷ stack) =
    omega (arith, absolute-pos stack, length-append (absolute stack) (d ++ b'/' ∷ []))

-- The value has a byte for each directory at least.
pub path_value-length : (ds : List SearchDirectory) → length ds ≤ length (path_value ds)
path_value-length [] = omega arith
path_value-length (d ∷ []) = filled d.stack d.slash
  where
    filled : (stack : List (List ℕ)) (slash : Bool) → 1 ≤ length (written_as stack slash)
    filled [] slash = absolute-pos []
    filled (d ∷ stack) true = absolute-pos (d ∷ stack)
    filled (d ∷ stack) false = omega (arith, absolute-pos stack, length-append (absolute stack) d)
path_value-length (d ∷ e ∷ ds) =
    omega
      (arith, path_value-length (e ∷ ds), length-append (written d) (b':' ∷ path_value (e ∷ ds)))
