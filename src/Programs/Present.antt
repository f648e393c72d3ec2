-- ===== src/Programs/Present.antt =====
-- Whether the archive has a file, as the lookups of `get_executable_path` (sys/tarfs.c) see it, and the
-- first of several names that it has.
use sbunix_64_bit_operating.Prelude.{
  ℕ, ◌+◌, ◌≤◌, ◌<◌, ◌≡◌, refl, sym, ap, subst, ◌≢◌, ◌⊎◌, inl, inr, Option, none, some, List, [],
  ◌∷◌, ◌++◌, arith, ◌==◌, ==→eq, Bool-cases, length,
}
use sbunix_64_bit_operating.Strings.{strcmp}
use sbunix_64_bit_operating.Strings.Compare.{AllChars, strcmp-eq}
use sbunix_64_bit_operating.Tar.{Tarfs, get_file_address}
use sbunix_64_bit_operating.Tar.Lookup.{
  Entry, LaidOut, NoneNamed, span, span_of, file_at, get_file_address-first,
  get_file_address-absent,
}

-- The archive has an entry of the name.
abbrev pub Present : List ℕ → List Entry → Type 0
Present file [] = ⊥
Present file (e ∷ es) = (e.name ≡ file) ⊎ ((e.name ≢ file) × Present file es)

-- The answer is the first of the names that the archive has, or none of them.
abbrev pub FirstPresent : List Entry → List (List ℕ) → Option (List ℕ) → Type 0
FirstPresent es [] answer = answer ≡ none
FirstPresent es (file ∷ files) answer =
    (Present file es × (answer ≡ some file)) ⊎ (NoneNamed file es × FirstPresent es files answer)

Present-split :
    (file : List ℕ) (es : List Entry)
    → Present file es
    → (before : List Entry) × (e : Entry) × (more : List Entry) × (es ≡ before ++ e ∷ more)
      × (e.name ≡ file)
      × NoneNamed file before
      × (length before ≤ length es)
Present-split file [] p = absurd p
Present-split file (e ∷ es) (inl same) = ([], e, es, refl, same, tt, omega arith)
Present-split file (e ∷ es) (inr (other, p)) =
    let (before, x, more, whole, same, none_before, short) = Present-split file es p in
    (e ∷ before, x, more, ap (e ∷◌) whole, same, (other, none_before), omega arith)

file_cases :
    (file : List ℕ) (es : List Entry) (t : Tarfs) (p : ℕ)
    → AllChars file
    → LaidOut t p es
    → Present file es ⊎ NoneNamed file es
file_cases file [] t p c l = inr tt
file_cases file (e ∷ es) t p c (before, named, chars, sized, small, fits, l) =
    elim (Bool-cases (strcmp e.name file == 0)) [
      | inl y ↦ inl (inl ((strcmp-eq e.name file chars c).0 (==→eq _ 0 y)))
      | inr n ↦
          let other : e.name ≢ file =
            λ same. absurd (ground (arith, n, (strcmp-eq e.name file chars c).1 same)) in
          elim (file_cases file es t (p + span e) c l) [
            | inl q ↦ inl (inr (other, q))
            | inr q ↦ inr (other, q)
          ]
    ]

-- The lookup of a name answers, and 0 just where there is no such entry.
pub get_file_address-Present :
    (file : List ℕ) (es : List Entry) (fuel : ℕ) (t : Tarfs)
    → AllChars file
    → LaidOut t t.binary_tarfs_start es
    → 0 < t.binary_tarfs_start
    → length es < fuel
    → (a : ℕ) × (get_file_address fuel t file ≡ some a)
      × ((Present file es × (0 < a)) ⊎ (NoneNamed file es × (a ≡ 0)))
get_file_address-Present file es fuel t c l above h =
    elim (file_cases file es t t.binary_tarfs_start c l) [
      | inl p ↦
          let (before, e, more, whole, same, none_before, short) = Present-split file es p in
          let l' : LaidOut t t.binary_tarfs_start (before ++ e ∷ more) =
            subst (LaidOut t t.binary_tarfs_start) whole l in
          let n' : NoneNamed e.name before =
            subst (λ f. NoneNamed f before) (sym same) none_before in
          let run = (get_file_address-first before e more fuel t l' n' (omega arith)).0 in
          let place = file_at e (t.binary_tarfs_start + span_of before) in
          let somewhere : 0 < place = ground arith in
          (place, subst (λ f. get_file_address fuel t f ≡ some place) same run, inl (p, somewhere))
      | inr n ↦ (0, (get_file_address-absent es fuel t file l c n h).0, inr (n, refl))
    ]
