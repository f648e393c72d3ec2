-- ===== src/Dirents/Names.antt =====
-- The names that the functions behind getDirEntries (sys/tarfs.c) cut.
use sbunix_64_bit_operating.Prelude.{
  ℕ, ◌+◌, ◌-◌, ◌%◌, ◌^◌, ◌≤◌, ◌<◌, ◌≡◌, refl, ap, inl, inr, true, false, some, List, [], ◌∷◌, ◌++◌,
  arith, ltb, ◌==◌, lt→ltb, eq→==, Bool-cases, length,
}
use sbunix_64_bit_operating.Strings.{int_mod}
use sbunix_64_bit_operating.Strings.Compare.{AllChars}
use sbunix_64_bit_operating.Listing.{size_of_dirent, name_in}
use sbunix_64_bit_operating.Listing.Names.{
  child_name, child_name-length, child_name-AllChars, string_in-end,
}
use sbunix_64_bit_operating.Listing.Whole.{dirent}
use sbunix_64_bit_operating.Dirents.{
  end_name, direntry_name, too_small, get_first_direntry, get_sub_direntry,
}

direntry_name-child_name :
    (s : List ℕ) (i count : ℕ)
    → AllChars s
    → i + length s < 255
    → length s < count
    → count < 2 ^ 31
    → direntry_name i count s ≡ child_name s ++ 0 ∷ []
unfolding direntry_name end_name
direntry_name-child_name [] i count a room enough small =
    let inside : ltb i 255 ≡ true = lt→ltb _ _ (omega arith) in rw inside refl
direntry_name-child_name (c ∷ s) i count (low, high, a) room enough small =
    elim (Bool-cases (c == b'/')) [
      | inl y ↦
          let inside : ltb i 255 ≡ true = lt→ltb _ _ (omega arith) in
          let behind : ltb (i + 1) 255 ≡ true = lt→ltb _ _ (omega arith) in
          rw (y, inside, behind) refl
      | inr n ↦
          let less : (count + int_mod - 1) % int_mod ≡ count - 1 = ground arith in
          let left : (count - 1 == 0) ≡ false = ground arith in
          rw (n, less, left)
            (ap (c ∷◌) (
              direntry_name-child_name s (i + 1) (count - 1) a (omega arith) (omega arith)
                (omega arith)))
    ]

-- With room for a structure, an entry below the directory gives the child that it belongs to.
pub get_sub_direntry-dirent :
    (d rest : List ℕ) (count : ℕ)
    → AllChars rest
    → length rest < 255
    → size_of_dirent ≤ count
    → count < 2 ^ 31
    → get_sub_direntry count d (d ++ rest) ≡ some (some (dirent (child_name rest)))
unfolding get_sub_direntry
get_sub_direntry-dirent [] rest count a short room small =
    let enough : too_small count ≡ false = ground arith in
    let fits : ltb (length (child_name rest)) 255 ≡ true =
      lt→ltb _ _ (omega (arith, child_name-length rest)) in
    unfold get_first_direntry name_in in
    rw
      (
        enough,
        direntry_name-child_name rest 0 count a (omega arith) (omega arith) small,
        string_in-end (child_name rest) (child_name-AllChars rest a),
        fits,
      )
      refl
get_sub_direntry-dirent (p ∷ d) rest count a short room small =
    rw (eq→== p p refl) (get_sub_direntry-dirent d rest count a short room small)
