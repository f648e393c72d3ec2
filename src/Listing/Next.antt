-- ===== src/Listing/Next.antt =====
-- One round of readDir (sys/tarfs.c) against the list of the archive's entries.
use sbunix_64_bit_operating.Prelude.{
  ℕ, zero, suc, ◌+◌, ◌<◌, ◌≡◌, refl, sym, ap, subst, ◌≢◌, ◌⊎◌, inl, inr, true, false, Option, none,
  some, List, [], ◌∷◌, ◌++◌, arith, ltb, ◌==◌, ==→eq, Bool-cases, length, length-append,
}
use sbunix_64_bit_operating.Strings.{startswith, strcmp}
use sbunix_64_bit_operating.Strings.Compare.{AllChars, strcmp-eq}
use sbunix_64_bit_operating.Strings.Prefix.{Extends, startswith-Extends}
use sbunix_64_bit_operating.Tar.{Tarfs}
use sbunix_64_bit_operating.Tar.Lookup.{Entry, LaidOut, span, next_header-span}
use sbunix_64_bit_operating.Listing.{get_sub_directory, name_in, list_sub}
use sbunix_64_bit_operating.Listing.Names.{
  child_name, child_name-AllChars, name_in-child_name, get_sub_directory-append,
}

abbrev pub AllShort : List Entry → Type 0
AllShort [] = Unit {0}
AllShort (e ∷ es) = (length e.name < 255) × AllShort es

-- The first child of the directory other than the one before, and the address of its header, for the
-- entries from `p` on; none at the first entry that is not below the directory, and at the end.
abbrev pub NextChild : (d before : List ℕ) → (p : ℕ) → List Entry → Option (List ℕ × ℕ) → Type 0
NextChild d before p [] answer = answer ≡ none
NextChild d before p (e ∷ es) answer =
    ((Extends d e.name → ⊥) × (answer ≡ none))
    ⊎ ((rest : List ℕ) × (d ++ rest ≡ e.name)
        × (((child_name rest ≢ before) × (answer ≡ some (child_name rest, p)))
            ⊎ ((child_name rest ≡ before) × NextChild d before (p + span e) es answer)))

pub AllChars-suffix : (s t : List ℕ) → AllChars (s ++ t) → AllChars t
AllChars-suffix [] t a = a
AllChars-suffix (c ∷ s) t a = AllChars-suffix s t a.2

sub_name :
    (d rest name : List ℕ)
    → d ++ rest ≡ name
    → length name < 255
    → AllChars name
    → name_in (get_sub_directory 4096 d name).1 ≡ some (child_name rest)
sub_name d rest name whole short chars =
    let fits : length rest < 255 = omega (arith, short, ap length whole, length-append d rest) in
    let c = AllChars-suffix d rest (subst AllChars (sym whole) chars) in
    rw (← whole, get_sub_directory-append 4096 d rest) (name_in-child_name rest fits c)

-- The names of the directory's children in the order of the entries, up to the first entry that is not
-- below it; a name is left out where it is like the one before it.
abbrev pub Children : (d before : List ℕ) → List Entry → List (List ℕ) → Type 0
Children d before [] names = names ≡ []
Children d before (e ∷ es) names =
    ((Extends d e.name → ⊥) × (names ≡ []))
    ⊎ ((rest : List ℕ) × (d ++ rest ≡ e.name)
        × (((child_name rest ≡ before) × Children d before es names)
            ⊎ ((child_name rest ≢ before)
                × ((others : List (List ℕ)) × (names ≡ child_name rest ∷ others)
                    × Children d (child_name rest) es others))))

-- The loop over the archive answers, and what it answers is the next child.
pub list_sub-NextChild :
    (es : List Entry) (fuel : ℕ) (t : Tarfs) (d before : List ℕ) (p : ℕ)
    → LaidOut t p es
    → AllShort es
    → AllChars before
    → length es < fuel
    → (answer : Option (List ℕ × ℕ)) × (list_sub fuel t d before p ≡ some answer)
      × NextChild d before p es answer
unfolding list_sub
list_sub-NextChild es zero t d before p l short c h = absurd (omega arith)
list_sub-NextChild [] (suc fuel) t d before p l short c h =
    let past : ltb p t.binary_tarfs_end ≡ false = ground arith in (none, rw past refl, refl)
list_sub-NextChild (e ∷ es) (suc fuel) t d before p (inside, named, chars, sized, small, fits, l)
      (short, shorts) c h =
    let here : ltb p t.binary_tarfs_end ≡ true = ground arith in
    elim (Bool-cases (startswith d e.name == 0)) [
      | inr n ↦ (
        none,
        rw (here, named, n) refl,
        inl (λ x. absurd (ground (arith, n, (startswith-Extends d e.name).1 x)), refl),
      )
      | inl y ↦
          let (rest, whole) = (startswith-Extends d e.name).0 (==→eq _ 0 y) in
          let cut = sub_name d rest e.name whole short chars in
          let name_chars =
            child_name-AllChars rest (AllChars-suffix d rest (subst AllChars (sym whole) chars)) in
          let same = strcmp-eq (child_name rest) before name_chars c in
          elim (Bool-cases (strcmp (child_name rest) before == 0)) [
            | inr n ↦
                let other : child_name rest ≢ before = λ x. absurd (ground (arith, n, same.1 x)) in
                (
                  some (child_name rest, p),
                  rw (here, named, y, cut, n) refl,
                  inr (rest, whole, inl (other, refl)),
                )
            | inl z ↦
                let (answer, run, next) =
                  list_sub-NextChild es fuel t d before (p + span e) l shorts c (omega arith) in
                (
                  answer,
                  rw (here, named, y, cut, z, next_header-span t p e sized small fits) run,
                  inr (rest, whole, inr (same.0 (==→eq _ 0 z), next)),
                )
          ]
    ]

pub NextChild-last :
    (es : List Entry) (d before : List ℕ) (p : ℕ)
    → NextChild d before p es none
    → Children d before es []
NextChild-last [] d before p n = refl
NextChild-last (e ∷ es) d before p (inl (outside, n)) = inl (outside, refl)
NextChild-last (e ∷ es) d before p (inr (rest, whole, inl (other, n))) = absurd cc
NextChild-last (e ∷ es) d before p (inr (rest, whole, inr (same, n))) =
    inr (rest, whole, inl (same, NextChild-last es d before (p + span e) n))

-- Behind the next child the other children follow.
pub NextChild-further :
    (es : List Entry) (t : Tarfs) (d before : List ℕ) (p : ℕ) (name : List ℕ) (q : ℕ)
    → LaidOut t p es
    → AllShort es
    → NextChild d before p es (some (name, q))
    → (x : Entry) × (more : List Entry) × LaidOut t q (x ∷ more)
      × AllShort more
      × AllChars name
      × (length more < length es)
      × ((others : List (List ℕ))
          → Children d name more others
          → Children d before es (name ∷ others))
NextChild-further [] t d before p name q l short n = absurd cc
NextChild-further (e ∷ es) t d before p name q l short (inl (outside, n)) = absurd cc
NextChild-further (e ∷ es) t d before p name q l short (inr (rest, whole, inl (other, n))) =
    let named : child_name rest ≡ name = cc in
    let at : p ≡ q = cc in
    (
      e,
      es,
      subst (λ a. LaidOut t a (e ∷ es)) at l,
      short.1,
      subst AllChars named
          (child_name-AllChars rest (AllChars-suffix d rest (subst AllChars (sym whole) l.2))),
      omega arith,
      λ others c. inr (
        rest,
        whole,
        inr (
          other,
          (
            others,
            ap (λ x. x ∷ others) (sym named),
            subst (λ x. Children d x es others) (sym named) c,
          ),
        ),
      ),
    )
NextChild-further (e ∷ es) t d before p name q l short (inr (rest, whole, inr (same, n))) =
    let (x, more, l', s', c, less, further) =
      NextChild-further es t d before (p + span e) name q l.6 short.1 n in
    (x, more, l', s', c, omega arith, λ others k. inr (rest, whole, inl (same, further others k)))
