-- ===== src/Files/Place.antt =====
-- The search for a free descriptor (`openFile` and `openDirectory`, sys/tarfs.c): it takes the lowest.
use sbunix_64_bit_operating.Prelude.{
  ℕ, zero, suc, ◌+◌, ◌*◌, ◌<◌, ◌≡◌, refl, ap, ◌∙◌, ◌⊎◌, inl, inr, true, false, ◌&&◌, none, some,
  List, [], ◌∷◌, arith, ltb, Bool-cases, length, get_or, set,
}
use sbunix_64_bit_operating.Files.{FileDescriptor, empty, is_unused, size_of_descriptor, place_in}

-- The descriptor `i` of a list, or one that is free behind its end.
abbrev pub nth : List FileDescriptor → ℕ → FileDescriptor
nth fds i = get_or fds i empty

-- A descriptor that may not be taken: reserved, or open.
abbrev pub IsTaken : (n : ℕ) → FileDescriptor → Type 0
IsTaken n f = (ltb 2 n && is_unused f) ≡ false

-- The lowest descriptor of a list that may be taken has been filled.
pub record Lowest (make : ℕ → FileDescriptor) (n a : ℕ) (fds : List FileDescriptor) (k : ℕ)
    (fds' : List FileDescriptor) : Type 0 where
  pub index : ℕ
  pub number : k ≡ n + index
  pub inside : index < length fds
  pub free : (ltb 2 k && is_unused (nth fds index)) ≡ true
  pub lowest : (j : ℕ) → j < index → IsTaken (n + j) (nth fds j)
  pub filled : fds' ≡ set fds index (make (a + size_of_descriptor * index))

abbrev pub AllTaken : (n : ℕ) → List FileDescriptor → Type 0
AllTaken n fds = (j : ℕ) → j < length fds → IsTaken (n + j) (nth fds j)

module _ (make : ℕ → FileDescriptor) where
  pub place_in_cases :
      (n a : ℕ) (fds : List FileDescriptor)
      → ((place_in make n a fds ≡ none) × AllTaken n fds)
        ⊎ ((k : ℕ) × (fds' : List FileDescriptor) × (place_in make n a fds ≡ some (k, fds'))
            × Lowest make n a fds k fds')
  unfolding place_in
  place_in_cases n a [] = inl (refl, λ j h. absurd (omega arith))
  place_in_cases n a (f ∷ fds) = elim (Bool-cases (ltb 2 n && is_unused f)) [
    | inl yes_free ↦ inr (
      n,
      make a ∷ fds,
      rw yes_free refl,
      record {
        index = 0;
        number = omega arith;
        inside = omega arith;
        free = yes_free;
        lowest = λ j h. absurd (omega arith);
        filled = ap (λ b. make b ∷ fds) (omega arith);
      },
    )
    | inr not_free ↦ elim (place_in_cases (n + 1) (a + size_of_descriptor) fds) [
      | inl (run, all) ↦ inl (rw (not_free, run) refl, taken not_free all)
      | inr (k, fds', run, l) ↦ inr (
        k,
        f ∷ fds',
        rw (not_free, run) refl,
        record {
          index = suc l.index;
          number = omega (arith, l.number);
          inside = omega (arith, l.inside);
          free = l.free;
          lowest = below not_free l;
          filled = ap (f ∷◌) l.filled ∙ ap (λ b. f ∷ set fds l.index (make b)) (omega arith);
        },
      )
    ]
  ]
    where
      taken :
          IsTaken n f
          → ((j : ℕ) → j < length fds → IsTaken (n + 1 + j) (nth fds j))
          → (j : ℕ) → j < length (f ∷ fds)
          → IsTaken (n + j) (nth (f ∷ fds) j)
      taken here all zero h = let e : n + 0 ≡ n = omega arith in rw e here
      taken here all (suc j) h =
          let e : n + suc j ≡ n + 1 + j = omega arith in rw e (all j (omega arith))

      below :
          IsTaken n f
          → {k : ℕ} {fds' : List FileDescriptor}
          → (l : Lowest make (n + 1) (a + size_of_descriptor) fds k fds') → (j : ℕ)
          → j < suc l.index
          → IsTaken (n + j) (nth (f ∷ fds) j)
      below here l zero h = let e : n + 0 ≡ n = omega arith in rw e here
      below here l (suc j) h =
          let e : n + suc j ≡ n + 1 + j = omega arith in rw e (l.lowest j (omega arith))
