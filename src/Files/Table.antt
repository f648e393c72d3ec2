-- ===== src/Files/Table.antt =====
-- The table of descriptors as one list: the loops over its pages (`openFile` and `openDirectory`,
-- sys/tarfs.c) fill the lowest free place of it.
use sbunix_64_bit_operating.Prelude.{
  ℕ, zero, suc, ◌+◌, ◌-◌, ◌*◌, ◌<◌, ◌≡◌, refl, sym, ap, get_or, ◌∙◌, subst, ◌⊎◌, inl, inr, true,
  ◌&&◌, Option, none, some, List, [], ◌∷◌, ◌++◌, arith, ltb, ltb→lt, Bool-cases, length, set,
  replicate, length-append,
}
use sbunix_64_bit_operating.Paging.{Mmu, kmalloc}
use sbunix_64_bit_operating.Files.{
  FileDescriptor, empty, is_unused, FdPage, size_of_descriptor, place_in, Placed, go_on, place,
}
use sbunix_64_bit_operating.Files.Place.{nth, IsTaken, Lowest, AllTaken, place_in_cases}

abbrev pub fds_of : Option FdPage → List FileDescriptor
fds_of none = replicate 5 empty
fds_of (some p) = p.fds

-- All descriptors in the order of their numbers; a page that is NULL stands for five free ones.
abbrev pub flat : List (Option FdPage) → List FileDescriptor
flat [] = []
flat (p ∷ pages) = fds_of p ++ flat pages

abbrev pub AllFull : List (Option FdPage) → Type 0
AllFull [] = Unit {0}
AllFull (p ∷ pages) = (length (fds_of p) ≡ 5) × AllFull pages

pub nth_first : (xs ys : List FileDescriptor) (i : ℕ) → i < length xs → nth (xs ++ ys) i ≡ nth xs i
nth_first [] ys i h = absurd (omega arith)
nth_first (x ∷ xs) ys zero h = refl
nth_first (x ∷ xs) ys (suc i) h = nth_first xs ys i (omega arith)

pub nth_second : (xs ys : List FileDescriptor) (i : ℕ) → nth (xs ++ ys) (length xs + i) ≡ nth ys i
nth_second [] ys i = ap (nth ys) (omega arith)
nth_second (x ∷ xs) ys i =
    let e : suc (length xs) + i ≡ suc (length xs + i) = omega arith in rw e (nth_second xs ys i)

pub set_first :
    (xs ys : List FileDescriptor) (i : ℕ) (f : FileDescriptor)
    → i < length xs
    → set xs i f ++ ys ≡ set (xs ++ ys) i f
set_first [] ys i f h = absurd (omega arith)
set_first (x ∷ xs) ys zero f h = refl
set_first (x ∷ xs) ys (suc i) f h = ap (x ∷◌) (set_first xs ys i f (omega arith))

pub set_second :
    (xs ys : List FileDescriptor) (i : ℕ) (f : FileDescriptor)
    → xs ++ set ys i f ≡ set (xs ++ ys) (length xs + i) f
set_second [] ys i f = ap (λ j. set ys j f) (omega arith)
set_second (x ∷ xs) ys i f =
    let e : suc (length xs) + i ≡ suc (length xs + i) = omega arith in
    rw e (ap (x ∷◌) (set_second xs ys i f))

AllTaken-append :
    (n : ℕ) (xs ys : List FileDescriptor)
    → AllTaken n xs
    → AllTaken (n + length xs) ys
    → AllTaken n (xs ++ ys)
AllTaken-append n [] ys h k j l = let e : n + 0 + j ≡ n + j = omega arith in rw (← e) (k j l)
AllTaken-append n (x ∷ xs) ys h k zero l = h 0 (omega arith)
AllTaken-append n (x ∷ xs) ys h k (suc j) l =
    let e : n + suc j ≡ n + 1 + j = omega arith in
    rw e (
      AllTaken-append (n + 1) xs ys
        (λ i q. let f : n + 1 + i ≡ n + suc i = omega arith in rw f (h (suc i) (omega arith)))
        (λ i q.
          let f : n + 1 + length xs + i ≡ n + suc (length xs) + i = omega arith in rw f (k i q))
        j (omega arith))

-- The addresses of `n` descriptors from `a` on.
abbrev pub places : (n a : ℕ) → List ℕ
places zero a = []
places (suc n) a = a ∷ places n (a + size_of_descriptor)

-- The address of each descriptor of the table, by its number: a place in its page.
abbrev pub addresses : List (Option FdPage) → List ℕ
addresses [] = []
addresses (none ∷ pages) = places 5 0 ++ addresses pages
addresses (some p ∷ pages) = places 5 p.address ++ addresses pages

place_first :
    (n a i : ℕ) (ys : List ℕ) → i < n → a + size_of_descriptor * i ≡ get_or (places n a ++ ys) i 0
place_first zero a i ys h = absurd (omega arith)
place_first (suc n) a zero ys h = omega arith
place_first (suc n) a (suc i) ys h =
    let e : a + size_of_descriptor * suc i ≡ a + size_of_descriptor + size_of_descriptor * i =
      omega arith in
    e ∙ place_first n (a + size_of_descriptor) i ys (omega arith)

place_second : (n a i : ℕ) (ys : List ℕ) → get_or (places n a ++ ys) (n + i) 0 ≡ get_or ys i 0
place_second zero a i ys = ap (λ j. get_or ys j 0) (omega arith)
place_second (suc n) a i ys =
    let e : suc n + i ≡ suc (n + i) = omega arith in
    rw e (place_second n (a + size_of_descriptor) i ys)

-- The lowest place of the table that may be taken is filled, for its own address in `places_of`.
pub record Chosen (make : ℕ → FileDescriptor) (n : ℕ) (fds : List FileDescriptor) (k : ℕ)
    (fds' : List FileDescriptor) (places_of : List ℕ) : Type 0 where
  pub index : ℕ
  pub address : ℕ
  pub number : k ≡ n + index
  pub inside : index < length fds
  pub free : (ltb 2 k && is_unused (nth fds index)) ≡ true
  pub lowest : (j : ℕ) → j < index → IsTaken (n + j) (nth fds j)
  pub own_address : address ≡ get_or places_of index 0
  pub filled : fds' ≡ set fds index (make address)

module _ (make : ℕ → FileDescriptor) where
  Lowest-Chosen :
      (n a k : ℕ) (fds fds' ys : List FileDescriptor) (others : List ℕ)
      → length fds ≡ 5
      → Lowest make n a fds k fds'
      → Chosen make n (fds ++ ys) k (fds' ++ ys) (places 5 a ++ others)
  Lowest-Chosen n a k fds fds' ys others five l = record {
    index = l.index;
    address = a + size_of_descriptor * l.index;
    own_address = place_first 5 a l.index others (omega (arith, l.inside, five));
    number = l.number;
    inside = omega (arith, l.inside, length-append fds ys);
    free = rw (nth_first fds ys l.index l.inside) l.free;
    lowest = λ j h. rw (nth_first fds ys j (omega (arith, h, l.inside))) (l.lowest j h);
    filled = ap (λ zs. zs ++ ys) l.filled ∙ set_first fds ys l.index _ l.inside;
  }

  AllTaken-Chosen :
      (n a k : ℕ) (fds ys ys' : List FileDescriptor) (others : List ℕ)
      → length fds ≡ 5
      → AllTaken n fds
      → Chosen make (n + length fds) ys k ys' others
      → Chosen make n (fds ++ ys) k (fds ++ ys') (places 5 a ++ others)
  AllTaken-Chosen n a k fds ys ys' others five all c = record {
    index = length fds + c.index;
    address = c.address;
    own_address =
        c.own_address
        ∙ sym (place_second 5 a c.index others)
        ∙ ap (λ l. get_or (places 5 a ++ others) (l + c.index) 0) (sym five);
    number = omega (arith, c.number);
    inside = omega (arith, c.inside, length-append fds ys);
    free = rw (nth_second fds ys c.index) c.free;
    lowest = before;
    filled = ap (fds ++◌) c.filled ∙ set_second fds ys c.index (make c.address);
  }
    where
      before : (j : ℕ) → j < length fds + c.index → IsTaken (n + j) (nth (fds ++ ys) j)
      before j h = elim (Bool-cases (ltb j (length fds))) [
        | inl low ↦
            let l : j < length fds = ltb→lt j (length fds) low in
            rw (nth_first fds ys j l) (all j l)
        | inr high ↦
            let e : length fds + (j - length fds) ≡ j = ground (arith, high) in
            let at : n + length fds + (j - length fds) ≡ n + j = ground (arith, high) in
            subst (λ i. IsTaken (n + j) (nth (fds ++ ys) i)) e
              (rw (nth_second fds ys (j - length fds)) (
                subst (λ i. IsTaken i (nth ys (j - length fds))) at
                  (c.lowest (j - length fds) (ground (arith, high)))))
      ]

  -- The search finds no place, or fills the lowest.
  abbrev pub Outcome : ℕ → List (Option FdPage) → Option Placed → Type 0
  Outcome n pages run =
      ((run ≡ none) × AllTaken n (flat pages))
      ⊎ ((r : Placed) × (run ≡ some r)
          × Chosen make n (flat pages) r.number (flat r.pages) (addresses r.pages))

  go_on_cases :
      (page a added : ℕ) (fds : List FileDescriptor) (pages : List (Option FdPage)) (m : Mmu)
      (further : Option Placed)
      → length fds ≡ 5
      → Outcome (5 * (page + 1)) pages further
      → Outcome
          (5 * page)
          (some (record { address = a; fds = fds }) ∷ pages)
          (go_on a fds added (place_in make (5 * page) a fds) pages m further)
  unfolding go_on
  go_on_cases page a added fds pages m further five out =
      elim (place_in_cases make (5 * page) a fds) [
        | inr (k, fds', run, l) ↦ rw run (
            inr (
              _,
              refl,
              Lowest-Chosen (5 * page) a k fds fds' (flat pages) (addresses pages) five l,
            ))
        | inl (run, all) ↦ rw run (behind all out)
      ]
    where
      at : 5 * (page + 1) ≡ 5 * page + length fds
      at = omega (arith, five)

      behind :
          AllTaken (5 * page) fds
          → Outcome (5 * (page + 1)) pages further
          → Outcome
              (5 * page)
              (some (record { address = a; fds = fds }) ∷ pages)
              (go_on a fds added none pages m further)
      behind all (inl (run', all')) = inl (
        rw run' refl,
        AllTaken-append (5 * page) fds (flat pages) all
            (subst (λ i. AllTaken i (flat pages)) at all'),
      )
      behind all (inr (r, run', c)) = inr (
        record r {
          pages = some (record { address = a; fds = fds }) ∷ r.pages;
          added = r.added + added;
        },
        rw run' refl,
        AllTaken-Chosen (5 * page) a r.number fds (flat pages) (flat r.pages) (addresses r.pages)
            five all
            (subst (λ i. Chosen make i (flat pages) r.number (flat r.pages) (addresses r.pages)) at
              c),
      )

  -- The loops over the pages fill the lowest place that may be taken, if there is one.
  pub place_cases :
      (page : ℕ) (pages : List (Option FdPage)) (m : Mmu)
      → AllFull pages
      → Outcome (5 * page) pages (place make page pages m)
  unfolding place
  place_cases page [] m full = inl (refl, λ j h. absurd (omega arith))
  place_cases page (some p ∷ pages) m full =
      go_on_cases page p.address 0 p.fds pages m (place make (page + 1) pages m) full.0
        (place_cases (page + 1) pages m full.1)
  place_cases page (none ∷ pages) m full =
      go_on_cases page (kmalloc m).0 5 (replicate 5 empty) pages (kmalloc m).1
        (place make (page + 1) pages (kmalloc m).1) refl
        (place_cases (page + 1) pages (kmalloc m).1 full.1)
