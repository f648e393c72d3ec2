-- ===== src/Files/Calls.antt =====
-- The system calls on descriptors (sys/tarfs.c) on the table as one list.
use sbunix_64_bit_operating.Prelude.{
  ℕ, zero, suc, ◌+◌, ◌*◌, ◌/◌, ◌%◌, ◌≤◌, ◌<◌, ◌≡◌, refl, sym, ap, ◌∙◌, subst, inl, inr, true,
  Option, none, some, List, [], ◌∷◌, ◌++◌, arith, ltb, leb, lt→ltb, leb→le, Bool-cases, length,
  get_or, set, length-append,
}
use sbunix_64_bit_operating.Paging.{Mmu}
use sbunix_64_bit_operating.Files.{
  FileDescriptor, is_unused, FdPage, Files, end_open, fill_descriptor, get_fd_address,
  set_descriptor, close_file,
}
use sbunix_64_bit_operating.Files.Place.{nth, IsTaken, AllTaken}
use sbunix_64_bit_operating.Files.Table.{
  flat, fds_of, AllFull, addresses, Chosen, place_cases, nth_first, nth_second, set_first,
  set_second,
}

-- The 20 pages, each with five descriptors.
pub record IsTable (files : Files) : Type 0 where
  pub full : AllFull files.fd_pointers
  pub pages : length files.fd_pointers ≡ 20

abbrev pub descriptors : Files → List FileDescriptor
descriptors files = flat files.fd_pointers

pub length-flat :
    (pages : List (Option FdPage)) → AllFull pages → length (flat pages) ≡ 5 * length pages
length-flat [] f = refl
length-flat (p ∷ pages) f =
    omega (arith, length-append (fds_of p) (flat pages), f.0, length-flat pages f.1)

-- The descriptor that is filled: open at the address, with the name.
abbrev pub opened : (start : ℕ) (name : List ℕ) (dirp : ℕ → ℕ) → ℕ → FileDescriptor
opened start name dirp a = record {
  start = start;
  offset = start;
  d_prev_dir = [];
  name = name;
  d_dirp = dirp a;
}

-- Where the number g, which is not reserved, is free, the lowest such number is given out, its
-- descriptor opened for its own address, and every other descriptor kept.
pub fill_descriptor-Chosen :
    (start : ℕ) (name : List ℕ) (dirp : ℕ → ℕ) (files : Files) (m : Mmu) (g : ℕ)
    → IsTable files
    → length name < 255
    → 2 < g
    → g < 100
    → is_unused (nth (descriptors files) g) ≡ true
    → (n : ℕ) × (files' : Files) × (m' : Mmu) × (fill_descriptor start name dirp files m
        ≡ some (some n, files', m'))
      × (n ≤ g)
      × Chosen
          (opened start name dirp)
          0
          (descriptors files)
          n
          (descriptors files')
          (addresses files'.fd_pointers)
unfolding fill_descriptor end_open
fill_descriptor-Chosen start name dirp files m g t short low high free =
    elim (place_cases (opened start name dirp) 0 files.fd_pointers m t.full) [
      | inl (run, all) ↦ absurd (taken (all g inside))
      | inr (r, run, c) ↦ (
        r.number,
        record files { fd_pointers = r.pages; fd_count = files.fd_count + r.added },
        r.mmu,
        rw (lt→ltb (length name) 255 short, run) refl,
        at_most c,
        c,
      )
    ]
  where
    inside : g < length (descriptors files)
    inside = omega (arith, length-flat files.fd_pointers t.full, t.pages)

    taken : IsTaken (0 + g) (nth (descriptors files) g) → ⊥
    taken h = ground (arith, h, free)

    at_most :
        {n : ℕ} {fds' : List FileDescriptor} {places_of : List ℕ}
        → Chosen (opened start name dirp) 0 (descriptors files) n fds' places_of
        → n ≤ g
    at_most {n} c = elim (Bool-cases (leb n g)) [
      | inl le ↦ leb→le n g le
      | inr gt ↦ absurd (taken (c.lowest g (ground (arith, gt, c.number))))
    ]

-- With all numbers that are not reserved open, nothing is opened and -1 is the answer.
pub fill_descriptor-full :
    (start : ℕ) (name : List ℕ) (dirp : ℕ → ℕ) (files : Files) (m : Mmu)
    → IsTable files
    → length name < 255
    → AllTaken 0 (descriptors files)
    → fill_descriptor start name dirp files m ≡ some (none, files, m)
unfolding fill_descriptor end_open
fill_descriptor-full start name dirp files m t short all =
    elim (place_cases (opened start name dirp) 0 files.fd_pointers m t.full) [
      | inl (run, _) ↦ rw (lt→ltb (length name) 255 short, run) refl
      | inr (r, run, c) ↦
          let free = c.free in
          let none_free = all c.index c.inside in
          let n = c.number in absurd (ground (arith, free, none_free, n))
    ]

-- A descriptor of a page is the one of its number in the list.
nth-flat :
    (pages : List (Option FdPage)) (i j : ℕ)
    → AllFull pages
    → i < length pages
    → j < 5
    → nth (flat pages) (5 * i + j) ≡ nth (fds_of (get_or pages i none)) j
nth-flat [] i j full h l = absurd (omega arith)
nth-flat (q ∷ pages) zero j full h l =
    let e : 5 * 0 + j ≡ j = omega arith in
    rw e (nth_first (fds_of q) (flat pages) j (omega (arith, l, full.0)))
nth-flat (q ∷ pages) (suc i) j full h l =
    let e : 5 * suc i + j ≡ length (fds_of q) + (5 * i + j) = omega (arith, full.0) in
    rw e
      (nth_second (fds_of q) (flat pages) (5 * i + j) ∙ nth-flat pages i j full.1 (omega arith) l)

flat-set :
    (pages : List (Option FdPage)) (i j : ℕ) (p : FdPage) (f : FileDescriptor)
    → AllFull pages
    → j < 5
    → get_or pages i none ≡ some p
    → flat (set pages i (some (record p { fds = set p.fds j f }))) ≡ set (flat pages) (5 * i + j) f
flat-set [] i j p f full l h = absurd (cc)
flat-set (none ∷ pages) zero j p f full l h = absurd (cc)
flat-set (some q ∷ pages) zero j p f full l h =
    let e : 5 * 0 + j ≡ j = omega arith in
    let same : p ≡ q = cc in
    rw (e, same) (set_first q.fds (flat pages) j f (omega (arith, l, full.0)))
flat-set (q ∷ pages) (suc i) j p f full l h =
    let e : 5 * suc i + j ≡ length (fds_of q) + (5 * i + j) = omega (arith, full.0) in
    rw e (
      ap (fds_of q ++◌) (flat-set pages i j p f full.1 l h)
      ∙ set_second (fds_of q) (flat pages) (5 * i + j) f)

pub set_descriptor-flat :
    (fd : ℕ) (p : FdPage) (f : FileDescriptor) (files : Files)
    → IsTable files
    → get_or files.fd_pointers (fd / 5) none ≡ some p
    → descriptors (set_descriptor fd p f files) ≡ set (descriptors files) fd f
unfolding set_descriptor
set_descriptor-flat fd p f files t h =
    flat-set files.fd_pointers (fd / 5) (fd % 5) p f t.full (omega arith) h
    ∙ ap (λ n. set (descriptors files) n f) (omega arith)

pub descriptor_of :
    (fd : ℕ) (p : FdPage) (files : Files)
    → IsTable files
    → fd < 100
    → get_or files.fd_pointers (fd / 5) none ≡ some p
    → nth p.fds (fd % 5) ≡ nth (descriptors files) fd
descriptor_of fd p files t h e =
    let there =
      nth-flat files.fd_pointers (fd / 5) (fd % 5) t.full (omega (arith, t.pages)) (omega arith) in
    let n : 5 * (fd / 5) + fd % 5 ≡ fd = omega arith in
    let page : fds_of (get_or files.fd_pointers (fd / 5) none) ≡ p.fds = ap fds_of e in
    sym (
      subst (λ k. nth (descriptors files) k ≡ nth p.fds (fd % 5)) n
        (there ∙ ap (λ fds. nth fds (fd % 5)) page))

-- On a number below 100 whose page is there, closeFile answers 0 and frees that descriptor alone.
pub close_file-frees :
    (fd : ℕ) (p : FdPage) (files : Files)
    → IsTable files
    → fd < 100
    → get_or files.fd_pointers (fd / 5) none ≡ some p
    → (files' : Files) × (close_file fd files ≡ some (0, files'))
      × (descriptors files'
          ≡ set (descriptors files) fd (record (nth (descriptors files) fd) { name = [] }))
unfolding close_file get_fd_address
close_file-frees fd p files t h e =
    let inside : ltb (fd / 5) 20 ≡ true = ground arith in
    let f = record (nth p.fds (fd % 5)) { name = [] } in
    (
      set_descriptor fd p f files,
      rw (inside, e) refl,
      set_descriptor-flat fd p f files t e
          ∙ ap (λ g. set (descriptors files) fd (record g { name = [] }))
              (descriptor_of fd p files t h e),
    )
