-- ===== src/Listing/Handle.antt =====
-- The handle of a directory (`get_fd`, sys/tarfs.c) while its descriptor is written.
use sbunix_64_bit_operating.Prelude.{
  ℕ, zero, suc, ◌+◌, ◌*◌, ◌/◌, ◌%◌, ◌<◌, ◌≡◌, refl, ap, ◌∙◌, true, Option, none, some, List, [],
  ◌∷◌, arith, ltb, lt→ltb, length, get_or, set, length-set, get_or-set_self,
}
use sbunix_64_bit_operating.Files.{
  FileDescriptor, empty, FdPage, Files, get_fd_address, set_descriptor, get_fd, get_fd_from,
  find_dirp,
}

find_dirp-set :
    (dirp n j : ℕ) (fds : List FileDescriptor) (f : FileDescriptor)
    → f.d_dirp ≡ (get_or fds j empty).d_dirp
    → find_dirp dirp n (set fds j f) ≡ find_dirp dirp n fds
unfolding find_dirp
find_dirp-set dirp n j [] f e = refl
find_dirp-set dirp n zero (g ∷ fds) f e = rw e refl
find_dirp-set dirp n (suc j) (g ∷ fds) f e = rw (find_dirp-set dirp (n + 1) j fds f e) refl

get_fd_from-same :
    (dirp page left : ℕ) (pages pages' : List (Option FdPage)) (p p' : FdPage)
    → find_dirp dirp (5 * page) p'.fds ≡ find_dirp dirp (5 * page) p.fds
    → get_fd_from dirp (page + 1) left pages' ≡ get_fd_from dirp (page + 1) left pages
    → get_fd_from dirp page (suc left) (some p' ∷ pages')
      ≡ get_fd_from dirp page (suc left) (some p ∷ pages)
unfolding get_fd_from
get_fd_from-same dirp page left pages pages' p p' e h =
    ap
      (λ o. elim o as (λ x. Option ℕ) [
        | some n ↦ some n
        | none ↦ get_fd_from dirp (page + 1) left pages'
      ])
      e
    ∙ ap
        (λ r. elim (find_dirp dirp (5 * page) p.fds) as (λ x. Option ℕ) [
          | some n ↦ some n
          | none ↦ r
        ])
        h

get_fd_from-set :
    (dirp page left i j : ℕ) (pages : List (Option FdPage)) (p : FdPage) (f : FileDescriptor)
    → get_or pages i none ≡ some p
    → f.d_dirp ≡ (get_or p.fds j empty).d_dirp
    → get_fd_from dirp page left (set pages i (some (record p { fds = set p.fds j f })))
      ≡ get_fd_from dirp page left pages
unfolding get_fd_from
get_fd_from-set dirp page zero i j pages p f there e = refl
get_fd_from-set dirp page (suc left) i j [] p f there e = refl
get_fd_from-set dirp page (suc left) zero j (none ∷ pages) p f there e = absurd cc
get_fd_from-set dirp page (suc left) zero j (some q ∷ pages) p f there e =
    let same : p ≡ q = cc in
    rw (← same) (
      get_fd_from-same dirp page left pages pages p (record p { fds = set p.fds j f })
        (find_dirp-set dirp (5 * page) j p.fds f e) refl)
get_fd_from-set dirp page (suc left) (suc i) j (none ∷ pages) p f there e = refl
get_fd_from-set dirp page (suc left) (suc i) j (some q ∷ pages) p f there e =
    get_fd_from-same dirp page left pages (set pages i (some (record p { fds = set p.fds j f }))) q
      q refl (get_fd_from-set dirp (page + 1) left i j pages p f there e)

there-lt :
    (pages : List (Option FdPage)) (i : ℕ) {p : FdPage}
    → get_or pages i none ≡ some p
    → i < length pages
there-lt [] i e = absurd cc
there-lt (q ∷ pages) zero e = omega arith
there-lt (q ∷ pages) (suc i) e = omega (arith, there-lt pages i e)

-- The handle belongs to the descriptor, which stands in a page of the table.
pub record Holds (dirp fd : ℕ) (files : Files) : Type 0 where
  pub low : fd < 100
  pub page : FdPage
  pub there : get_or files.fd_pointers (fd / 5) none ≡ some page
  pub inside : fd % 5 < length page.fds
  pub handle : get_fd dirp files ≡ some fd

abbrev pub held : {dirp fd : ℕ} {files : Files} → Holds dirp fd files → FileDescriptor
held {fd = fd} h = get_or h.page.fds (fd % 5) empty

pub held-address :
    {dirp fd : ℕ} {files : Files} (h : Holds dirp fd files)
    → get_fd_address fd files ≡ some (some h.page)
unfolding get_fd_address
held-address {fd = fd} h =
    let low : ltb (fd / 5) 20 ≡ true = lt→ltb _ _ (omega (arith, h.low)) in rw (low, h.there) refl

get_fd-set :
    {dirp fd : ℕ} {files : Files} (h : Holds dirp fd files) (f : FileDescriptor)
    → f.d_dirp ≡ (held h).d_dirp
    → get_fd dirp (set_descriptor fd h.page f files) ≡ get_fd dirp files
unfolding get_fd set_descriptor
get_fd-set {dirp} {fd} {files} h f e =
    get_fd_from-set dirp 0 (files.fd_count / 5) (fd / 5) (fd % 5) files.fd_pointers h.page f h.there
      e

-- A write to the descriptor that keeps the handle.
pub set_descriptor-Holds :
    {dirp fd : ℕ} {files : Files} (h : Holds dirp fd files) (f : FileDescriptor)
    → f.d_dirp ≡ (held h).d_dirp
    → (h' : Holds dirp fd (set_descriptor fd h.page f files)) × (held h' ≡ f)
set_descriptor-Holds {dirp} {fd} {files} h f e = (
  record {
    low = h.low;
    page = record h.page { fds = set h.page.fds (fd % 5) f };
    there =
        unfold set_descriptor in
        get_or-set_self files.fd_pointers (fd / 5)
          (some (record h.page { fds = set h.page.fds (fd % 5) f })) none
          (there-lt files.fd_pointers (fd / 5) h.there);
    inside = omega (arith, h.inside, length-set h.page.fds (fd % 5) f);
    handle = get_fd-set h f e ∙ h.handle;
  },
  get_or-set_self h.page.fds (fd % 5) f empty h.inside,
)
