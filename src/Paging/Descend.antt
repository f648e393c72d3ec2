-- ===== src/Paging/Descend.antt =====
-- The walk of sys/virtualMemory.c that makes missing tables: the new tables, and the path that it
-- leaves.
use sbunix_64_bit_operating.Prelude.{
  ℕ, zero, suc, ◌+◌, ◌*◌, ◌/◌, ◌%◌, ◌<◌, ◌≡◌, refl, sym, ap, ◌∙◌, subst, ◌≢◌, inl, inr, Bool, true,
  false, ◌&&◌, some, List, [], ◌∷◌, arith, ltb, leb, ◌==◌, if◌then◌else◌, eq→==, Bool-cases, length,
  set_bit,
}
use sbunix_64_bit_operating.Frames.{Frames, max_frames, is_free, page_allocator}
use sbunix_64_bit_operating.Frames.Alloc.{IsGrant}
use sbunix_64_bit_operating.Paging.{
  Mmu, entry, present, frame, next_table, new_table, store, set_flags, alloc_page, memset,
}
use sbunix_64_bit_operating.Paging.Memset.{memset-mem}
use sbunix_64_bit_operating.Paging.Walk.{descend, walk}

-- The page that a word lies in.
abbrev pub page_of : ℕ → ℕ
page_of b = b / 512 * 4096

-- A page-aligned address whose frame is handed out.
pub record IsTable (m : Mmu) (t : ℕ) : Type 0 where
  pub aligned : t % 4096 ≡ 0
  pub within : t / 4096 < max_frames
  pub taken : is_free m.frames (t / 4096) ≡ false

abbrev pub AllTables : Mmu → List ℕ → Type 0
AllTables m [] = Unit {0}
AllTables m (t ∷ ts) = IsTable m t × AllTables m ts

abbrev pub AllNe : ℕ → List ℕ → Type 0
AllNe t [] = Unit {0}
AllNe t (u ∷ us) = (t ≢ u) × AllNe t us

abbrev pub AllIndex : List ℕ → Type 0
AllIndex [] = Unit {0}
AllIndex (i ∷ is) = (i < 512) × AllIndex is

-- Each table that an existing part of the walk names is a handed out page, new on the way down.
abbrev pub OkBelow : Mmu → (up is : List ℕ) → (t : ℕ) → Type 0
OkBelow m up [] t = Unit {0}
OkBelow m up (i ∷ is) t =
    present (m.mem (entry t i)) ≡ true
    → IsTable m (frame (m.mem (entry t i)))
      × AllNe (frame (m.mem (entry t i))) (t ∷ up)
      × OkBelow m (t ∷ up) is (frame (m.mem (entry t i)))

-- The next `n` calls of the page allocator are granted.
abbrev pub Grants : ℕ → Frames → Type 0
Grants zero s = Unit {0}
Grants (suc n) s = (f : ℕ) × IsGrant s (page_allocator s) f × Grants n (page_allocator s).1

Grants-suc : (n : ℕ) {s : Frames} → Grants (suc n) s → Grants n s
Grants-suc zero g = tt
Grants-suc (suc n) (f, k, g) = (f, k, Grants-suc n g)

pub set_flags_entry :
    (user : Bool) (e : ℕ)
    → e % 4096 ≡ 0
    → (present (set_flags user e) ≡ true) × (frame (set_flags user e) ≡ e)
unfolding set_flags set_bit
set_flags_entry user e h = ground arith

-- Two memories agree off the page `p`.
abbrev pub SameOff : ℕ → (ℕ → ℕ) → (ℕ → ℕ) → Type 0
SameOff p f g = (b : ℕ) → page_of b ≢ p → f b ≡ g b

-- A new table on its own.
record IsNew (user : Bool) (t i : ℕ) (m : Mmu) (r : ℕ × Mmu) : Type 0 where
  table : IsTable r.1 r.0
  keeps_tables : (x : ℕ) → IsTable m x → IsTable r.1 x
  apart : (x : ℕ) → IsTable m x → r.0 ≢ x
  named : r.1.mem (entry t i) ≡ set_flags user r.0
  same : (b : ℕ) → page_of b ≢ r.0 → b ≢ entry t i → r.1.mem b ≡ m.mem b
  empty : (j : ℕ) → j < 512 → r.1.mem (entry r.0 j) ≡ 0
  frames : r.1.frames ≡ (page_allocator m.frames).1

module _ (user : Bool) (t i f : ℕ) (m : Mmu) (h : IsTable m t) (l : i < 512)
    (k : IsGrant m.frames (page_allocator m.frames) f) where
  granted : ℕ
  granted = (page_allocator m.frames).0

  still_taken : (x : ℕ) → is_free m.frames x ≡ false → is_free (page_allocator m.frames).1 x ≡ false
  still_taken x e = ground (arith, k.others x)

  not_granted : (x : ℕ) → IsTable m x → (page_allocator m.frames).0 ≢ x
  not_granted x v e =
      let q : x / 4096 ≡ f = omega (arith, k.address) in
      let c : is_free m.frames f ≡ false = (rw q at (v.taken)) in ground (arith, k.was_free)

  new_table-mem :
      (b : ℕ)
      → (new_table user (entry t i) m).1.mem b ≡ (
          if b == entry t i
          then set_flags user (page_allocator m.frames).0
          else if leb ((page_allocator m.frames).0 / 8) b
              && ltb b ((page_allocator m.frames).0 / 8 + 512)
          then 0
          else m.mem b)
  unfolding new_table alloc_page store
  new_table-mem b = ground (
    arith,
    memset-mem (page_allocator m.frames).0 (record m { frames = (page_allocator m.frames).1 }) b,
  )

  new_table-IsNew : IsNew user t i m (new_table user (entry t i) m)
  unfolding new_table alloc_page memset store
  new_table-IsNew = record {
    table = record {
      aligned = omega (arith, k.address);
      within = omega (arith, k.address, k.within);
      taken =
          (let q : (page_allocator m.frames).0 / 4096 ≡ f = omega (arith, k.address) in
            rw q (ground (arith, k.others f)));
    };
    keeps_tables = λ x v. record {
      aligned = v.aligned;
      within = v.within;
      taken = still_taken (x / 4096) v.taken;
    };
    apart = not_granted;
    named = new_table-mem (entry t i) ∙ rw (eq→== (entry t i) (entry t i) refl) refl;
    same = λ b p q. new_table-mem b ∙ ground (arith, k.address);
    empty = λ j u.
        new_table-mem (entry (page_allocator m.frames).0 j)
        ∙ ground (arith, k.address, not_granted t h, h.aligned);
    frames = refl;
  }

-- The words of these pages are as before.
abbrev pub AllKept : List ℕ → (f g : ℕ → ℕ) → Type 0
AllKept [] f g = Unit {0}
AllKept (u ∷ us) f g = ((b : ℕ) → page_of b ≡ u → g b ≡ f b) × AllKept us f g

AllKept-refl : (us : List ℕ) (f : ℕ → ℕ) → AllKept us f f
AllKept-refl [] f = tt
AllKept-refl (u ∷ us) f = (λ b e. refl, AllKept-refl us f)

AllKept-trans : (us : List ℕ) (f g h : ℕ → ℕ) → AllKept us f g → AllKept us g h → AllKept us f h
AllKept-trans [] f g h p q = tt
AllKept-trans (u ∷ us) f g h p q = (λ b e. q.0 b e ∙ p.0 b e, AllKept-trans us f g h p.1 q.1)

-- The walk has come to the table `r.0` in the state `r.1`.
pub record Descended (is up : List ℕ) (t : ℕ) (m : Mmu) (r : ℕ × Mmu) : Type 0 where
  pub table : IsTable r.1 r.0
  pub new_below : AllNe r.0 up
  pub keeps_tables : (x : ℕ) → IsTable m x → IsTable r.1 x
  pub kept : AllKept up m.mem r.1.mem
  pub reaches : (g : ℕ → ℕ) → SameOff r.0 g r.1.mem → walk is t g ≡ some r.0

walk_step :
    (i : ℕ) (is : List ℕ) (t t1 : ℕ) (g : ℕ → ℕ)
    → present (g (entry t i)) ≡ true
    → frame (g (entry t i)) ≡ t1
    → walk (i ∷ is) t g ≡ walk is t1 g
unfolding walk
walk_step i is t t1 g p e = rw (p, e) refl

-- One level: what holds of the rest of the walk from `t1` holds from `t`.
level :
    (i : ℕ) (is up : List ℕ) (t t1 : ℕ) (m m1 : Mmu) (r : ℕ × Mmu)
    → t % 4096 ≡ 0
    → i < 512
    → present (m1.mem (entry t i)) ≡ true
    → frame (m1.mem (entry t i)) ≡ t1
    → ((x : ℕ) → IsTable m x → IsTable m1 x)
    → AllKept up m.mem m1.mem
    → Descended is (t ∷ up) t1 m1 r
    → Descended (i ∷ is) up t m r
level i is up t t1 m m1 r al l p e keep kept d = record {
  table = d.table;
  new_below = d.new_below.1;
  keeps_tables = λ x v. d.keeps_tables x (keep x v);
  kept = AllKept-trans up m.mem m1.mem r.1.mem kept d.kept.1;
  reaches = λ g s.
      let in_t : page_of (entry t i) ≡ t = omega arith in
      let same : g (entry t i) ≡ m1.mem (entry t i) =
        s (entry t i) (λ q. d.new_below.0 (sym q ∙ in_t)) ∙ d.kept.0 (entry t i) in_t in
      walk_step i is t t1 g (ap present same ∙ p) (ap frame same ∙ e) ∙ d.reaches g s;
}

module _ {user : Bool} {t i : ℕ} {m : Mmu} {r : ℕ × Mmu} (new : IsNew user t i m r) where
  new-AllNe : (us : List ℕ) → AllTables m us → AllNe r.0 us
  new-AllNe [] a = tt
  new-AllNe (u ∷ us) a = (new.apart u a.0, new-AllNe us a.1)

  new-AllTables : (us : List ℕ) → AllTables m us → AllTables r.1 us
  new-AllTables [] a = tt
  new-AllTables (u ∷ us) a = (new.keeps_tables u a.0, new-AllTables us a.1)

  new-AllKept :
      i < 512
      → t % 4096 ≡ 0
      → (us : List ℕ) → AllTables m us
      → AllNe t us
      → AllKept us m.mem r.1.mem
  new-AllKept l al [] a n = tt
  new-AllKept l al (u ∷ us) a n = (
    λ b e. new.same b (λ q. new.apart u a.0 (sym q ∙ e)) (λ q. n.0 (omega (arith, ap page_of q))),
    new-AllKept l al us a.1 n.1,
  )

  new-flags : (present (r.1.mem (entry t i)) ≡ true) × (frame (r.1.mem (entry t i)) ≡ r.0)
  new-flags = rw (new.named) (set_flags_entry user r.0 new.table.aligned)

  new-OkBelow : (up is : List ℕ) → AllIndex is → OkBelow r.1 up is r.0
  new-OkBelow up [] a = tt
  new-OkBelow up (j ∷ is) a = λ p. ground (arith, new.empty j a.0)

next_table-present :
    (user : Bool) (w : ℕ) (m : Mmu)
    → present (m.mem w) ≡ true
    → next_table user w m ≡ (frame (m.mem w), m)
unfolding next_table
next_table-present user w m p = rw p refl

next_table-absent :
    (user : Bool) (w : ℕ) (m : Mmu)
    → present (m.mem w) ≡ false
    → next_table user w m ≡ new_table user w m
unfolding next_table
next_table-absent user w m p = rw p refl

-- The walk from the table `t`, whose ancestors are `up`.
pub descend-Descended :
    (user : Bool) (is up : List ℕ) (t : ℕ) (m : Mmu)
    → IsTable m t
    → AllTables m up
    → AllNe t up
    → AllIndex is
    → OkBelow m up is t
    → Grants (length is) m.frames
    → Descended is up t m (descend user is t m)
unfolding descend walk
descend-Descended user [] up t m h a n x o g = record {
  table = h;
  new_below = n;
  keeps_tables = λ x v. v;
  kept = AllKept-refl up m.mem;
  reaches = λ g s. refl;
}
descend-Descended user (i ∷ is) up t m h a n x o g =
    elim (Bool-cases (present (m.mem (entry t i)))) [
      | inl p ↦
          let (h1, n1, o1) = o p in
          rw (next_table-present user (entry t i) m p) (
            level i is up t _ m m _ h.aligned x.0 p refl (λ x v. v) (AllKept-refl up m.mem)
              (descend-Descended user is (t ∷ up) (frame (m.mem (entry t i))) m h1 (h, a) n1 x.1 o1
                (Grants-suc (length is) g)))
      | inr p ↦
          let new = new_table-IsNew user t i g.0 m h x.0 g.1 in
          let r = new_table user (entry t i) m in
          rw (next_table-absent user (entry t i) m p) (
            level i is up t r.0 m r.1 _ h.aligned x.0 (new-flags new).0 (new-flags new).1
              new.keeps_tables (new-AllKept new x.0 h.aligned up a n)
              (descend-Descended user is (t ∷ up) r.0 r.1 new.table
                (new.keeps_tables t h, new-AllTables new up a) (new.apart t h, new-AllNe new up a)
                x.1 (new-OkBelow new (t ∷ up) is x.1)
                (subst (Grants (length is)) (sym new.frames) g.2)))
    ]
