-- ===== src/Exec/Vector.antt =====
-- Lemmas on the pushes of `exec` (sys/task.c) and on what `_start` (crt/crt1.c) reads of them.
use sbunix_64_bit_operating.Prelude.{
  ℕ, zero, suc, ◌+◌, ◌-◌, ◌*◌, ◌/◌, ◌≤◌, ◌<◌, ◌≡◌, refl, sym, ap, ◌∙◌, ◌≢◌, Option, some, List, [],
  ◌∷◌, ◌++◌, map, arith, ne→==, length, get_or, length-append, drop, take, drop-length,
}
use mathlib.Core.List.{append_assoc}
use sbunix_64_bit_operating.Paging.{Mmu, kmalloc, direct, map_page_for_user}
use sbunix_64_bit_operating.Listing.{string_in}
use sbunix_64_bit_operating.Exec.{Arguments, map_environment, argument_words, reversed}
use sbunix_64_bit_operating.Exec.Entry.{vector_word, argument_at}
use sbunix_64_bit_operating.Exec.Slots.{rev, get_or-behind, slots_down}

-- No character of the strings is NUL.
abbrev pub NoNul : List ℕ → Type 0
NoNul [] = Unit {0}
NoNul (c ∷ s) = (c ≢ 0) × NoNul s

abbrev pub AllNoNul : List (List ℕ) → Type 0
AllNoNul [] = Unit {0}
AllNoNul (s ∷ args) = NoNul s × AllNoNul args

-- The bytes of the strings with their ends.
abbrev pub string_bytes : List (List ℕ) → ℕ
string_bytes [] = 0
string_bytes (s ∷ args) = length s + 1 + string_bytes args

pub reversed-rev : (args behind : List (List ℕ)) → reversed args behind ≡ rev args ++ behind
unfolding reversed
reversed-rev [] behind = refl
reversed-rev (s ∷ args) behind =
    reversed-rev args (s ∷ behind) ∙ sym (append_assoc (rev args) (s ∷ []) behind)

AllNoNul-append : (a b : List (List ℕ)) → AllNoNul a → AllNoNul b → AllNoNul (a ++ b)
AllNoNul-append [] b p q = q
AllNoNul-append (s ∷ a) b (x, p) q = (x, AllNoNul-append a b p q)

pub AllNoNul-rev : (args : List (List ℕ)) → AllNoNul args → AllNoNul (rev args)
AllNoNul-rev [] p = p
AllNoNul-rev (s ∷ args) (x, p) = AllNoNul-append (rev args) (s ∷ []) (AllNoNul-rev args p) (x, tt)

string_bytes-append :
    (a b : List (List ℕ)) → string_bytes (a ++ b) ≡ string_bytes a + string_bytes b
string_bytes-append [] b = omega arith
string_bytes-append (s ∷ a) b = omega (arith, string_bytes-append a b)

pub string_bytes-rev : (args : List (List ℕ)) → string_bytes (rev args) ≡ string_bytes args
string_bytes-rev [] = refl
string_bytes-rev (s ∷ args) =
    omega (arith, string_bytes-append (rev args) (s ∷ []), string_bytes-rev args)

pub length-rev : (args : List (List ℕ)) → length (rev args) ≡ length args
length-rev [] = refl
length-rev (s ∷ args) = omega (arith, length-append (rev args) (s ∷ []), length-rev args)

take_all : (n : ℕ) (s : List ℕ) → length s ≤ n → take n s ≡ s
take_all zero [] h = refl
take_all (suc n) [] h = refl
take_all zero (c ∷ s) h = elim h [ ]
take_all (suc n) (c ∷ s) h = ap (c ∷◌) (take_all n s (omega arith))

string_in_lem : (s rest : List ℕ) → NoNul s → string_in (s ++ 0 ∷ rest) ≡ some s
unfolding string_in
string_in_lem [] rest p = refl
string_in_lem (c ∷ s) rest (q, p) = rw (ne→== c 0 q, string_in_lem s rest p) refl

pub argument_words-length :
    (k : ℕ) (args : List (List ℕ)) → length ((argument_words k args).0) ≡ length args
unfolding argument_words
argument_words-length k [] = refl
argument_words-length k (s ∷ args) =
    ap suc (argument_words-length (k + length (take (511 - k) s) + 1) args)

abbrev pub string_at : List ℕ → ℕ → Option (List ℕ)
string_at buf a = string_in (drop (a - 0x30_1000) buf)

-- The pointers lead to the strings.
pub argument_words-strings :
    (args : List (List ℕ)) (pre buf : List ℕ) (k : ℕ)
    → k ≡ length pre
    → buf ≡ pre ++ (argument_words k args).1
    → AllNoNul args
    → k + string_bytes args ≤ 512
    → map (string_at buf) ((argument_words k args).0) ≡ map some args
unfolding argument_words
argument_words-strings [] pre buf k at e p h = refl
argument_words-strings (s ∷ args) pre buf k at e (q, p) h =
    let whole : take (511 - k) s ≡ s = take_all (511 - k) s (omega arith) in
    let next : k + length s + 1 ≡ length (pre ++ (s ++ 0 ∷ [])) =
      omega (arith, at, length-append pre (s ++ 0 ∷ []), length-append s (0 ∷ [])) in
    let rest : List ℕ = (argument_words (k + length s + 1) args).1 in
    let here : buf ≡ pre ++ (s ++ 0 ∷ rest) =
      e ∙ ap (λ t. pre ++ (t ++ 0 ∷ (argument_words (k + length t + 1) args).1)) whole in
    let place : k + 0x30_1000 - 0x30_1000 ≡ length pre = omega (arith, at) in
    let found : string_at buf (k + 0x30_1000) ≡ some s =
      ap (λ n. string_in (drop n buf)) place
      ∙ ap (λ b. string_in (drop (length pre) b)) here
      ∙ ap string_in (drop-length pre (s ++ 0 ∷ rest))
      ∙ string_in_lem s rest q in
    let shift : buf ≡ (pre ++ (s ++ 0 ∷ [])) ++ rest =
      here
      ∙ ap (λ t. pre ++ t) (sym (append_assoc s (0 ∷ []) rest))
      ∙ sym (append_assoc pre (s ++ 0 ∷ []) rest) in
    let others : map (string_at buf) ((argument_words (k + length s + 1) args).0) ≡ map some args =
      argument_words-strings args (pre ++ (s ++ 0 ∷ [])) buf (k + length s + 1) next shift p
        (omega arith) in
    rw (whole, found, others) refl

pub vector_word_lem :
    (g : Arguments) (a s : ℕ)
    → a ≡ 0x30_1000 - 8 * (s + 1)
    → s ≤ 1000
    → vector_word g a ≡ get_or g.vector s 0
unfolding vector_word
vector_word_lem g a s e h =
    let place : (0x30_1000 - a) / 8 - 1 ≡ s = omega (arith, e, h) in
    ap (λ i. get_or g.vector i 0) place

-- The strings that the words from `a` on point to.
abbrev pub argv_strings : Arguments → (a n : ℕ) → List (Option (List ℕ))
argv_strings g a zero = []
argv_strings g a (suc n) = argument_at g (vector_word g a) ∷ argv_strings g (a + 8) n

pub argv_strings-slots :
    (g : Arguments) (a s n : ℕ)
    → a ≡ 0x30_1000 - 8 * (s + n)
    → s + n ≤ 1000
    → argv_strings g a n ≡ map (string_at g.strings) (slots_down g.vector s n)
unfolding argument_at
argv_strings-slots g a s zero e h = refl
argv_strings-slots g a s (suc n) e h =
    let word : vector_word g a ≡ get_or g.vector (s + n) 0 =
      vector_word_lem g a (s + n) (omega (arith, e)) (omega arith) in
    rw (word, argv_strings-slots g (a + 8) s n (omega (arith, e, h)) (omega arith)) refl

pub map_environment-end :
    (v cr3 : ℕ) (envp : List (List ℕ)) (m : Mmu)
    → (map_environment v cr3 envp m).0 ≡ v + 0x1000 * (length envp + 1)
unfolding map_environment
map_environment-end v cr3 [] m = omega arith
map_environment-end v cr3 (s ∷ envp) m =
    let (page, m1) = kmalloc m in
    let rest =
      map_environment-end (v + 0x1000) cr3 envp
        (map_page_for_user v (direct m1 page) (cr3 + m1.kernbase) m1) in
    rest ∙ (omega arith)

pub slot_lem :
    (v pre rest : List ℕ) (i x : ℕ) → v ≡ pre ++ (x ∷ rest) → i ≡ length pre → get_or v i 0 ≡ x
slot_lem v pre rest i x e at =
    let place : i ≡ length pre + 0 = omega (arith, at) in
    ap (λ j. get_or v j 0) place
    ∙ ap (λ u. get_or u (length pre + 0) 0) e
    ∙ get_or-behind pre 0 (x ∷ rest)

pub get_or-front :
    (pre rest : List ℕ) (i : ℕ) → i < length pre → get_or (pre ++ rest) i 0 ≡ get_or pre i 0
get_or-front [] rest i h = elim h [ ]
get_or-front (x ∷ pre) rest zero h = refl
get_or-front (x ∷ pre) rest (suc i) h = get_or-front pre rest i (omega arith)
