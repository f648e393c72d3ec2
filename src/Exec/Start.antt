-- ===== src/Exec/Start.antt =====
-- What a program finds of its arguments: `_start` (crt/crt1.c) behind `exec` (sys/task.c).
use sbunix_64_bit_operating.Prelude.{
  ℕ, zero, suc, ◌+◌, ◌-◌, ◌*◌, ◌≤◌, ◌≡◌, refl, sym, ap, ◌∙◌, some, List, [], ◌∷◌, ◌++◌, map, arith,
  ◌≢◌, eq→==, length, get_or, length-append, take,
}
use mathlib.Core.List.{append_assoc, append-nil}
use sbunix_64_bit_operating.Kernel.{Kernel, user_word, get_next_page_num, update}
use sbunix_64_bit_operating.Paging.{Mmu, store, frame, get_physical_page_addr}
use sbunix_64_bit_operating.Frames.{page_allocator}
use sbunix_64_bit_operating.Frames.Alloc.{IsGrant}
use sbunix_64_bit_operating.Paging.Descend.{IsTable, page_of}
use sbunix_64_bit_operating.Paging.Fresh.{kmalloc-zeroed, other_page}
use sbunix_64_bit_operating.Exec.{
  copy_environment, Arguments, environment_words, argument_words, reversed, push_vector,
  vector_base, push_params, put_arguments, map_arguments,
}
use sbunix_64_bit_operating.Exec.Entry.{vector_word, MainArguments, start_main}
use sbunix_64_bit_operating.Exec.Slots.{
  rev, rev-rev, rev-map, slots_down, slots_down-rev, environment_words-length,
  environment_words-page,
}
use sbunix_64_bit_operating.Exec.Vector.{
  AllNoNul, string_bytes, reversed-rev, AllNoNul-rev, string_bytes-rev, length-rev, string_at,
  argument_words-length, argument_words-strings, vector_word_lem, argv_strings, argv_strings-slots,
  map_environment-end, slot_lem, get_or-front,
}

module _ (g : Arguments) (env_end e : ℕ) (args : List (List ℕ))
    (words : g.vector ≡ (push_vector env_end args).0)
    (strings : g.strings ≡ (push_vector env_end args).1)
    (ends : env_end ≡ 0x30_2000 + 0x1000 * (e + 1)) (fits : e ≤ 32)
    (some_words : length args ≤ 475) where
  abbrev pages : List ℕ
  pages = environment_words 33 0x32_2000 (env_end - 0x1000)

  abbrev pointers : List ℕ
  pointers = (argument_words 0 (rev args)).0

  pages-length : length pages ≡ 33
  pages-length = environment_words-length 33 0x32_2000 (env_end - 0x1000)

  pointers-length : length pointers ≡ length args
  pointers-length = argument_words-length 0 (rev args) ∙ length-rev args

  reversed_all : reversed args [] ≡ rev args
  reversed_all = reversed-rev args [] ∙ append-nil (rev args)

  vector_lem : g.vector ≡ 0 ∷ (pages ++ 0 ∷ (pointers ++ length args ∷ []))
  unfolding push_vector
  vector_lem =
      words ∙ ap (λ r. 0 ∷ (pages ++ 0 ∷ ((argument_words 0 r).0 ++ length args ∷ []))) reversed_all

  strings_lem : g.strings ≡ (argument_words 0 (rev args)).1
  unfolding push_vector
  strings_lem = strings ∙ ap (λ r. (argument_words 0 r).1) reversed_all

  front_lem : g.vector ≡ (0 ∷ (pages ++ 0 ∷ [])) ++ (pointers ++ length args ∷ [])
  front_lem =
      vector_lem ∙ ap (0 ∷◌) (sym (append_assoc pages (0 ∷ []) (pointers ++ length args ∷ [])))

  front-length : length (0 ∷ (pages ++ 0 ∷ [])) ≡ 35
  front-length = omega (arith, pages-length, length-append pages (0 ∷ []))

  vector-length : length g.vector ≡ 36 + length args
  vector-length =
      ap length vector_lem
      ∙ (omega (
        arith,
        pages-length,
        pointers-length,
        length-append pages (0 ∷ (pointers ++ length args ∷ [])),
        length-append pointers (length args ∷ []),
      ))

  pointer_slots : slots_down g.vector 35 (length args) ≡ rev pointers
  pointer_slots =
      ap (λ s. slots_down g.vector s (length args)) (sym front-length)
      ∙ ap (λ n. slots_down g.vector (length (0 ∷ (pages ++ 0 ∷ []))) n) (sym pointers-length)
      ∙ slots_down-rev (0 ∷ (pages ++ 0 ∷ [])) pointers (length args ∷ []) g.vector front_lem

  count_slot : get_or g.vector (35 + length args) 0 ≡ length args
  count_slot =
      slot_lem g.vector ((0 ∷ (pages ++ 0 ∷ [])) ++ pointers) [] (35 + length args) (length args)
        (front_lem ∙ sym (append_assoc (0 ∷ (pages ++ 0 ∷ [])) pointers (length args ∷ [])))
        (omega
          (arith, front-length, pointers-length, length-append (0 ∷ (pages ++ 0 ∷ [])) pointers))

  null_slot : get_or g.vector 34 0 ≡ 0
  null_slot =
      slot_lem g.vector (0 ∷ pages) (pointers ++ length args ∷ []) 34 0 vector_lem
        (omega (arith, pages-length))

  page_slot : (j : ℕ) → j ≤ e → get_or g.vector (33 - j) 0 ≡ 0x30_2000 + 0x1000 * j
  page_slot j h =
      let place : 33 - j ≡ suc (32 - j) = omega arith in
      ap (λ i. get_or g.vector i 0) place
      ∙ ap (λ v. get_or v (suc (32 - j)) 0) vector_lem
      ∙ get_or-front pages (0 ∷ (pointers ++ length args ∷ [])) (32 - j)
          (omega (arith, pages-length))
      ∙ environment_words-page 32 0x30_2000 e j 0x32_2000 (env_end - 0x1000) (omega arith)
          (omega (arith, ends)) fits h

  base_lem : vector_base (length g.vector) ≡ 0x30_1000 - 8 * (37 + length args)
  unfolding vector_base
  base_lem = rw vector-length (omega arith)

  main-argc : (start_main g (vector_base (length g.vector))).argc ≡ length args
  unfolding start_main
  main-argc =
      vector_word_lem g (vector_base (length g.vector) + 8) (35 + length args)
        (omega (arith, base_lem, some_words)) (omega (arith, some_words))
      ∙ count_slot

  read_pointers :
      AllNoNul args
      → string_bytes args ≤ 512
      → map (string_at g.strings) pointers ≡ map some (rev args)
  read_pointers a b =
      argument_words-strings (rev args) [] g.strings 0 refl strings_lem (AllNoNul-rev args a)
        (omega (arith, b, string_bytes-rev args))

  main-argv :
      AllNoNul args
      → string_bytes args ≤ 512
      → argv_strings g ((start_main g (vector_base (length g.vector))).argv) (length args)
        ≡ map some args
  unfolding start_main
  main-argv a b =
      argv_strings-slots g (vector_base (length g.vector) + 16) 35 (length args)
        (omega (arith, base_lem, some_words)) (omega (arith, some_words))
      ∙ ap (map (string_at g.strings)) pointer_slots
      ∙ rev-map (string_at g.strings) pointers
      ∙ ap rev (read_pointers a b)
      ∙ sym (rev-map some (rev args))
      ∙ ap (map some) (rev-rev args)

  main-end :
      vector_word g ((start_main g (vector_base (length g.vector))).argv + 8 * length args) ≡ 0
  unfolding start_main
  main-end =
      vector_word_lem g (vector_base (length g.vector) + 16 + 8 * length args) 34
        (omega (arith, base_lem, some_words)) (omega arith)
      ∙ null_slot

  main-envp :
      (j : ℕ)
      → j ≤ e
      → vector_word g ((start_main g (vector_base (length g.vector))).envp + 8 * j)
        ≡ 0x30_2000 + 0x1000 * j
  unfolding start_main
  main-envp j h =
      let count : vector_word g (vector_base (length g.vector) + 8) ≡ length args = main-argc in
      vector_word_lem g
        (vector_base (length g.vector)
          + 8 * (vector_word g (vector_base (length g.vector) + 8) + 3)
          + 8 * j)
        (33 - j) (omega (arith, base_lem, some_words, count, h, fits)) (omega arith)
      ∙ page_slot j h

abbrev pub main_of : Arguments → MainArguments
main_of g = start_main g (vector_base (length g.vector))

copied_page :
    (envp : List (List ℕ)) (j : ℕ)
    → j ≤ length envp
    → get_or (copy_environment envp) j [] ≡ take 512 (get_or envp j [])
unfolding copy_environment
copied_page [] zero h = refl
copied_page [] (suc j) h = elim h [ ]
copied_page (s ∷ envp) zero h = refl
copied_page (s ∷ envp) (suc j) h = copied_page envp j (omega arith)

abbrev pub laid_out : (v_end task : ℕ) (args envp : List (List ℕ)) (k : Kernel) → Arguments
laid_out v_end task args envp k = (push_params v_end task args envp k).0

-- The word of memory behind the top of the user's stack, before and behind the push.
abbrev pub pushed_word : (task : ℕ) → Kernel → ℕ
pushed_word task k = let r = (k.tasks task).regs in user_word r.cr3 (r.user_rsp - 8) k.mmu

-- The page of the user's stack that the push writes to.
abbrev pub stack_page : (task : ℕ) → Kernel → ℕ
stack_page task k =
    let r = (k.tasks task).regs in frame (get_physical_page_addr (r.user_rsp - 8) r.cr3 k.mmu)

-- Where the page of the user's stack is handed out and another one is free, the word stays behind the
-- allocation of the area.
put_arguments-word :
    (v_end task env_end f : ℕ) (args envp : List (List ℕ)) (k : Kernel)
    → IsTable k.mmu (stack_page task k)
    → IsGrant k.mmu.frames (page_allocator k.mmu.frames) f
    → (put_arguments v_end task env_end args envp k).1.mmu.mem (pushed_word task k)
      ≡ vector_base (length ((push_vector env_end args).0))
unfolding put_arguments get_next_page_num update store
put_arguments-word v_end task env_end f args envp k t g =
    let w = pushed_word task k in
    let m1 = store w (vector_base (length ((push_vector env_end args).0))) k.mmu in
    let apart : page_of w ≢ f * 4096 =
      λ e. other_page k.mmu f g (stack_page task k) t (omega (arith, e)) in
    let grant : IsGrant m1.frames (page_allocator m1.frames) f = g in
    let kept = (kmalloc-zeroed m1 f grant).2 w apart in kept ∙ rw (eq→== w w refl) refl

put_arguments-stack :
    (v_end task env_end : ℕ) (args envp : List (List ℕ)) (k : Kernel)
    → ((put_arguments v_end task env_end args envp k).1.tasks task).regs.user_rsp
      ≡ (k.tasks task).regs.user_rsp - 8
unfolding put_arguments get_next_page_num update
put_arguments-stack v_end task env_end args envp k = rw (eq→== task task refl) refl

-- Behind the last part of `exec`, which fills the pages of the arguments and pushes a word on the user's
-- stack; for at most 475 arguments without NUL of at most 512 bytes with their ends, at most 32 strings
-- of the environment, whose pages end at `env_end`, the page of the user's stack handed out and another
-- page free: the user's stack pointer is 8 lower, and for the word that memory then has there `_start`
-- gives main the number of the arguments and a vector whose words point to exactly these strings in their
-- order, with a NULL behind; and word `j` of envp points to page `j` of the environment, which holds the
-- first 512 characters of string `j` (nothing behind the last one). That the pages are mapped for the
-- program is not part of it.
pub start_main-put_arguments :
    (v_end task env_end f : ℕ) (args envp : List (List ℕ)) (k : Kernel) (j : ℕ)
    → AllNoNul args
    → string_bytes args ≤ 512
    → length args ≤ 475
    → length envp ≤ 32
    → j ≤ length envp
    → env_end ≡ 0x30_2000 + 0x1000 * (length envp + 1)
    → IsTable k.mmu (stack_page task k)
    → IsGrant k.mmu.frames (page_allocator k.mmu.frames) f
    → let (g, k') = put_arguments v_end task env_end args envp k in
      let main = start_main g (k'.mmu.mem (pushed_word task k)) in
      ((k'.tasks task).regs.user_rsp ≡ (k.tasks task).regs.user_rsp - 8)
      × (main.argc ≡ length args)
      × (argv_strings g main.argv main.argc ≡ map some args)
      × (vector_word g (main.argv + 8 * main.argc) ≡ 0)
      × (vector_word g (main.envp + 8 * j) ≡ 0x30_2000 + 0x1000 * j)
      × (get_or g.environment j [] ≡ take 512 (get_or envp j []))
start_main-put_arguments v_end task env_end f args envp k j nul bytes n e h ends t grant =
    let g = (put_arguments v_end task env_end args envp k).0 in
    let words : g.vector ≡ (push_vector env_end args).0 = unfold put_arguments in refl in
    let strings : g.strings ≡ (push_vector env_end args).1 = unfold put_arguments in refl in
    let pages : g.environment ≡ copy_environment envp = unfold put_arguments in refl in
    let word =
      put_arguments-word v_end task env_end f args envp k t grant
      ∙ ap (λ v. vector_base (length v)) (sym words) in
    let count : (main_of g).argc ≡ length args =
      main-argc g env_end (length envp) args words strings ends e n in
    rw word (
      put_arguments-stack v_end task env_end args envp k,
      count,
      ap (λ c. argv_strings g ((main_of g).argv) c) count
          ∙ main-argv g env_end (length envp) args words strings ends e n nul bytes,
      ap (λ c. vector_word g ((main_of g).argv + 8 * c)) count
          ∙ main-end g env_end (length envp) args words strings ends e n,
      main-envp g env_end (length envp) args words strings ends e n j h,
      ap (λ p. get_or p j []) pages ∙ copied_page envp j h,
    )

map_arguments-end :
    (cr3 : ℕ) (envp : List (List ℕ)) (m : Mmu)
    → (map_arguments cr3 envp m).0 ≡ 0x30_2000 + 0x1000 * (length envp + 1)
unfolding map_arguments
map_arguments-end cr3 envp m = map_environment-end 0x30_2000 cr3 envp _

pub push_params-length :
    (v_end task : ℕ) (args envp : List (List ℕ)) (k : Kernel)
    → length args ≤ 475
    → length envp ≤ 32
    → length ((laid_out v_end task args envp k).vector) ≡ 36 + length args
unfolding push_params put_arguments
push_params-length v_end task args envp k n e =
    vector-length (laid_out v_end task args envp k) _ (length envp) args refl refl
      (map_arguments-end ((k.tasks task).regs.cr3) envp k.mmu) e n
