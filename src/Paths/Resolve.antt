-- ===== src/Paths/Resolve.antt =====
-- `remove_dotslash` (sys/tarfs.c) against the walk along the components of a path.
use sbunix_64_bit_operating.Prelude.{
  ℕ, zero, suc, ◌<◌, ◌≡◌, refl, ap, ◌∙◌, ◌≢◌, false, Option, some, List, [], ◌∷◌, ◌++◌, arith, ◌==◌,
  ne→==, length, length-append, drop, drop-length,
}
use mathlib.Core.List.{foldl, append-nil}
use sbunix_64_bit_operating.Strings.{strcmp}
use sbunix_64_bit_operating.Strings.Compare.{strcmp-ne}
use sbunix_64_bit_operating.Paths.{
  get_between_2slashes, push_all, char_at, skip_slashes, enter, dot, dot_dot, round, resolve,
  end_with_slash, start_of, remove_dotslash,
}
use sbunix_64_bit_operating.Paths.Components.{
  Component, here, up, named, spelling, go, path_of, NoSlash, IsName, AllNamed, AllNames,
  reversed_path, between_stop, dot-AllChars, dot_dot-AllChars, between_end, go_up-reversed,
  go-AllNames, absolute, push_all-absolute, push_all-reversed_path,
}

-- What a name is not, as the tests of the loop see it.
name_tests :
    (name : List ℕ)
    → IsName name
    → ((strcmp name dot == 0) ≡ false)
      × ((strcmp name [] == 0) ≡ false)
      × ((strcmp name dot_dot == 0) ≡ false)
name_tests name (filled, chars, slashless, not_dot, not_dot_dot) = (
  strcmp-ne name dot chars dot-AllChars not_dot,
  strcmp-ne name [] chars tt filled,
  strcmp-ne name dot_dot chars dot_dot-AllChars not_dot_dot,
)

round_name :
    (name rest output : List ℕ)
    → IsName name
    → round (name ++ b'/' ∷ rest) output ≡ some (skip_slashes rest, b'/' ∷ push_all name output)
unfolding round enter
round_name name rest output n =
    let t = name_tests name n in
    rw (between_stop name rest n.2, t.0, t.1, t.2, drop-length name (b'/' ∷ rest)) refl

drop_all : (xs : List ℕ) → drop (length xs) xs ≡ []
drop_all [] = refl
drop_all (x ∷ xs) = drop_all xs

pub round_last_name :
    (name output : List ℕ) → IsName name → round name output ≡ some ([], push_all name output)
unfolding round enter
round_last_name name output n =
    let t = name_tests name n in rw (between_end name n.2, t.0, t.1, t.2, drop_all name) refl

-- The output behind a component that a slash follows.
round_slash :
    (c : Component) (cs : List Component) (rest : List ℕ) (stack : List (List ℕ))
    → AllNamed (c ∷ cs)
    → AllNames stack
    → skip_slashes rest ≡ rest
    → round (spelling c ++ b'/' ∷ rest) (reversed_path stack)
      ≡ some (rest, reversed_path (go stack c))
round_slash here cs rest stack n a s = unfold round get_between_2slashes strcmp in refl
round_slash up cs rest stack n a s =
    unfold round get_between_2slashes strcmp in rw (go_up-reversed stack a) refl
round_slash (named name) cs rest [] n a s = rw (round_name name rest (reversed_path []) n.0, s) refl
round_slash (named name) cs rest (d ∷ stack) n a s =
    rw (round_name name rest (reversed_path (d ∷ stack)) n.0, s) refl

skip-path_of : (cs : List Component) → AllNamed cs → skip_slashes (path_of cs) ≡ path_of cs
unfolding skip_slashes
skip-path_of [] n = refl
skip-path_of (here ∷ []) n = refl
skip-path_of (here ∷ d ∷ cs) n = refl
skip-path_of (up ∷ []) n = refl
skip-path_of (up ∷ d ∷ cs) n = refl
skip-path_of (named [] ∷ cs) n = absurd (n.0.0 refl)
skip-path_of (named (c ∷ s) ∷ []) n = rw (ne→== c b'/' n.0.2.0) refl
skip-path_of (named (c ∷ s) ∷ d ∷ cs) n = rw (ne→== c b'/' n.0.2.0) refl

pub resolve-round :
    (fuel : ℕ) (input output : List ℕ) {input1 output1 : List ℕ}
    → 0 < length input
    → round input output ≡ some (input1, output1)
    → resolve (suc fuel) input output ≡ resolve fuel input1 output1
unfolding resolve
resolve-round fuel [] output h e = absurd (omega arith)
resolve-round fuel (c ∷ input) output h e = rw e refl

pub end_with_slash-push_all :
    (c : ℕ) (s output : List ℕ)
    → c ≢ b'/'
    → NoSlash s
    → end_with_slash (push_all s (c ∷ output)) ≡ some (b'/' ∷ push_all s (c ∷ output))
unfolding push_all
end_with_slash-push_all c [] output h n = unfold end_with_slash in rw (ne→== c b'/' h) refl
end_with_slash-push_all c (d ∷ s) output h n = end_with_slash-push_all d s (c ∷ output) n.0 n.1

pub end_with_slash-reversed :
    (stack : List (List ℕ)) → end_with_slash (reversed_path stack) ≡ some (reversed_path stack)
unfolding end_with_slash
end_with_slash-reversed [] = refl
end_with_slash-reversed (d ∷ stack) = refl

-- The loop ends, and with a slash at its end the output is the path of the stack.
abbrev Resolves : Option (List ℕ) → List (List ℕ) → Type 0
Resolves run stack =
    (output : List ℕ) × (run ≡ some output) × (end_with_slash output ≡ some (reversed_path stack))

resolve_last :
    (c : Component) (fuel : ℕ) (stack : List (List ℕ))
    → AllNamed (c ∷ [])
    → AllNames stack
    → Resolves (resolve (suc (suc fuel)) (spelling c) (reversed_path stack)) (go stack c)
resolve_last here fuel stack n a = (
  reversed_path stack,
  unfold resolve round get_between_2slashes strcmp in refl,
  end_with_slash-reversed stack,
)
resolve_last up fuel stack n a = (
  reversed_path (go stack up),
  unfold resolve round get_between_2slashes strcmp in rw (go_up-reversed stack a) refl,
  end_with_slash-reversed (go stack up),
)
resolve_last (named []) fuel stack n a = absurd (n.0.0 refl)
resolve_last (named (c ∷ s)) fuel stack n a = (
  push_all (c ∷ s) (reversed_path stack),
  resolve-round (suc fuel) (c ∷ s) (reversed_path stack) (omega arith)
        (round_last_name (c ∷ s) (reversed_path stack) n.0)
      ∙ (unfold resolve in refl),
  unfold push_all in slash stack,
)
  where
    slash :
        (stack : List (List ℕ))
        → end_with_slash (push_all s (c ∷ reversed_path stack))
          ≡ some (reversed_path (go stack (named (c ∷ s))))
    slash [] = unfold push_all in end_with_slash-push_all c s (reversed_path []) n.0.2.0 n.0.2.1
    slash (d ∷ stack) =
        unfold push_all in end_with_slash-push_all c s (reversed_path (d ∷ stack)) n.0.2.0 n.0.2.1

spelling-pos : (c : Component) (cs : List Component) → AllNamed (c ∷ cs) → 0 < length (spelling c)
spelling-pos here cs n = omega arith
spelling-pos up cs n = omega arith
spelling-pos (named []) cs n = absurd (n.0.0 refl)
spelling-pos (named (c ∷ s)) cs n = omega arith

resolve_path :
    (cs : List Component) (fuel : ℕ) (stack : List (List ℕ))
    → AllNamed cs
    → AllNames stack
    → length (path_of cs) < fuel
    → Resolves (resolve fuel (path_of cs) (reversed_path stack)) (foldl go stack cs)
resolve_path cs zero stack n a h = absurd (omega arith)
resolve_path [] (suc fuel) stack n a h =
    (reversed_path stack, unfold resolve in refl, end_with_slash-reversed stack)
resolve_path (c ∷ []) (suc zero) stack n a h = absurd (omega (arith, h, spelling-pos c [] n))
resolve_path (c ∷ []) (suc (suc fuel)) stack n a h = resolve_last c fuel stack n a
resolve_path (c ∷ d ∷ cs) (suc fuel) stack n a h =
    let long = length-append (spelling c) (b'/' ∷ path_of (d ∷ cs)) in
    let (a', n') = go-AllNames stack c (d ∷ cs) a n in
    let (output, run, slash) =
      resolve_path (d ∷ cs) fuel (go stack c) n' a' (omega (arith, h, long)) in
    let step =
      resolve-round fuel (spelling c ++ b'/' ∷ path_of (d ∷ cs)) (reversed_path stack)
        (omega (arith, long))
        (round_slash c (d ∷ cs) (path_of (d ∷ cs)) stack n a (skip-path_of (d ∷ cs) n')) in
    (output, step ∙ run, slash)

-- A path of components does not start with a slash.
pub path_of-relative :
    (cs : List Component) → AllNamed cs → (char_at 0 (path_of cs) == b'/') ≡ false
path_of-relative [] n = refl
path_of-relative (here ∷ []) n = refl
path_of-relative (here ∷ d ∷ cs) n = refl
path_of-relative (up ∷ []) n = refl
path_of-relative (up ∷ d ∷ cs) n = refl
path_of-relative (named [] ∷ cs) n = absurd (n.0.0 refl)
path_of-relative (named (c ∷ s) ∷ []) n = ne→== c b'/' n.0.2.0
path_of-relative (named (c ∷ s) ∷ d ∷ cs) n = ne→== c b'/' n.0.2.0

-- A path of components, none of them empty, resolves to the path of the directory that they lead to:
-- with a slash in front from the root, and otherwise from the working directory; the result has a
-- slash at its end. "." stays, ".." goes to the parent, the root is its own parent, and a name goes down.
pub remove_dotslash-absolute :
    (cs : List Component) (stack : List (List ℕ))
    → AllNamed cs
    → AllNames stack
    → (remove_dotslash (absolute stack) (b'/' ∷ path_of cs) 1 ≡ some (absolute (foldl go [] cs)))
      × (remove_dotslash (absolute stack) (path_of cs) 1 ≡ some (absolute (foldl go stack cs)))
unfolding remove_dotslash start_of
remove_dotslash-absolute cs stack n a =
    let at = push_all-absolute stack in
    let (o, run, slash) = resolve_path cs (suc (suc (length (path_of cs)))) [] n tt (omega arith) in
    let (o', run', slash') = resolve_path cs (suc (length (path_of cs))) stack n a (omega arith) in
    (
      rw (run, slash) (ap some (written (foldl go [] cs))),
      rw (path_of-relative cs n, at, end_with_slash-reversed stack, run', slash')
          (ap some (written (foldl go stack cs))),
    )
  where
    written : (stack : List (List ℕ)) → push_all (reversed_path stack) [] ≡ absolute stack
    written stack = push_all-reversed_path stack [] ∙ append-nil (absolute stack)
