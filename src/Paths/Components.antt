-- ===== src/Paths/Components.antt =====
-- The components of a path, the directories that they lead to, and how the loop of `remove_dotslash`
-- (sys/tarfs.c) cuts and keeps them.
use sbunix_64_bit_operating.Prelude.{
  ℕ, ◌≡◌, refl, ap, ◌∙◌, ◌≢◌, some, List, [], ◌∷◌, ◌++◌, arith, ne→==,
}
use mathlib.Core.List.{append_assoc}
use sbunix_64_bit_operating.Strings.Compare.{AllChars}
use sbunix_64_bit_operating.Paths.{
  get_between_2slashes, push_all, back_to_slash, go_up, dot, dot_dot,
}

-- A component of a path: ".", ".." or the name of a file or directory.
pub data Component : Type 0 where
  here up : Component
  named : List ℕ → Component

abbrev pub spelling : Component → List ℕ
spelling here = dot
spelling up = dot_dot
spelling (named name) = name

-- The directories from the root down to the present one, the last one first. The root is its own
-- parent.
abbrev pub go : List (List ℕ) → Component → List (List ℕ)
go stack here = stack
go [] up = []
go (d ∷ stack) up = stack
go stack (named name) = name ∷ stack

abbrev pub path_of : List Component → List ℕ
path_of [] = []
path_of (c ∷ []) = spelling c
path_of (c ∷ d ∷ cs) = spelling c ++ b'/' ∷ path_of (d ∷ cs)

abbrev pub NoSlash : List ℕ → Type 0
NoSlash [] = Unit {0}
NoSlash (c ∷ s) = (c ≢ b'/') × NoSlash s

-- A name that is neither empty nor one of the two special ones.
abbrev pub IsName : List ℕ → Type 0
IsName name = (name ≢ []) × AllChars name × NoSlash name × (name ≢ dot) × (name ≢ dot_dot)

abbrev pub AllNamed : List Component → Type 0
AllNamed [] = Unit {0}
AllNamed (here ∷ cs) = AllNamed cs
AllNamed (up ∷ cs) = AllNamed cs
AllNamed (named name ∷ cs) = IsName name × AllNamed cs

abbrev pub AllNames : List (List ℕ) → Type 0
AllNames [] = Unit {0}
AllNames (name ∷ stack) = IsName name × AllNames stack

-- The path of a stack of directories, each with a slash behind it, its last character first.
abbrev pub reversed_path : List (List ℕ) → List ℕ
reversed_path [] = b'/' ∷ []
reversed_path (d ∷ stack) = b'/' ∷ push_all d (reversed_path stack)

pub between_stop :
    (name rest : List ℕ) → NoSlash name → get_between_2slashes (name ++ b'/' ∷ rest) ≡ name
unfolding get_between_2slashes
between_stop [] rest n = refl
between_stop (c ∷ s) rest n = rw (ne→== c b'/' n.0) (ap (c ∷◌) (between_stop s rest n.1))

pub between_end : (name : List ℕ) → NoSlash name → get_between_2slashes name ≡ name
unfolding get_between_2slashes
between_end [] n = refl
between_end (c ∷ s) n = rw (ne→== c b'/' n.0) (ap (c ∷◌) (between_end s n.1))

pub back_to_slash-push_all :
    (name output : List ℕ) {o : List ℕ}
    → NoSlash name
    → back_to_slash output ≡ some o
    → back_to_slash (push_all name output) ≡ some o
unfolding push_all
back_to_slash-push_all [] output n e = e
back_to_slash-push_all (c ∷ s) output {o} n e =
    let skip : back_to_slash (c ∷ output) ≡ some o =
      unfold back_to_slash in rw (ne→== c b'/' n.0) e in
    back_to_slash-push_all s (c ∷ output) n.1 skip

pub back_to_slash-reversed :
    (stack : List (List ℕ)) → back_to_slash (reversed_path stack) ≡ some (reversed_path stack)
unfolding back_to_slash
back_to_slash-reversed [] = refl
back_to_slash-reversed (d ∷ stack) = refl

pub go_up-back :
    (c : ℕ) (output o : List ℕ) → back_to_slash output ≡ some o → go_up (c ∷ output) ≡ some o
unfolding go_up
go_up-back c [] o e = absurd (unfold back_to_slash in cc)
go_up-back c (d ∷ output) o e = e

pub go_up-reversed :
    (stack : List (List ℕ))
    → AllNames stack
    → go_up (reversed_path stack) ≡ some (reversed_path (go stack up))
go_up-reversed [] a = unfold go_up in refl
go_up-reversed (d ∷ stack) (name, a) =
    go_up-back b'/' (push_all d (reversed_path stack)) (reversed_path stack)
      (back_to_slash-push_all d (reversed_path stack) name.2 (back_to_slash-reversed stack))

pub go-AllNames :
    (stack : List (List ℕ)) (c : Component) (cs : List Component)
    → AllNames stack
    → AllNamed (c ∷ cs)
    → AllNames (go stack c) × AllNamed cs
go-AllNames stack here cs a n = (a, n)
go-AllNames [] up cs a n = (tt, n)
go-AllNames (d ∷ stack) up cs a n = (a.1, n)
go-AllNames [] (named name) cs a n = ((n.0, tt), n.1)
go-AllNames (d ∷ stack) (named name) cs a n = ((n.0, a), n.1)

pub dot-AllChars : AllChars dot
dot-AllChars = omega arith

pub dot_dot-AllChars : AllChars dot_dot
dot_dot-AllChars = omega arith

-- The path of the stack from its first character on.
abbrev pub absolute : List (List ℕ) → List ℕ
absolute [] = b'/' ∷ []
absolute (d ∷ stack) = absolute stack ++ (d ++ b'/' ∷ [])

pub push_all-append :
    (xs ys output : List ℕ) → push_all (xs ++ ys) output ≡ push_all ys (push_all xs output)
unfolding push_all
push_all-append [] ys output = refl
push_all-append (x ∷ xs) ys output = push_all-append xs ys (x ∷ output)

pub push_all-absolute : (stack : List (List ℕ)) → push_all (absolute stack) [] ≡ reversed_path stack
unfolding push_all
push_all-absolute [] = refl
push_all-absolute (d ∷ stack) =
    push_all-append (absolute stack) (d ++ b'/' ∷ []) []
    ∙ rw (push_all-absolute stack) (push_all-append d (b'/' ∷ []) (reversed_path stack))

pub push_all-push_all :
    (xs output acc : List ℕ) → push_all (push_all xs output) acc ≡ push_all output (xs ++ acc)
unfolding push_all
push_all-push_all [] output acc = refl
push_all-push_all (x ∷ xs) output acc = push_all-push_all xs (x ∷ output) acc

pub push_all-reversed_path :
    (stack : List (List ℕ)) (acc : List ℕ)
    → push_all (reversed_path stack) acc ≡ absolute stack ++ acc
unfolding push_all
push_all-reversed_path [] acc = refl
push_all-reversed_path (d ∷ stack) acc =
    push_all-push_all d (reversed_path stack) (b'/' ∷ acc)
    ∙ push_all-reversed_path stack (d ++ b'/' ∷ acc)
    ∙ simp (append_assoc)
