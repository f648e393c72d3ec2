-- ===== src/Environ/Entries.antt =====
-- The environment (sys/tarfs.c) against the list of its variables.
use sbunix_64_bit_operating.Prelude.{
  ℕ, suc, ◌+◌, ◌≤◌, ◌<◌, ◌≡◌, refl, ap, ◌∙◌, ◌≢◌, true, none, some, List, [], ◌∷◌, ◌++◌, arith, leb,
  ◌==◌, if◌then◌else◌, lt→ltb, eq→==, ne→==, length, get_or, set, drop, take,
}
use sbunix_64_bit_operating.Strings.{strcmp}
use sbunix_64_bit_operating.Strings.Compare.{strcmp-eq, strcmp-ne, AllChars}
use sbunix_64_bit_operating.Environ.{
  Environ, split_entry, entry_name, find_entry, getenv, string_at, store_string, append_entry,
  setenv,
}

pub record Variable : Type 0 where
  pub name : List ℕ
  pub value : List ℕ

abbrev pub NoEquals : List ℕ → Type 0
NoEquals [] = Unit {0}
NoEquals (c ∷ s) = (c ≢ b'=') × NoEquals s

abbrev pub IsVariable : List ℕ → Type 0
IsVariable name = AllChars name × NoEquals name × (length name < 256)

abbrev pub AllVariables : List Variable → Type 0
AllVariables [] = Unit {0}
AllVariables (x ∷ xs) = IsVariable x.name × AllVariables xs

abbrev pub NoneNamed : List ℕ → List Variable → Type 0
NoneNamed name [] = Unit {0}
NoneNamed name (x ∷ xs) = (x.name ≢ name) × NoneNamed name xs

abbrev pub entry_of : Variable → List ℕ
entry_of x = x.name ++ b'=' ∷ x.value

-- The pages of the variables, the empty page at their end, and the pages behind it.
abbrev pub environ_of : List Variable → Environ → Environ
environ_of [] rest = [] ∷ rest
environ_of (x ∷ xs) rest = entry_of x ∷ environ_of xs rest

pub split_entry-entry_of :
    (name value : List ℕ) → NoEquals name → split_entry (name ++ b'=' ∷ value) ≡ some (name, value)
unfolding split_entry
split_entry-entry_of [] value n = refl
split_entry-entry_of (c ∷ s) value n = rw (ne→== c b'=' n.0, split_entry-entry_of s value n.1) refl

entry_name-entry_of :
    (name value : List ℕ) → IsVariable name → entry_name (name ++ b'=' ∷ value) ≡ some name
unfolding entry_name
entry_name-entry_of name value v =
    rw (split_entry-entry_of name value v.1, lt→ltb (length name) 256 v.2) refl

find_entry-step :
    (name : List ℕ) (page : ℕ) (x : Variable) (pages : Environ)
    → IsVariable x.name
    → find_entry name page (entry_of x ∷ pages) ≡ (
        if strcmp x.name name == 0
        then some (some (page, length x.name + 1))
        else find_entry name (page + 1) pages)
unfolding find_entry
find_entry-step name page x pages v = by_name x.name x.value v
  where
    by_name :
        (n value : List ℕ)
        → IsVariable n
        → find_entry name page ((n ++ b'=' ∷ value) ∷ pages) ≡ (
            if strcmp n name == 0
            then some (some (page, length n + 1))
            else find_entry name (page + 1) pages)
    by_name [] value v = rw (entry_name-entry_of [] value v) refl
    by_name (c ∷ s) value v = rw (entry_name-entry_of (c ∷ s) value v) refl

find_entry-absent :
    (xs : List Variable) (rest : Environ) (name : List ℕ) (page : ℕ)
    → AllVariables xs
    → AllChars name
    → NoneNamed name xs
    → find_entry name page (environ_of xs rest) ≡ some none
find_entry-absent [] rest name page a c n = unfold find_entry in refl
find_entry-absent (x ∷ xs) rest name page a c n =
    find_entry-step name page x (environ_of xs rest) a.0
    ∙ rw (strcmp-ne x.name name a.0.0 c n.0) (find_entry-absent xs rest name (page + 1) a.1 c n.1)

find_entry-present :
    (xs : List Variable) (x : Variable) (ys : List Variable) (rest : Environ) (page : ℕ)
    → AllVariables xs
    → IsVariable x.name
    → NoneNamed x.name xs
    → find_entry x.name page (environ_of (xs ++ x ∷ ys) rest)
      ≡ some (some (page + length xs, length x.name + 1))
find_entry-present [] x ys rest page a v n =
    let same : (strcmp x.name x.name == 0) ≡ true =
      eq→== _ 0 ((strcmp-eq x.name x.name v.0 v.0).1 refl) in
    find_entry-step x.name page x (environ_of ys rest) v
    ∙ rw same (ap (λ p. some (some (p, length x.name + 1))) (omega arith))
find_entry-present (y ∷ xs) x ys rest page a v n =
    find_entry-step x.name page y (environ_of (xs ++ x ∷ ys) rest) a.0
    ∙ rw (strcmp-ne y.name x.name a.0.0 v.0 n.0) (
        find_entry-present xs x ys rest (page + 1) a.1 v n.1
        ∙ ap (λ p. some (some (p, length x.name + 1))) (omega arith))

pub page_of :
    (xs : List Variable) (x : Variable) (ys : List Variable) (rest : Environ)
    → get_or (environ_of (xs ++ x ∷ ys) rest) (length xs) [] ≡ entry_of x
page_of [] x ys rest = refl
page_of (y ∷ xs) x ys rest = page_of xs x ys rest

pub replace_page :
    (xs : List Variable) (x y : Variable) (ys : List Variable) (rest : Environ)
    → set (environ_of (xs ++ x ∷ ys) rest) (length xs) (entry_of y) ≡ environ_of (xs ++ y ∷ ys) rest
replace_page [] x y ys rest = refl
replace_page (z ∷ xs) x y ys rest = ap (entry_of z ∷◌) (replace_page xs x y ys rest)

pub value_behind : (name value : List ℕ) → drop (length name + 1) (name ++ b'=' ∷ value) ≡ value
value_behind name value =
    let e : length name + 1 ≡ suc (length name) = omega arith in rw e (behind name)
  where
    behind : (name : List ℕ) → drop (suc (length name)) (name ++ b'=' ∷ value) ≡ value
    behind [] = refl
    behind (c ∷ s) = behind s

pub name_before :
    (name value other : List ℕ)
    → take (length name + 1) (name ++ b'=' ∷ value) ++ other ≡ name ++ b'=' ∷ other
name_before name value other =
    let e : length name + 1 ≡ suc (length name) = omega arith in rw e (before name)
  where
    before :
        (name : List ℕ)
        → take (suc (length name)) (name ++ b'=' ∷ value) ++ other ≡ name ++ b'=' ∷ other
    before [] = refl
    before (c ∷ s) = ap (c ∷◌) (before s)

pub getenv-present :
    (xs : List Variable) (x : Variable) (ys : List Variable) (rest : Environ)
    → AllVariables xs
    → IsVariable x.name
    → NoneNamed x.name xs
    → getenv x.name (environ_of (xs ++ x ∷ ys) rest) ≡ some (some (length xs, length x.name + 1))
unfolding getenv
getenv-present xs x ys rest a v n =
    find_entry-present xs x ys rest 0 a v n
    ∙ ap (λ p. some (some (p, length x.name + 1))) (omega arith)

-- `getenv` answers a pointer to the value of the first variable of the name, and NULL where none has
-- it.
pub getenv-environ_of :
    (xs : List Variable) (x : Variable) (ys : List Variable) (rest : Environ)
    → AllVariables xs
    → IsVariable x.name
    → NoneNamed x.name xs
    → ((p : ℕ × ℕ) × (getenv x.name (environ_of (xs ++ x ∷ ys) rest) ≡ some (some p))
        × (string_at p (environ_of (xs ++ x ∷ ys) rest) ≡ x.value))
      × (getenv x.name (environ_of xs rest) ≡ some none)
unfolding getenv
getenv-environ_of xs x ys rest a v n = (
  (
    (length xs, length x.name + 1),
    find_entry-present xs x ys rest 0 a v n
        ∙ ap (λ p. some (some (p, length x.name + 1))) (omega arith),
    rw (page_of xs x ys rest) (value_behind x.name x.value),
  ),
  find_entry-absent xs rest x.name 0 a v.0 n,
)

append_entry-environ_of :
    (xs : List Variable) (x : Variable) (rest : Environ)
    → append_entry (entry_of x) (environ_of xs rest) ≡ environ_of (xs ++ x ∷ []) (drop 1 rest)
unfolding append_entry
append_entry-environ_of [] x rest = refl
append_entry-environ_of (y ∷ xs) x rest =
    past y.name y.value (environ_of xs rest)
    ∙ ap (entry_of y ∷◌) (append_entry-environ_of xs x rest)
  where
    past :
        (name value : List ℕ) (pages : Environ)
        → append_entry (entry_of x) ((name ++ b'=' ∷ value) ∷ pages)
          ≡ (name ++ b'=' ∷ value) ∷ append_entry (entry_of x) pages
    past [] value pages = refl
    past (c ∷ s) value pages = refl

-- `setenv` replaces the value of the first variable of the name, and adds the variable at the end
-- where none has the name, if the entry fits in its page.
pub setenv-environ_of :
    (xs : List Variable) (x : Variable) (ys : List Variable) (value : List ℕ) (rest : Environ)
    → AllVariables xs
    → IsVariable x.name
    → NoneNamed x.name xs
    → length x.name + length value + 3 ≤ 4096
    → (setenv x.name value (environ_of (xs ++ x ∷ ys) rest)
        ≡ some (environ_of (xs ++ record x { value = value } ∷ ys) rest))
      × (setenv x.name value (environ_of xs rest)
          ≡ some (environ_of (xs ++ record x { value = value } ∷ []) (drop 1 rest)))
unfolding setenv store_string
setenv-environ_of xs x ys value rest a v n fits =
    let y : Variable = record x { value = value } in
    let room : leb (length x.name + 1 + length value + 2) 4096 ≡ true = ground arith in
    let room' : leb (length x.name + 1 + length value + 1) 4096 ≡ true = ground arith in
    (
      rw
          (
            getenv-present xs x ys rest a v n,
            room,
            page_of xs x ys rest,
            name_before x.name x.value value,
          )
          (ap some (replace_page xs x y ys rest)),
      rw ((getenv-environ_of xs x ys rest a v n).1, room')
          (ap some (append_entry-environ_of xs y rest)),
    )
