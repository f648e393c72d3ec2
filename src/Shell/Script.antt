-- ===== src/Shell/Script.antt =====
-- The lines of a script (bin/sbush/sbush.c): `read_line` and the loop of `main` for a script. The
-- characters are those that `read` gives one after the other; a NUL is
-- not among them, and a read that fails is left out.
use sbunix_64_bit_operating.Prelude.{
  ℕ, zero, suc, ◌+◌, ◌≤◌, ◌<◌, ◌≡◌, refl, sym, ap, ◌∙◌, ◌≢◌, Bool, true, false, Option, none, some,
  List, [], ◌∷◌, ◌++◌, arith, ltb, ◌==◌, if◌then◌else◌, lt→ltb, ne→==, length, length-append, ◌>>=◌,
}
use mathlib.Core.List.{append_assoc, append-nil}
use sbunix_64_bit_operating.Shell.{Action, parse_command, execute_command}

abbrev pub line_feed : ℕ
line_feed = b'\n'

-- The line and the characters left; `none` inside for NULL. A line that does not fit in its 64 bytes
-- has no result.
unfoldable pub read_line : (chars d : List ℕ) → Option (Option (List ℕ) × List ℕ)
read_line [] d = some (if length d == 0 then none else some d, [])
read_line (c ∷ chars) d =
    let rest = read_line chars (d ++ c ∷ []) in
    if c == line_feed then some (some d, chars) else if ltb (length d) 63 then rest else none

-- A round of the loop on a line.
unfoldable pub script_line : (line : List ℕ) → Option Action
script_line line = do
  parsed ← parse_command line
  elim parsed [
    | none ↦ execute_command none
    | some p ↦ (if p.pipe_flag then some (Action.answered 0) else execute_command (some p))
  ]

abbrev pub ends : Action → Bool
ends (Action.call_exit code) = true
ends (Action.answered rc) = false
ends (Action.call_chdir path) = false
ends (Action.call_env argument) = false
ends (Action.call_execve args background) = false

-- The loop, on fuel: what the shell does for the lines.
unfoldable pub run_script : (fuel : ℕ) → (chars : List ℕ) → Option (List Action)
run_script zero chars = none
run_script (suc fuel) chars = do
  (line, more) ← read_line chars []
  let rest = run_script fuel more
  elim line [
    | none ↦ some []
    | some l ↦ (do
      action ← script_line l
      let further : Option (List Action) = (do actions ← rest; some (action ∷ actions))
      if ends action then some (action ∷ []) else further)
  ]

-- `main` for a script, which reads a line in front of the loop.
unfoldable pub script : (fuel : ℕ) → (chars : List ℕ) → Option (List Action)
script fuel chars = do (first, more) ← read_line chars []; run_script fuel more

-- A line without a newline and a NUL.
abbrev pub IsLine : List ℕ → Type 0
IsLine [] = Unit {0}
IsLine (c ∷ l) = (c ≢ line_feed) × (c ≢ 0) × IsLine l

-- Lines of at most 63 characters.
abbrev pub AreLines : List (List ℕ) → Type 0
AreLines [] = Unit {0}
AreLines (l ∷ ls) = IsLine l × (length l ≤ 63) × AreLines ls

abbrev pub text : List (List ℕ) → List ℕ
text [] = []
text (l ∷ ls) = l ++ line_feed ∷ text ls

-- The actions for lines, up to the first `exit`.
abbrev pub actions_of : List (List ℕ) → Option (List Action)
actions_of [] = some []
actions_of (l ∷ ls) = do
  action ← script_line l
  let rest = actions_of ls
  let further : Option (List Action) = (do actions ← rest; some (action ∷ actions))
  if ends action then some (action ∷ []) else further

read_line-text :
    (l d more : List ℕ)
    → IsLine l
    → length d + length l ≤ 63
    → read_line (l ++ line_feed ∷ more) d ≡ some (some (d ++ l), more)
unfolding read_line
read_line-text [] d more p h = ap (λ r. some (some r, more)) (sym (append-nil d))
read_line-text (c ∷ l) d more (q, z, p) h =
    let grown : length (d ++ c ∷ []) + length l ≤ 63 = omega (arith, h, length-append d (c ∷ [])) in
    let rest : read_line (l ++ line_feed ∷ more) (d ++ c ∷ []) ≡ some (some (d ++ c ∷ l), more) =
      read_line-text l (d ++ c ∷ []) more p grown
      ∙ ap (λ r. some (some r, more)) (append_assoc d (c ∷ []) l) in
    rw (ne→== c line_feed q, lt→ltb (length d) 63 (omega (arith, h)), rest) refl

run_script-text :
    (ls : List (List ℕ)) (fuel : ℕ)
    → AreLines ls
    → length ls < fuel
    → run_script fuel (text ls) ≡ actions_of ls
unfolding run_script
run_script-text ls zero a h = elim h [ ]
run_script-text [] (suc fuel) a h =
    let nothing : read_line [] [] ≡ some (none, []) = unfold read_line in refl in rw nothing refl
run_script-text (l ∷ ls) (suc fuel) (p, n, a) h =
    rw (read_line-text l [] (text ls) p (omega arith), run_script-text ls fuel a (omega arith)) refl

-- For lines of at most 63 characters without NUL, each with a newline behind it, and more fuel than
-- the lines behind the first one: the shell does what these say, in their order, up to the first
-- `exit`; the first line is not run.
pub script-actions_of :
    (first : List ℕ) (ls : List (List ℕ)) (fuel : ℕ)
    → AreLines (first ∷ ls)
    → length ls < fuel
    → script fuel (text (first ∷ ls)) ≡ actions_of ls
unfolding script
script-actions_of first ls fuel (p, n, a) h =
    rw (read_line-text first [] (text ls) p (omega arith)) (run_script-text ls fuel a h)
