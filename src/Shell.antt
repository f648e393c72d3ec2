-- ===== src/Shell.antt =====
-- The shell (bin/sbush/sbush.c): its lines, the words of a line, and the commands that it carries out
-- itself. A string is the list of its bytes before the NUL. The shell's strcmp is zero where the one of
-- Strings is. A line of more words than the 32 pointers hold, with the NULL behind them, has no result.
pub mod Loop
pub mod Words
pub mod Parse
pub mod Commands
pub mod Script
pub mod Wait
use sbunix_64_bit_operating.Prelude.{
  ℕ, zero, suc, ◌+◌, ◌-◌, Bool, true, false, ◌&&◌, ◌||◌, not, Option, none, some, List, [], ◌∷◌,
  ◌++◌, ltb, leb, ◌==◌, if◌then◌else◌, length, ◌>>=◌,
}
use sbunix_64_bit_operating.Strings.{strcmp}
use sbunix_64_bit_operating.Tar.{Tarfs}
use sbunix_64_bit_operating.Paths.{char_at}
use sbunix_64_bit_operating.Environ.{Environ, env}
use sbunix_64_bit_operating.Directory.{change_directory}

-- The loop of `token` by the rounds left, from position `x` on.
unfoldable pub token_from : (left x : ℕ) → (command : List ℕ) → List ℕ
token_from zero x command = []
token_from (suc left) x command = char_at x command ∷ token_from left (x + 1) command

unfoldable pub token : (command : List ℕ) → (x y : ℕ) → List ℕ
token command x y = token_from (y + 1 - x) x command

unfoldable pub is_blank : ℕ → Bool
is_blank c = (c == b' ') || (c == b'\t') || (c == 7) || (c == b'\r') || (c == b'\n')

abbrev pub bar : List ℕ
bar = b'|' ∷ []

abbrev pub ampersand : List ℕ
ampersand = b'&' ∷ []

-- The variables of the loop of `parse_command`: the words so far stand in com_args.
pub record Scan : Type 0 where
  pub start : ℕ
  pub end : ℕ
  pub com_args : List (List ℕ)
  pub pipe_flag : Bool

-- `com_args[n++] = token(command,start,end)`, and the test for a pipe.
unfoldable pub add_token : (command : List ℕ) → Scan → Scan
add_token command s =
    let word = token command s.start s.end in
    record s {
      com_args = s.com_args ++ word ∷ [];
      pipe_flag = s.pipe_flag || (strcmp word bar == 0);
    }

-- A round of the loop, at position `i`.
unfoldable pub scan_char : (command : List ℕ) → (i c : ℕ) → Scan → Scan
scan_char command i c s =
    if not (is_blank c)
    then record s { end = i }
    else if ltb s.end s.start
    then record s { start = s.start + 1 }
    else if s.end == 0
    then record s { start = s.start + 1 }
    else record (add_token command s) { start = i + 1 }

unfoldable pub scan : (command : List ℕ) → (i : ℕ) → (rest : List ℕ) → Scan → Scan
scan command i [] s = s
scan command i (c ∷ rest) s = scan command (i + 1) rest (scan_char command i c s)

-- The words without the last one, and the last one; without a word the code reads in front of the
-- buffer.
unfoldable pub split_last : List (List ℕ) → Option (List (List ℕ) × List ℕ)
split_last [] = none
split_last (w ∷ []) = some ([], w)
split_last (w ∷ v ∷ ws) = do (front, last) ← split_last (v ∷ ws); some (w ∷ front, last)

-- The words up to the NULL, and the flags `pipe_flag` and `background`.
pub record Parsed : Type 0 where
  pub com_args : List (List ℕ)
  pub pipe_flag : Bool
  pub background : Bool

unfoldable pub keep_args : List (List ℕ) → (pipe_flag background : Bool) → Option Parsed
keep_args com_args pipe_flag background =
    if ltb (length com_args) 32
    then some (record { com_args = com_args; pipe_flag = pipe_flag; background = background })
    else none

-- The end of `parse_command`: an ampersand in the last place goes to the flag.
unfoldable pub end_parse : Scan → Option Parsed
end_parse s = do
  (front, last) ← split_last s.com_args
  keep_args (if strcmp last ampersand == 0 then front else s.com_args) s.pipe_flag
      (strcmp last ampersand == 0)

-- `parse_command`, with the flags 0 before it; `none` inside for NULL.
unfoldable pub parse_command : (command : List ℕ) → Option (Option Parsed)
parse_command [] = some none
parse_command (c ∷ command) =
    let s =
      scan (c ∷ command) 0 (c ∷ command)
        (record { start = 0; end = 0; com_args = []; pipe_flag = false }) in
    do p ← end_parse (if leb s.start s.end then add_token (c ∷ command) s else s); some (some p)

-- `read_command` on the characters that getchar gives one after the other: the line and the
-- characters left. A line longer than its 2000 bytes has no result.
unfoldable pub read_command : (chars inputStr : List ℕ) → Option (List ℕ × List ℕ)
read_command [] inputStr = none
read_command (c ∷ chars) inputStr =
    let stored = read_command chars (inputStr ++ c ∷ []) in
    let passed = read_command chars inputStr in
    let i = length inputStr in
    if (c == 0) && ltb 0 i
    then some (inputStr, chars)
    else if (c == b' ') && (i == 0)
    then passed
    else if c == 0
    then passed
    else if ltb i 1999
    then stored
    else none

-- What a command does outside of the shell: `cd` and `export` are system calls that the shell makes,
-- `exit` ends it, and the other commands are run in a child.
pub data Action : Type 0 where
  answered : (rc : ℕ) → Action
  call_chdir : List ℕ → Action
  call_exit : ℕ → Action
  call_env : List ℕ → Action
  call_execve : List (List ℕ) → (background : Bool) → Action

abbrev pub cd : List ℕ
cd = b'c' ∷ b'd' ∷ []

abbrev pub exit_name : List ℕ
exit_name = b'e' ∷ b'x' ∷ b'i' ∷ b't' ∷ []

abbrev pub export : List ℕ
export = b'e' ∷ b'x' ∷ b'p' ∷ b'o' ∷ b'r' ∷ b't' ∷ []

-- -1 as an int.
abbrev pub failure : ℕ
failure = 4_294_967_295

abbrev pub is_digit : ℕ → Bool
is_digit c = leb b'0' c && leb c b'9'

-- The loop over the argument of `exit`: the position `y` at its end goes to exit, not the number `x`.
unfoldable pub exit_loop : (y : ℕ) → List ℕ → Action
exit_loop y [] = call_exit y
exit_loop y (c ∷ s) =
    let further = exit_loop (y + 1) s in if is_digit c then further else answered failure

-- The first argument, `none` for NULL.
unfoldable pub argument_of : List (List ℕ) → Option (List ℕ)
argument_of [] = none
argument_of (a ∷ args) = some a

-- `execute_command`; it reads the first word, which a lone ampersand does not leave.
unfoldable pub execute_command : Option Parsed → Option Action
execute_command none = some (answered 1)
execute_command (some p) = elim p.com_args [
  | [] ↦ none
  | command ∷ args ↦
      (let argument = argument_of args in
        if strcmp command cd == 0
        then some (elim argument [ none ↦ answered failure | some a ↦ call_chdir a ])
        else if strcmp command exit_name == 0
        then some (elim argument [ none ↦ call_exit 0 | some a ↦ exit_loop 0 a ])
        else if strcmp command export == 0
        then some (elim argument [ none ↦ answered failure | some a ↦ call_env a ])
        else some (call_execve (command ∷ args) p.background))
]

-- A line of the loop of `main`: an empty one and a pipe do nothing.
unfoldable pub line_action : (command : List ℕ) → Option Action
line_action [] = some (answered 0)
line_action (c ∷ command) = do
  parsed ← parse_command (c ∷ command)
  elim parsed [
    | none ↦ execute_command none
    | some p ↦ (if p.pipe_flag then some (answered 0) else execute_command (some p))
  ]

-- The system calls of `cd` and `export` on the environment.
unfoldable pub perform : (fuel : ℕ) → Tarfs → Action → Environ → Option (Bool × Environ)
perform fuel t (call_chdir path) pages = change_directory fuel t path pages
perform fuel t (call_env argument) pages = env argument pages
perform fuel t (answered rc) pages = some (rc == 0, pages)
perform fuel t (call_exit code) pages = some (true, pages)
perform fuel t (call_execve args background) pages = some (true, pages)

unfoldable pub run_line :
    (fuel : ℕ) → Tarfs → (command : List ℕ) → Environ → Option (Bool × Environ)
run_line fuel t command pages = do action ← line_action command; perform fuel t action pages

-- A round of the loop of `main`, on the characters that getchar gives: the characters left, and what
-- `run_line` leaves.
unfoldable pub shell_round :
    (fuel : ℕ) → Tarfs → (chars : List ℕ) → Environ → Option (List ℕ × Bool × Environ)
shell_round fuel t chars pages = do
  (command, more) ← read_command chars []
  (done, pages1) ← run_line fuel t command pages
  some (more, done, pages1)
