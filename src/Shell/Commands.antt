-- ===== src/Shell/Commands.antt =====
-- The shell (bin/sbush/sbush.c) from the characters of a line to what its own commands do.
use sbunix_64_bit_operating.Prelude.{
  ℕ, zero, suc, ◌+◌, ◌≤◌, ◌<◌, ◌≡◌, refl, sym, ap, ◌∙◌, subst, ◌≢◌, inl, inr, Bool, true, false,
  Option, some, List, [], ◌∷◌, ◌++◌, arith, ltb, ◌==◌, lt→ltb, ne→==, Bool-cases, length, replicate,
  length-append, drop,
}
use mathlib.Core.List.{append_assoc, append-nil}
use sbunix_64_bit_operating.Strings.{strcmp}
use sbunix_64_bit_operating.Strings.Compare.{AllChars, strcmp-ne}
use sbunix_64_bit_operating.Tar.{Tarfs}
use sbunix_64_bit_operating.Tar.Lookup.{Entry, LaidOut, NoneNamed}
use sbunix_64_bit_operating.Paths.Components.{Component, AllNamed, AllNames, absolute}
use sbunix_64_bit_operating.Environ.{Environ, pwd}
use sbunix_64_bit_operating.Environ.Entries as Entries
use sbunix_64_bit_operating.Environ.Entries.{Variable, AllVariables}
use sbunix_64_bit_operating.Directory.{
  change_directory, argument, target, environ_at, directory, change_directory-target,
}
use sbunix_64_bit_operating.Shell.{
  bar, ampersand, Parsed, cd, argument_of, parse_command, read_command, execute_command,
  line_action, perform, run_line, shell_round,
}
use sbunix_64_bit_operating.Shell.Words.{Piece, word, text, AllPieces}
use sbunix_64_bit_operating.Shell.Parse.{without_ampersand, parsed, parse_command-parsed}

read_command-more :
    (s more inputStr : List ℕ)
    → AllChars s
    → 0 < length inputStr
    → length inputStr + length s < 2000
    → read_command (s ++ 0 ∷ more) inputStr ≡ some (inputStr ++ s, more)
unfolding read_command
read_command-more [] more inputStr a filled h =
    let some_char : ltb 0 (length inputStr) ≡ true = lt→ltb _ _ filled in
    rw some_char (ap (λ x. some (x, more)) (sym (append-nil inputStr)))
read_command-more (c ∷ s) more inputStr (low, high, a) filled h =
    let not_end : (c == 0) ≡ false = ne→== c 0 (omega arith) in
    let not_first : (length inputStr == 0) ≡ false = ground arith in
    let room : ltb (length inputStr) 1999 ≡ true = lt→ltb _ _ (omega arith) in
    let longer = length-append inputStr (c ∷ []) in
    let read =
      read_command-more s more (inputStr ++ c ∷ []) a (omega (arith, longer))
        (omega (arith, longer)) in
    stored c not_end not_first room
      (read ∙ ap (λ x. some (x, more)) (append_assoc inputStr (c ∷ []) s))
  where
    stored :
        (c : ℕ) {r : Option (List ℕ × List ℕ)}
        → (c == 0) ≡ false
        → (length inputStr == 0) ≡ false
        → ltb (length inputStr) 1999 ≡ true
        → read_command (s ++ 0 ∷ more) (inputStr ++ c ∷ []) ≡ r
        → read_command (c ∷ (s ++ 0 ∷ more)) inputStr ≡ r
    stored c {r} e f g run =
        unfold read_command in
        elim (Bool-cases (c == b' ')) [ inl y ↦ rw (e, f, g, y) run | inr n ↦ rw (e, f, g, n) run ]

-- The characters of a line that starts with no space, after spaces, up to the NUL that ends it.
pub read_command-line :
    (spaces : ℕ) (c : ℕ) (s more : List ℕ)
    → AllChars (c ∷ s)
    → c ≢ b' '
    → length (c ∷ s) < 2000
    → read_command (replicate spaces b' ' ++ ((c ∷ s) ++ 0 ∷ more)) [] ≡ some (c ∷ s, more)
unfolding read_command
read_command-line zero c s more (low, high, a) n h =
    let not_end : (c == 0) ≡ false = ne→== c 0 (omega arith) in
    rw (not_end, ne→== c b' ' n) (read_command-more s more (c ∷ []) a (omega arith) (omega arith))
read_command-line (suc spaces) c s more a n h = read_command-line spaces c s more a n h

line_action-filled :
    (command : List ℕ) {p : Parsed}
    → parse_command command ≡ some (some p)
    → p.pipe_flag ≡ false
    → line_action command ≡ execute_command (some p)
unfolding line_action
line_action-filled [] e f = absurd (unfold parse_command in cc)
line_action-filled (c ∷ command) e f = rw (e, f) refl

abbrev pub NotSpecial : List ℕ → Type 0
NotSpecial w = (w ≢ bar) × (w ≢ ampersand)

-- A line of a command and its argument, neither of them a bar and the argument no ampersand.
line_action-argument :
    (p q : Piece)
    → AllPieces (p ∷ q ∷ [])
    → 2 ≤ length (word p)
    → AllChars (word p)
    → AllChars (word q)
    → word p ≢ bar
    → NotSpecial (word q)
    → line_action (text (p ∷ q ∷ []))
      ≡ execute_command
          (some (record { com_args = word p ∷ word q ∷ []; pipe_flag = false; background = false }))
line_action-argument p q a long chars chars' plain (plain', last) =
    let one = strcmp-ne (word p) bar chars (omega arith) plain in
    let two = strcmp-ne (word q) bar chars' (omega arith) plain' in
    let three = strcmp-ne (word q) ampersand chars' (omega arith) last in
    let same : parsed (word p ∷ word q ∷ [])
        ≡ record { com_args = word p ∷ word q ∷ []; pipe_flag = false; background = false } =
      rw (one, two, three) refl in
    let few : length (without_ampersand (word p ∷ word q ∷ [])) < 32 = rw three (omega arith) in
    let run = parse_command-parsed [] p (q ∷ []) tt a (omega arith) few in
    subst (λ r. line_action (text (p ∷ q ∷ [])) ≡ execute_command (some r)) same
      (line_action-filled (text (p ∷ q ∷ [])) run (ap (λ r. r.pipe_flag) same))

-- The word `cd` and the blanks behind it.
abbrev pub cd_piece : (gap : List ℕ) → Piece
cd_piece gap = record { first = b'c'; others = b'd' ∷ []; gap = gap }

abbrev pub cd_line : (gap : List ℕ) → Piece → List ℕ
cd_line gap q = text (cd_piece gap ∷ q ∷ [])

run_line-cd :
    (fuel : ℕ) (t : Tarfs) (gap : List ℕ) (q : Piece) (pages : Environ)
    → AllPieces (cd_piece gap ∷ q ∷ [])
    → AllChars (word q)
    → NotSpecial (word q)
    → run_line fuel t (cd_line gap q) pages ≡ change_directory fuel t (word q) pages
unfolding run_line
run_line-cd fuel t gap q pages a chars plain =
    let other : cd ≢ bar = cc in
    rw (line_action-argument (cd_piece gap) q a (omega arith) (omega arith) chars other plain)
      (unfold execute_command argument_of strcmp perform in refl)

-- A line "cd" and a path, typed after spaces and ended by a NUL: where the path leads to a directory
-- that is the first entry of its name in the archive, the shell goes there. PWD holds the path of that
-- directory behind the round, all other variables are as before, and the characters behind the line
-- are left. The path has no blanks and is neither a bar nor an ampersand; the line and the paths fit
-- in their buffers, and the archive is not at address 0.
pub shell_round-target :
    (xs ys : List Variable) (rest : Environ) (from_root : Bool) (stack : List (List ℕ))
    (cs : List Component) (t : Tarfs) (es more : List Entry) (fuel spaces : ℕ) (gap : List ℕ)
    (q : Piece) (chars : List ℕ)
    → AllPieces (cd_piece gap ∷ q ∷ [])
    → NotSpecial (word q)
    → AllChars (word q)
    → AllChars (cd_line gap q)
    → length (cd_line gap q) < 2000
    → word q ≡ argument from_root cs
    → AllVariables xs
    → Entries.NoneNamed pwd xs
    → AllNamed cs
    → AllNames stack
    → length (absolute stack) + 2 ≤ 256
    → length (absolute (target from_root stack cs)) + 5 ≤ 4096
    → 0 < t.binary_tarfs_start
    → LaidOut t t.binary_tarfs_start (es ++ directory (target from_root stack cs) ∷ more)
    → NoneNamed (drop 1 (absolute (target from_root stack cs))) es
    → length es < fuel
    → shell_round fuel t
        (replicate spaces b' ' ++ (cd_line gap q ++ 0 ∷ chars))
        (environ_at xs stack ys rest)
      ≡ some (chars, true, environ_at xs (target from_root stack cs) ys rest)
unfolding shell_round
shell_round-target xs ys rest from_root stack cs t es more fuel spaces gap q chars a plain filled
      line_chars short path v none_before n m room fits above l none_named h =
    let no_space : b'c' ≢ b' ' = omega arith in
    let line : List ℕ = drop 1 (cd_line gap q) in
    let read = read_command-line spaces b'c' line chars line_chars no_space short in
    let pages : Environ = environ_at xs stack ys rest in
    let went =
      change_directory-target xs ys rest v none_before from_root stack cs t es more fuel n m room
        fits above l none_named h in
    let moved : run_line fuel t (cd_line gap q) pages
        ≡ some (true, environ_at xs (target from_root stack cs) ys rest) =
      run_line-cd fuel t gap q pages a filled plain
      ∙ subst
          (λ w.
            change_directory fuel t w pages
            ≡ some (true, environ_at xs (target from_root stack cs) ys rest))
          (sym path) went in
    rw (read, moved) refl
