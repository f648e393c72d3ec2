-- ===== src/Tests/Shell.antt =====
-- Tests of the shell.
use sbunix_64_bit_operating.Prelude.{
  inl, inr, ℕ, List, ◌≡◌, refl, true, false, some, [], ◌∷◌, ◌++◌, arith, replicate,
}
use sbunix_64_bit_operating.Strings.{strcmp}
use sbunix_64_bit_operating.Paths.Components.{named}
use sbunix_64_bit_operating.Directory.{environ_at}
use sbunix_64_bit_operating.Shell.{
  token, token_from, is_blank, add_token, scan_char, scan, split_last, keep_args, end_parse,
  parse_command, shell_round,
}
use sbunix_64_bit_operating.Shell.{Action, execute_command, argument_of}
use sbunix_64_bit_operating.Shell.Script.{IsLine, text, script_line, script, script-actions_of}
use sbunix_64_bit_operating.Kernel.{Kernel, update}
use sbunix_64_bit_operating.Sched.Same.{update-SameLinks, View-SameLinks}
use sbunix_64_bit_operating.Shell.Wait.{Alive, Ended, fork_execution, fork_execution-Alive}
use sbunix_64_bit_operating.Tests.Tasks.{running_at, View-at_100}
use sbunix_64_bit_operating.Shell.Words.{Piece}
use sbunix_64_bit_operating.Shell.Parse.{parse_command-parsed}
use sbunix_64_bit_operating.Shell.Commands.{cd_line, shell_round-target}
use sbunix_64_bit_operating.Tests.Paths.{
  bin, ls, ls_entry, archive, archive-LaidOut, bin-IsName, home,
}

-- "ls" and "a" with blanks between, and an ampersand.
abbrev ls_piece : Piece
ls_piece = record { first = b'l'; others = b's' ∷ []; gap = b' ' ∷ b' ' ∷ [] }

abbrev a_piece : Piece
a_piece = record { first = b'a'; others = []; gap = b'\t' ∷ [] }

abbrev ampersand_piece : Piece
ampersand_piece = record { first = b'&'; others = []; gap = [] }

parse_command-parsed_example :
    parse_command (b' ' ∷ b'l' ∷ b's' ∷ b' ' ∷ b' ' ∷ b'a' ∷ b'\t' ∷ b'&' ∷ [])
    ≡ some
        (some (record { com_args = ls ∷ (b'a' ∷ []) ∷ []; pipe_flag = false; background = true }))
unfolding strcmp is_blank
parse_command-parsed_example =
    parse_command-parsed (b' ' ∷ []) ls_piece (a_piece ∷ ampersand_piece ∷ []) (refl, tt)
      (
        (refl, (refl, tt)),
        (refl, (refl, tt)),
        omega arith,
        ((refl, tt), (refl, tt), omega arith, ((refl, tt), tt)),
      )
      (omega arith) (omega arith)

-- The line "a b" loses its first word.
lost_word :
    parse_command (b'a' ∷ b' ' ∷ b'b' ∷ [])
    ≡ some (
        some (record { com_args = (b' ' ∷ b'b' ∷ []) ∷ []; pipe_flag = false; background = false }))
unfolding parse_command scan scan_char is_blank add_token token token_from end_parse keep_args
    split_last strcmp
lost_word = refl

abbrev bin_piece : Piece
bin_piece = record { first = b'b'; others = b'i' ∷ b'n' ∷ []; gap = [] }

shell_round-target_example :
    shell_round 9 archive
      (replicate 1 b' ' ++ (cd_line (b' ' ∷ []) bin_piece ++ 0 ∷ b'l' ∷ []))
      (environ_at (home ∷ []) [] [] [])
    ≡ some (b'l' ∷ [], true, environ_at (home ∷ []) (bin ∷ []) [] [])
unfolding is_blank
shell_round-target_example =
    shell_round-target (home ∷ []) [] [] false [] (named bin ∷ []) archive [] (ls_entry ∷ []) 9 1
      (b' ' ∷ []) bin_piece (b'l' ∷ [])
      ((refl, (refl, tt)), (refl, tt), omega arith, ((refl, (refl, (refl, tt))), tt)) ((cc), (cc))
      (omega arith) (omega arith) (omega arith) refl (omega arith) ((cc), tt) (bin-IsName, tt) tt
      (omega arith) (omega arith) (omega arith) archive-LaidOut tt (omega arith)

-- The first line, `cd b`, `exit`, and a line that is not reached.
abbrev script_lines : List (List ℕ)
script_lines =
    (b'c' ∷ b'd' ∷ b' ' ∷ b'b' ∷ []) ∷ (b'e' ∷ b'x' ∷ b'i' ∷ b't' ∷ []) ∷ (b'l' ∷ b's' ∷ []) ∷ []

cd-IsLine : IsLine (b'c' ∷ b'd' ∷ b' ' ∷ b'b' ∷ [])
cd-IsLine = (
  omega arith,
  omega arith,
  (omega arith, omega arith, (omega arith, omega arith, (omega arith, omega arith, tt))),
)

exit_name-IsLine : IsLine (b'e' ∷ b'x' ∷ b'i' ∷ b't' ∷ [])
exit_name-IsLine = (
  omega arith,
  omega arith,
  (omega arith, omega arith, (omega arith, omega arith, (omega arith, omega arith, tt))),
)

script-actions_of_example :
    script 4 (text ((b'#' ∷ b'!' ∷ []) ∷ script_lines))
    ≡ some (Action.call_chdir (b'b' ∷ []) ∷ Action.call_exit 0 ∷ [])
unfolding script_line parse_command scan scan_char is_blank add_token token token_from end_parse
    split_last keep_args execute_command argument_of strcmp
script-actions_of_example =
    script-actions_of (b'#' ∷ b'!' ∷ []) script_lines 4
      (
        (omega arith, omega arith, (omega arith, omega arith, tt)),
        omega arith,
        (
          cd-IsLine,
          omega arith,
          (
            exit_name-IsLine,
            omega arith,
            ((omega arith, omega arith, (omega arith, omega arith, tt)), omega arith, tt),
          ),
        ),
      )
      (omega arith)

-- The task 300 with the pid 3 has ended.
abbrev third_ended : Kernel
third_ended = update 300 (record ((running_at 100).tasks 300) { state = 0 }) (running_at 100)

third_ended-Ended : Ended 10 3 third_ended
unfolding update
third_ended-Ended = (
  200 ∷ 300 ∷ [],
  400 ∷ [],
  View-SameLinks
      (update-SameLinks 300 (record ((running_at 100).tasks 300) { state = 0 }) (running_at 100)
        refl refl)
      View-at_100,
  omega arith,
  ((λ e s. omega (arith, e)), ((λ e s. omega (arith, s)), tt)),
)

fork_execution-Alive_example :
    fork_execution 10 3 false (running_at 100 ∷ (running_at 100 ∷ third_ended ∷ [])) ≡ some []
fork_execution-Alive_example =
    fork_execution-Alive 10 3 false (running_at 100) (running_at 100 ∷ []) third_ended []
      (omega arith) (third-Alive, (third-Alive, tt)) third_ended-Ended
  where
    third-Alive : Alive 10 3 (running_at 100)
    third-Alive = (200 ∷ 300 ∷ [], 400 ∷ [], View-at_100, omega arith, inr (inl (refl, refl)))
