-- ===== src/Shell/Parse.antt =====
-- `parse_command` (bin/sbush/sbush.c) on a line of words.
use sbunix_64_bit_operating.Prelude.{
  ℕ, ◌+◌, ◌≤◌, ◌<◌, ◌≡◌, refl, sym, ap, ◌∙◌, inl, inr, Bool, true, false, some, List, [], ◌∷◌, ◌++◌,
  map, arith, ltb, ◌==◌, if◌then◌else◌, lt→ltb, Bool-cases, length, length-append, ◌>>=◌,
}
use sbunix_64_bit_operating.Strings.{strcmp}
use sbunix_64_bit_operating.Shell.{
  ampersand, Scan, scan, split_last, Parsed, keep_args, end_parse, parse_command,
}
use sbunix_64_bit_operating.Shell.Loop.{AllBlank, scan-append, scan_front}
use sbunix_64_bit_operating.Shell.Words.{
  Piece, word, text, AllPieces, has_bar, last_token, scan_pieces,
}

-- An ampersand in the last place, and the words without it.
abbrev pub ends_with_ampersand : List (List ℕ) → Bool
ends_with_ampersand [] = false
ends_with_ampersand (w ∷ []) = strcmp w ampersand == 0
ends_with_ampersand (w ∷ v ∷ ws) = ends_with_ampersand (v ∷ ws)

abbrev pub without_ampersand : List (List ℕ) → List (List ℕ)
without_ampersand [] = []
without_ampersand (w ∷ []) = if strcmp w ampersand == 0 then [] else w ∷ []
without_ampersand (w ∷ v ∷ ws) = w ∷ without_ampersand (v ∷ ws)

split_last-ampersand :
    (w : List ℕ) (ws : List (List ℕ))
    → (front : List (List ℕ)) × (last : List ℕ) × (split_last (w ∷ ws) ≡ some (front, last))
      × ((strcmp last ampersand == 0) ≡ ends_with_ampersand (w ∷ ws))
      × ((if strcmp last ampersand == 0 then front else w ∷ ws) ≡ without_ampersand (w ∷ ws))
unfolding split_last
split_last-ampersand w [] = ([], w, refl, refl, refl)
split_last-ampersand w (v ∷ ws) =
    let (front, last, split, ends, args) = split_last-ampersand v ws in
    (
      w ∷ front,
      last,
      rw split refl,
      ends,
      elim (Bool-cases (strcmp last ampersand == 0)) [
        | inl y ↦ rw y (ap (w ∷◌) (sym (rw y refl) ∙ args))
        | inr n ↦ rw n (ap (w ∷◌) (sym (rw n refl) ∙ args))
      ],
    )

-- What `parse_command` makes of a line with these words.
abbrev pub parsed : List (List ℕ) → Parsed
parsed ws = record {
  com_args = without_ampersand ws;
  pipe_flag = has_bar ws;
  background = ends_with_ampersand ws;
}

end_parse-parsed :
    (w : List ℕ) (ws : List (List ℕ)) (r : Scan)
    → r.com_args ≡ w ∷ ws
    → r.pipe_flag ≡ has_bar (w ∷ ws)
    → length (without_ampersand (w ∷ ws)) < 32
    → end_parse r ≡ some (parsed (w ∷ ws))
unfolding end_parse keep_args
end_parse-parsed w ws r words flag few =
    let (front, last, split, ends, args) = split_last-ampersand w ws in
    let fits : ltb (length (without_ampersand (w ∷ ws))) 32 ≡ true = lt→ltb _ _ few in
    rw (words, split, args, ends, fits, flag) refl

-- The variables in front of the loop.
abbrev before_line : Scan
before_line = record { start = 0; end = 0; com_args = []; pipe_flag = false }

parse_command-scan :
    (command : List ℕ)
    → 0 < length command
    → parse_command command
      ≡ (do p ← end_parse (last_token command (scan command 0 command before_line)); some (some p))
unfolding parse_command
parse_command-scan [] h = absurd (omega arith)
parse_command-scan (c ∷ command) h = refl

text-pos : (p : Piece) (ps : List Piece) → 0 < length (text (p ∷ ps))
text-pos p [] = omega arith
text-pos p (q ∷ ps) = omega arith

-- A line of blanks and words, with a blank between two words at least and at most 31 words: the words
-- become the arguments, an ampersand in the last place only the flag for the background, and a word
-- that is a bar sets the flag for a pipe. The first word has two characters, or there is a blank in
-- front of it.
pub parse_command-parsed :
    (front : List ℕ) (p : Piece) (ps : List Piece)
    → AllBlank front
    → AllPieces (p ∷ ps)
    → 2 ≤ length front + length (word p)
    → length (without_ampersand (map word (p ∷ ps))) < 32
    → parse_command (front ++ text (p ∷ ps)) ≡ some (some (parsed (map word (p ∷ ps))))
parse_command-parsed front p ps b a long few =
    let command : List ℕ = front ++ text (p ∷ ps) in
    let s1 : Scan = record before_line { start = length front } in
    let run : scan command 0 command before_line ≡ scan command (length front) (text (p ∷ ps)) s1 =
      scan-append command front (text (p ∷ ps)) 0 before_line
      ∙ rw (scan_front command front before_line b refl refl)
          (ap (λ i. scan command i (text (p ∷ ps)) s1) (omega arith)) in
    let (words, flag) = scan_pieces p ps command front s1 refl a refl long in
    parse_command-scan command (omega (arith, length-append front (text (p ∷ ps)), text-pos p ps))
    ∙ rw run (
        ap (λ x. do p ← x; some (some p))
          (end_parse-parsed (word p) (map word ps) _ words flag few))
