-- ===== src/Shell/Words.antt =====
-- The words that `parse_command` (bin/sbush/sbush.c) finds in a line.
use sbunix_64_bit_operating.Prelude.{
  ℕ, ◌+◌, ◌≤◌, ◌<◌, ◌≡◌, refl, sym, ap, ◌∙◌, subst, ◌⊎◌, inl, inr, Bool, true, false, ◌||◌, List,
  [], ◌∷◌, ◌++◌, map, arith, leb, ◌==◌, if◌then◌else◌, length, length-append,
}
use mathlib.Core.List.{append_assoc, append-nil}
use sbunix_64_bit_operating.Strings.{strcmp}
use sbunix_64_bit_operating.Shell.{bar, Scan, add_token, scan}
use sbunix_64_bit_operating.Shell.Loop.{
  AllBlank, NoBlank, scan-append, scan-NoBlank, scan_behind, token-append,
}

-- A word, which is not empty, and the blanks behind it.
pub record Piece : Type 0 where
  pub first : ℕ
  pub others : List ℕ
  pub gap : List ℕ

abbrev pub word : Piece → List ℕ
word p = p.first ∷ p.others

abbrev pub text : List Piece → List ℕ
text [] = []
text (p ∷ []) = word p ++ p.gap
text (p ∷ q ∷ ps) = word p ++ (p.gap ++ text (q ∷ ps))

-- There is a blank behind each word but the last one.
abbrev pub AllPieces : List Piece → Type 0
AllPieces [] = Unit {0}
AllPieces (p ∷ []) = NoBlank (word p) × AllBlank p.gap
AllPieces (p ∷ q ∷ ps) = NoBlank (word p) × AllBlank p.gap × (0 < length p.gap) × AllPieces (q ∷ ps)

abbrev pub has_bar : List (List ℕ) → Bool
has_bar [] = false
has_bar (w ∷ ws) = (strcmp w bar == 0) || has_bar ws

-- The end of the loop, where a word may be left.
abbrev pub last_token : (command : List ℕ) → Scan → Scan
last_token command s = if leb s.start s.end then add_token command s else s

-- The scan has these words and this flag behind those it had.
abbrev pub HasWords : List (List ℕ) → Scan → Scan → Type 0
HasWords ws s r = (r.com_args ≡ s.com_args ++ ws) × (r.pipe_flag ≡ (s.pipe_flag || has_bar ws))

abbrev with_word : List ℕ → Scan → Scan
with_word w s = record s {
  com_args = s.com_args ++ w ∷ [];
  pipe_flag = s.pipe_flag || (strcmp w bar == 0);
}

add_token-word :
    (command pre : List ℕ) (c : ℕ) (w rest : List ℕ) (s : Scan)
    → command ≡ pre ++ ((c ∷ w) ++ rest)
    → s.start ≡ length pre
    → s.end ≡ length pre + length w
    → add_token command s ≡ with_word (c ∷ w) s
unfolding add_token
add_token-word command pre c w rest s whole at to =
    rw (at, to, whole, token-append pre c w rest) refl

or_false : (a : Bool) → (a || false) ≡ a
or_false true = refl
or_false false = refl

or_assoc : (a b c : Bool) → ((a || b) || c) ≡ (a || (b || c))
or_assoc true b c = refl
or_assoc false b c = refl

with_word-HasWords : (w : List ℕ) (s r : Scan) → r ≡ with_word w s → HasWords (w ∷ []) s r
with_word-HasWords w s r e =
    (ap (λ x. x.com_args) e, ap (λ x. x.pipe_flag) e ∙ ap (s.pipe_flag ||◌) (sym (or_false _)))

HasWords-further :
    (w : List ℕ) (ws : List (List ℕ)) (s s1 r : Scan)
    → s1.com_args ≡ s.com_args ++ w ∷ []
    → s1.pipe_flag ≡ (s.pipe_flag || (strcmp w bar == 0))
    → HasWords ws s1 r
    → HasWords (w ∷ ws) s r
HasWords-further w ws s s1 r words flag (more, flags) = (
  more ∙ rw words (append_assoc s.com_args (w ∷ []) ws),
  flags ∙ rw flag (or_assoc s.pipe_flag (strcmp w bar == 0) (has_bar ws)),
)

-- The scan of a word and the blanks behind it.
scan_piece :
    (command pre : List ℕ) (p : Piece) (d : ℕ) (g rest : List ℕ) (s : Scan)
    → command ≡ pre ++ (word p ++ (p.gap ++ rest))
    → p.gap ≡ d ∷ g
    → NoBlank (word p)
    → AllBlank p.gap
    → s.start ≡ length pre
    → 2 ≤ length pre + length (word p)
    → scan command (length pre) (word p ++ p.gap) s
      ≡ record (with_word (word p) (record s { end = length pre + length p.others })) {
        start = length pre + length (word p) + length p.gap;
      }
scan_piece command pre p d g rest s whole gap n b at long =
    let s1 : Scan = record s { end = length pre + length p.others } in
    scan-append command (word p) p.gap (length pre) s
    ∙ rw (scan-NoBlank command p.others p.first (length pre) s n, gap)
        (scan_behind command g d (length pre + length (word p)) s1 (subst AllBlank gap b)
            (omega arith) (omega arith) (omega arith)
          ∙ ap {A = Scan} (λ r. record r { start = length pre + length (word p) + length (d ∷ g) })
              (add_token-word command pre p.first p.others (p.gap ++ rest) s1 whole at refl))

list_cases : (s : List ℕ) → (s ≡ []) ⊎ ((d : ℕ) × (g : List ℕ) × (s ≡ d ∷ g))
list_cases [] = inl refl
list_cases (d ∷ g) = inr (d, g, refl)

-- The last word, with or without blanks behind it.
last_piece :
    (command pre : List ℕ) (p : Piece) (s : Scan)
    → command ≡ pre ++ (word p ++ p.gap)
    → NoBlank (word p)
    → AllBlank p.gap
    → s.start ≡ length pre
    → 2 ≤ length pre + length (word p)
    → HasWords (word p ∷ []) s (last_token command (scan command (length pre) (word p ++ p.gap) s))
last_piece command pre p s whole n b at long = elim (list_cases p.gap) [
  | inl none_behind ↦
      let s1 : Scan = record s { end = length pre + length p.others } in
      let inside : leb s1.start s1.end ≡ true = ground arith in
      let run : scan command (length pre) (word p ++ p.gap) s ≡ s1 =
        rw (none_behind, append-nil (word p))
          (scan-NoBlank command p.others p.first (length pre) s n) in
      with_word-HasWords (word p) s1
        (last_token command (scan command (length pre) (word p ++ p.gap) s))
        (rw (run, inside) (add_token-word command pre p.first p.others p.gap s1 whole at refl))
  | inr (d, g, gap) ↦
      let whole' : command ≡ pre ++ (word p ++ (p.gap ++ [])) =
        whole ∙ ap (λ g. pre ++ (word p ++ g)) (sym (append-nil p.gap)) in
      let run = scan_piece command pre p d g [] s whole' gap n b at long in
      let outside : leb (length pre + length (word p) + length p.gap) (length pre + length p.others)
          ≡ false =
        ground arith in
      rw (run, outside) (refl, ap (s.pipe_flag ||◌) (sym (or_false _)))
]

-- All words of a line from `pre` on.
pub scan_pieces :
    (p : Piece) (ps : List Piece) (command pre : List ℕ) (s : Scan)
    → command ≡ pre ++ text (p ∷ ps)
    → AllPieces (p ∷ ps)
    → s.start ≡ length pre
    → 2 ≤ length pre + length (word p)
    → HasWords
        (map word (p ∷ ps))
        s
        (last_token command (scan command (length pre) (text (p ∷ ps)) s))
scan_pieces p [] command pre s whole (n, b) at long = last_piece command pre p s whole n b at long
scan_pieces p (q ∷ ps) command pre s whole (n, b, filled, a) at long = elim (list_cases p.gap) [
  | inl none_behind ↦ absurd (omega (arith, filled, ap length none_behind))
  | inr (d, g, gap) ↦
      let t : List ℕ = text (q ∷ ps) in
      let piece : List ℕ = word p ++ p.gap in
      let pre1 : List ℕ = pre ++ piece in
      let s1 : Scan =
        record (with_word (word p) (record s { end = length pre + length p.others })) {
          start = length pre + length (word p) + length p.gap;
        } in
      let cut : word p ++ (p.gap ++ t) ≡ piece ++ t = sym (append_assoc (word p) p.gap t) in
      let long1 : length pre1 ≡ length pre + length (word p) + length p.gap =
        omega (arith, length-append pre piece, length-append (word p) p.gap) in
      let run = scan_piece command pre p d g t s whole gap n b at long in
      let whole1 : command ≡ pre1 ++ t =
        whole ∙ ap (pre ++◌) cut ∙ sym (append_assoc pre piece t) in
      let place : length pre + length piece ≡ length pre1 = sym (length-append pre piece) in
      let walked : scan command (length pre) (text (p ∷ q ∷ ps)) s
          ≡ scan command (length pre1) t s1 =
        ap (λ x. scan command (length pre) x s) cut
        ∙ scan-append command piece t (length pre) s
        ∙ ap (λ x. scan command (length pre + length piece) t x) run
        ∙ ap (λ i. scan command i t s1) place in
      subst (λ r. HasWords (map word (p ∷ q ∷ ps)) s (last_token command r)) (sym walked)
        (HasWords-further (word p) (map word (q ∷ ps)) s s1
          (last_token command (scan command (length pre1) t s1)) refl refl
          (scan_pieces q ps command pre1 s1 whole1 a (sym long1) (omega (arith, long1, long))))
]
