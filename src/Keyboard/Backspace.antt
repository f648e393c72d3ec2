-- ===== src/Keyboard/Backspace.antt =====
-- A backspace behind a character (`handleBackspace`, sys/idt.c).
use sbunix_64_bit_operating.Prelude.{
  ℕ, ◌+◌, ◌-◌, ◌≤◌, ◌≡◌, refl, ◌≢◌, inl, inr, true, false, arith, ltb, ◌==◌, lt→ltb, eq→==, ne→==,
  Bool-cases,
}
use sbunix_64_bit_operating.Keyboard.{
  Input, write_char, mark_full, newline, put, handle_backspace, clear_empty, step_back,
  step_back_round,
}
use sbunix_64_bit_operating.Keyboard.Lines.{Straight}

-- The buffer with one character more.
abbrev with_char : ℕ → Input → Input
with_char c b = record b {
  bytes = put b.write_position c b.bytes;
  write_position = b.write_position + 1;
}

write_char_plain :
    (c : ℕ) (b : Input) → Straight 1 b → c ≢ newline → write_char c false b ≡ with_char c b
unfolding write_char mark_full
write_char_plain c b s n =
    let not_end : (b.write_position + 1 == b.end_position) ≡ false =
      ne→== _ _ (λ e. omega (arith, s.room, e)) in
    let not_full : (b.write_position + 1 + 1 == b.read_position) ≡ false =
      ne→== _ _ (λ e. omega (arith, s.ahead, e)) in
    rw (ne→== c newline n, not_end, not_full) refl

clear_empty_idle : (b : Input) → b.write_position ≢ b.read_position → clear_empty b ≡ b
unfolding clear_empty
clear_empty_idle b h = rw (ne→== _ _ h) refl

step_back_round_idle : (b : Input) → b.indicator ≡ false → step_back_round b ≡ b
unfolding step_back_round
step_back_round_idle b f = elim (Bool-cases (ltb b.write_position b.read_position)) [
  | inl q ↦ rw (q, f) refl
  | inr q ↦ rw q refl
]

step_back-with_char :
    (c : ℕ) (b : Input)
    → Straight 1 b
    → b.std_start ≤ b.read_position
    → c ≢ newline
    → step_back (with_char c b)
      ≡ record b { bytes = put b.write_position 0 (put b.write_position c b.bytes) }
unfolding step_back
step_back-with_char c b s l n =
    let w : b.write_position + 1 - 1 ≡ b.write_position = omega arith in
    let behind : ltb b.read_position (b.write_position + 1) ≡ true =
      lt→ltb _ _ (omega (arith, s.ahead)) in
    let inside : (b.write_position + 1 == b.std_start) ≡ false =
      ne→== _ _ (λ e. omega (arith, s.ahead, l, e)) in
    rw
      (
        w,
        behind,
        inside,
        s.forward,
        eq→== b.write_position b.write_position refl,
        ne→== c newline n,
      )
      refl

-- With room left, a backspace takes back the character that was typed last, unless it was Enter.
pub handle_backspace-write_char :
    (c : ℕ) (b : Input)
    → Straight 1 b
    → b.std_start ≤ b.read_position
    → c ≢ newline
    → handle_backspace (write_char c false b)
      ≡ record b { bytes = put b.write_position 0 (put b.write_position c b.bytes) }
unfolding handle_backspace
handle_backspace-write_char c b s l n =
    rw
      (
        write_char_plain c b s n,
        clear_empty_idle (with_char c b) (λ e. omega (arith, s.ahead, e)),
        step_back-with_char c b s l n,
      )
      (step_back_round_idle _ s.forward)
