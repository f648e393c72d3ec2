-- ===== src/Keyboard.antt =====
-- The keyboard (`_key_press_handler`, sys/idt.c, with include/sys/keyboard.h) and the buffer of typed
-- characters (`writeChar`, `readChar` and `handleBackspace`). The bars on the screen, the echo and
-- the acknowledgements to the controller are left out.
pub mod Lines
pub mod Backspace
pub mod Keys
use sbunix_64_bit_operating.Prelude.{
  ℕ, ◌+◌, ◌-◌, Bool, true, false, ◌&&◌, ◌||◌, not, Option, some, List, [], ◌∷◌, ltb, leb, ◌==◌,
  if◌then◌else◌, get_or, ◌>>=◌,
}
use sbunix_64_bit_operating.Kernel.{Kernel, set_foreground_pid}
use sbunix_64_bit_operating.Sched.{exit_pid}

-- The buffer: bytes by their address, the positions and the counters. `indicator` says that the writer
-- has gone round.
pub record Input : Type 0 where
  pub bytes : ℕ → ℕ
  pub std_start : ℕ
  pub write_position : ℕ
  pub read_position : ℕ
  pub end_position : ℕ
  pub indicator : Bool
  pub readline : ℕ

abbrev pub newline : ℕ
newline = 10

unfoldable pub set_input_buf : (page : ℕ) → Input → Input
set_input_buf page b = record b {
  std_start = page;
  write_position = page;
  read_position = page;
  end_position = page + 0x1000;
  indicator = false;
  readline = 0;
}

abbrev pub put : ℕ → ℕ → (ℕ → ℕ) → ℕ → ℕ
put p c bytes = λ q. if q == p then c else bytes q

-- The condition of `readChar`.
abbrev pub is_readable : Input → Bool
is_readable b =
    ((ltb b.read_position b.write_position && not b.indicator)
      || (ltb b.write_position b.read_position && b.indicator))
    && ltb 0 b.readline

unfoldable pub read_char : Input → ℕ × Input
read_char b =
    let c = b.bytes b.read_position in
    let b1 = record b {
      bytes = put b.read_position 0 b.bytes;
      read_position = b.read_position + 1;
      readline = if c == newline then b.readline - 1 else b.readline;
    } in
    if is_readable b
    then (
      c,
      if b1.read_position == b1.end_position + 1
          then record b1 { read_position = b1.std_start; indicator = false }
          else b1,
    )
    else (0, b)

-- The start of `writeChar` for a special character.
unfoldable pub write_caret : Input → Input
write_caret b =
    let b1 = record b {
      bytes = put b.write_position 94 b.bytes;
      write_position = b.write_position + 1;
    } in
    if b1.write_position == b1.end_position
    then record b1 { write_position = b1.std_start; indicator = true }
    else b1

-- What follows a write that has come to the end of the buffer.
unfoldable pub wrap : Input → Input
wrap b =
    let b1 = (read_char b).1 in
    if b1.read_position == b1.std_start
    then b1
    else record b1 { write_position = b1.std_start; indicator = true }

-- `(writePosition==readPosition-1) && (indicator=1)`, with the assignment.
unfoldable pub mark_full : Input → Input
mark_full b = if b.write_position + 1 == b.read_position then record b { indicator = true } else b

unfoldable pub write_char : (c : ℕ) → (special_character : Bool) → Input → Input
write_char c special_character b =
    let b0 = if special_character then write_caret b else b in
    let b1 = record b0 {
      bytes = put b0.write_position c b0.bytes;
      write_position = b0.write_position + 1;
    } in
    let b2 = mark_full (if b1.write_position == b1.end_position then wrap b1 else b1) in
    if c == newline then record b2 { readline = b2.readline + 1 } else b2

-- The three blocks of `handleBackspace`.
unfoldable pub clear_empty : Input → Input
clear_empty b =
    if b.write_position == b.read_position
    then record b { bytes = put b.write_position 0 b.bytes }
    else b

unfoldable pub step_back : Input → Input
step_back b =
    let w = b.write_position - 1 in
    let at = if w + 1 == b.std_start then b.std_start else w in
    if ltb b.read_position b.write_position && not b.indicator && not (b.bytes w == newline)
    then record b { bytes = put at 0 b.bytes; write_position = at }
    else b

unfoldable pub step_back_round : Input → Input
step_back_round b =
    let w = b.write_position - 1 in
    let round = w + 1 == b.std_start in
    let at = if round then b.end_position else w in
    if ltb b.write_position b.read_position && b.indicator && not (b.bytes w == newline)
    then record b {
      bytes = put at 0 b.bytes;
      write_position = at;
      indicator = if round then false else b.indicator;
    }
    else b

unfoldable pub handle_backspace : Input → Input
handle_backspace b = step_back_round (step_back (clear_empty b))

-- `kbdus` and `CAPS_kbdus`, up to their zeros at the end.
abbrev pub kbdus : List ℕ
kbdus =
    0 ∷ 27 ∷ 49 ∷ 50 ∷ 51 ∷ 52 ∷ 53 ∷ 54 ∷ 55 ∷ 56 ∷ 57 ∷ 48 ∷ 45 ∷ 61 ∷ 8 ∷ 9 ∷ 113 ∷ 119 ∷ 101
    ∷ 114 ∷ 116 ∷ 121 ∷ 117 ∷ 105 ∷ 111 ∷ 112 ∷ 91 ∷ 93 ∷ 10 ∷ 0 ∷ 97 ∷ 115 ∷ 100 ∷ 102 ∷ 103 ∷ 104
    ∷ 106 ∷ 107 ∷ 108 ∷ 59 ∷ 39 ∷ 96 ∷ 0 ∷ 92 ∷ 122 ∷ 120 ∷ 99 ∷ 118 ∷ 98 ∷ 110 ∷ 109 ∷ 44 ∷ 46 ∷ 47
    ∷ 0 ∷ 42 ∷ 0 ∷ 32 ∷ 0 ∷ 0 ∷ 0 ∷ 0 ∷ 0 ∷ 0 ∷ 0 ∷ 0 ∷ 0 ∷ 0 ∷ 0 ∷ 0 ∷ 0 ∷ 0 ∷ 0 ∷ 0 ∷ 45 ∷ 0 ∷ 0
    ∷ 0 ∷ 43 ∷ []

abbrev pub caps_kbdus : List ℕ
caps_kbdus =
    0 ∷ 27 ∷ 33 ∷ 64 ∷ 35 ∷ 36 ∷ 37 ∷ 94 ∷ 38 ∷ 42 ∷ 40 ∷ 41 ∷ 95 ∷ 43 ∷ 8 ∷ 9 ∷ 81 ∷ 87 ∷ 69 ∷ 82
    ∷ 84 ∷ 89 ∷ 85 ∷ 73 ∷ 79 ∷ 80 ∷ 123 ∷ 125 ∷ 10 ∷ 0 ∷ 65 ∷ 83 ∷ 68 ∷ 70 ∷ 71 ∷ 72 ∷ 74 ∷ 75 ∷ 76
    ∷ 58 ∷ 34 ∷ 126 ∷ 0 ∷ 124 ∷ 90 ∷ 88 ∷ 67 ∷ 86 ∷ 66 ∷ 78 ∷ 77 ∷ 60 ∷ 62 ∷ 63 ∷ 0 ∷ 42 ∷ 0 ∷ 32
    ∷ 0 ∷ 0 ∷ 0 ∷ 0 ∷ 0 ∷ 0 ∷ 0 ∷ 0 ∷ 0 ∷ 0 ∷ 0 ∷ 0 ∷ 0 ∷ 0 ∷ 0 ∷ 0 ∷ 45 ∷ 0 ∷ 0 ∷ 0 ∷ 43 ∷ []

unfoldable pub plain_code : ℕ → ℕ
plain_code a = get_or kbdus a 0

unfoldable pub caps_code : ℕ → ℕ
caps_code a = get_or caps_kbdus a 0

pub record Keyboard : Type 0 where
  pub shift : Bool
  pub control : Bool
  pub input : Input

-- The keys that only show themselves in the bar.
unfoldable pub is_silent : ℕ → Bool
is_silent a =
    (a == 58)
    || (a == 77)
    || (a == 75)
    || (leb 70 a && leb a 73)
    || (leb 79 a && leb a 83)
    || (a == 56)
    || (a == 15)
    || (a == 1)
    || (leb 59 a && leb a 68)
    || (a == 87)
    || (a == 88)

abbrev pub typed : ℕ → Keyboard → Keyboard
typed c b = record b { input = write_char c false b.input }

-- Control and a letter: H is a backspace, and C ends the foreground process.
unfoldable pub control_key : (fuel : ℕ) → (c : ℕ) → Keyboard × Kernel → Option (Keyboard × Kernel)
control_key fuel c (b, k) =
    let b1 = if c == 72 then record b { input = handle_backspace b.input } else b in
    if c == 67
    then (if k.foreground_pid == 0
        then some (b1, k)
        else (do k1 ← exit_pid fuel k.foreground_pid (set_foreground_pid 0 k); some (b1, k1)))
    else some (b1, k)

-- The `default` of the switch.
unfoldable pub other_key : (fuel : ℕ) → (a : ℕ) → Keyboard × Kernel → Option (Keyboard × Kernel)
other_key fuel a (b, k) =
    if b.shift
    then some (typed (caps_code a) b, k)
    else (if b.control
        then control_key fuel (caps_code a) (b, k)
        else some (typed (plain_code a) b, k))

-- A key that goes down, by the cases of the switch.
unfoldable pub key_down : (fuel : ℕ) → (a : ℕ) → Keyboard × Kernel → Option (Keyboard × Kernel)
key_down fuel a (b, k) =
    if (a == 42) || (a == 54)
    then some (record b { shift = true }, k)
    else (if a == 29
        then some (record b { control = true }, k)
        else (if a == 14
            then some (record b { input = handle_backspace b.input }, k)
            else (if a == 28
                then some (typed newline b, k)
                else (if a == 57
                    then some (typed 32 b, k)
                    else (if is_silent a then some (b, k) else other_key fuel a (b, k))))))

-- A key that goes up. No case of the switch ends in a `break`.
unfoldable pub key_up : (a : ℕ) → Keyboard → Keyboard
key_up a b =
    if (a == 170) || (a == 182)
    then record b { shift = false; control = false }
    else (if a == 157 then record b { control = false } else b)

unfoldable pub key_press : (fuel : ℕ) → (a : ℕ) → Keyboard × Kernel → Option (Keyboard × Kernel)
key_press fuel a (b, k) = if ltb a 128 then key_down fuel a (b, k) else some (key_up a b, k)
