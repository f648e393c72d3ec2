-- ===== src/Keyboard/Lines.antt =====
-- A line that is typed into the buffer and read from it (sys/idt.c).
use sbunix_64_bit_operating.Prelude.{
  ℕ, zero, suc, ◌+◌, ◌-◌, ◌≤◌, ◌<◌, ◌≡◌, refl, sym, ap, ◌∙◌, subst, inl, inr, true, false, List, [],
  ◌∷◌, ◌++◌, arith, ◌==◌, if◌then◌else◌, eq→==, ne→==, Bool-cases, length, length-append,
}
use sbunix_64_bit_operating.Links.{count, count-append}
use sbunix_64_bit_operating.Keyboard.{
  Input, read_char, write_char, mark_full, newline, put, is_readable,
}

-- The bytes from `p` on are the list.
abbrev pub Holds : (ℕ → ℕ) → ℕ → List ℕ → Type 0
Holds bytes p [] = Unit {0}
Holds bytes p (c ∷ cs) = (bytes p ≡ c) × Holds bytes (p + 1) cs

Holds-put :
    (bytes : ℕ → ℕ) (p q c : ℕ) (cs : List ℕ)
    → p < q
    → Holds bytes q cs
    → Holds (put p c bytes) q cs
Holds-put bytes p q c [] l h = tt
Holds-put bytes p q c (d ∷ ds) l h = (
  rw (ne→== q p (λ e. omega (arith, l, e))) h.0,
  Holds-put bytes p (q + 1) c ds (omega (arith, l)) h.1,
)

-- The writer has not gone round, and stands `n` bytes and more before the end.
pub record Straight (n : ℕ) (b : Input) : Type 0 where
  pub forward : b.indicator ≡ false
  pub ahead : b.read_position ≤ b.write_position
  pub room : b.write_position + n < b.end_position

-- What `cs` typed into `b` has made of it.
pub record Typed (cs : List ℕ) (lines : ℕ) (b b' : Input) : Type 0 where
  pub held : Holds b'.bytes b.write_position cs
  pub before : (q : ℕ) → q < b.write_position → b'.bytes q ≡ b.bytes q
  pub written : b'.write_position ≡ b.write_position + length cs
  pub read : b'.read_position ≡ b.read_position
  pub forward : b'.indicator ≡ false
  pub start : b'.std_start ≡ b.std_start
  pub end : b'.end_position ≡ b.end_position
  pub line_count : b'.readline ≡ b.readline + lines

-- A character typed with room left.
write_char-Typed :
    (c : ℕ) (b : Input)
    → Straight 1 b
    → Typed (c ∷ []) (if c == newline then 1 else 0) b (write_char c false b)
unfolding write_char mark_full
write_char-Typed c b s =
    let not_end : (b.write_position + 1 == b.end_position) ≡ false =
      ne→== _ _ (λ e. omega (arith, s.room, e)) in
    let not_full : (b.write_position + 1 + 1 == b.read_position) ≡ false =
      ne→== _ _ (λ e. omega (arith, s.ahead, e)) in
    elim (Bool-cases (c == newline)) [
      | inl q ↦
          rw (q, not_end, not_full)
            (record {
              held = (rw (eq→== b.write_position b.write_position refl) refl, tt);
              before = λ p l. rw (ne→== p b.write_position (λ e. omega (arith, l, e))) refl;
              written = refl;
              read = refl;
              forward = s.forward;
              start = refl;
              end = refl;
              line_count = refl;
            })
      | inr q ↦
          rw (q, not_end, not_full)
            (record {
              held = (rw (eq→== b.write_position b.write_position refl) refl, tt);
              before = λ p l. rw (ne→== p b.write_position (λ e. omega (arith, l, e))) refl;
              written = refl;
              read = refl;
              forward = s.forward;
              start = refl;
              end = refl;
              line_count = omega arith;
            })
    ]

unfoldable pub type_chars : List ℕ → Input → Input
type_chars [] b = b
type_chars (c ∷ cs) b = type_chars cs (write_char c false b)

unfoldable pub read_chars : ℕ → Input → List ℕ × Input
read_chars zero b = ([], b)
read_chars (suc n) b = let (c, b1) = read_char b in let (cs, b2) = read_chars n b1 in (c ∷ cs, b2)

Typed-cons :
    (c n m : ℕ) (cs : List ℕ) {b b1 b2 : Input}
    → Typed (c ∷ []) n b b1
    → Typed cs m b1 b2
    → Typed (c ∷ cs) (n + m) b b2
Typed-cons c n m cs {b} {b1} {b2} t u = record {
  held = (
    u.before b.write_position (omega (arith, t.written)) ∙ t.held.0,
    subst (λ p. Holds b2.bytes p cs) t.written u.held,
  );
  before = λ q l. u.before q (omega (arith, l, t.written)) ∙ t.before q l;
  written = omega (arith, u.written, t.written);
  read = u.read ∙ t.read;
  forward = u.forward;
  start = u.start ∙ t.start;
  end = u.end ∙ t.end;
  line_count = omega (arith, u.line_count, t.line_count);
}

type_chars-Typed :
    (cs : List ℕ) (b : Input)
    → Straight (length cs) b
    → Typed cs (count newline cs) b (type_chars cs b)
unfolding type_chars
type_chars-Typed [] b s = record {
  held = tt;
  before = λ q l. refl;
  written = omega arith;
  read = refl;
  forward = s.forward;
  start = refl;
  end = refl;
  line_count = omega arith;
}
type_chars-Typed (c ∷ cs) b s =
    let t =
      write_char-Typed c b
        (record { forward = s.forward; ahead = s.ahead; room = omega (arith, s.room) }) in
    Typed-cons c _ (count newline cs) cs t (
      type_chars-Typed cs (write_char c false b) (record {
        forward = t.forward;
        ahead = omega (arith, s.ahead, t.written, t.read);
        room = omega (arith, s.room, t.written, t.end);
      }))

-- One character read with a line in the buffer, before its end.
read_char_step :
    (c n : ℕ) (b : Input)
    → b.indicator ≡ false
    → b.read_position < b.write_position
    → b.write_position < b.end_position
    → b.readline ≡ suc n
    → b.bytes b.read_position ≡ c
    → read_char b ≡ (
      c,
      record b {
        bytes = put b.read_position 0 b.bytes;
        read_position = b.read_position + 1;
        readline = if c == newline then n else suc n;
      },
    )
unfolding read_char
read_char_step c n b f l w r h =
    let readable : is_readable b ≡ true = ground (arith, r) in
    let inside : (b.read_position + 1 == b.end_position + 1) ≡ false =
      ne→== _ _ (λ e. omega (arith, l, w, e)) in
    let one_less : suc n - 1 ≡ n = omega arith in rw (readable, inside, h, r, one_less) refl

-- A line at the position of the reader is read to its end.
read_chars-line :
    (cs : List ℕ) (n : ℕ) (b : Input)
    → b.indicator ≡ false
    → b.read_position + length cs < b.write_position
    → b.write_position < b.end_position
    → b.readline ≡ suc n
    → count newline cs ≡ 0
    → Holds b.bytes b.read_position (cs ++ newline ∷ [])
    → (b' : Input) × (read_chars (suc (length cs)) b ≡ (cs ++ newline ∷ [], b'))
      × (b'.read_position ≡ b.read_position + length cs + 1)
      × (b'.write_position ≡ b.write_position)
      × (b'.readline ≡ n)
unfolding read_chars
read_chars-line [] n b f l w r z h =
    let e = read_char_step newline n b f (omega (arith, l)) w r h.0 in
    (_, ap (λ p. (p.0 ∷ [], p.1)) e, omega arith, refl, refl)
read_chars-line (c ∷ cs) n b f l w r z h =
    let other : (c == newline) ≡ false = ground (arith, z) in
    let b1 = record b {
      bytes = put b.read_position 0 b.bytes;
      read_position = b.read_position + 1;
      readline = suc n;
    } in
    let e : read_char b ≡ (c, b1) =
      read_char_step c n b f (omega (arith, l)) w r h.0 ∙ rw other refl in
    let (b', run, at, kept, lines) =
      read_chars-line cs n b1 f (omega (arith, l)) w refl (omega (arith, z))
        (Holds-put b.bytes b.read_position (b.read_position + 1) 0 _ (omega arith) h.1) in
    (
      b',
      ap (λ p. (p.0 ∷ (read_chars (suc (length cs)) p.1).0, (read_chars (suc (length cs)) p.1).1)) e
          ∙ ap (λ q. (c ∷ q.0, q.1)) run,
      omega (arith, at),
      kept,
      lines,
    )

-- With the buffer empty and room for it, a line that is typed and ended by Enter is read back
-- character by character, and the buffer is empty again.
pub read_chars-type_chars :
    (cs : List ℕ) (b : Input)
    → b.indicator ≡ false
    → b.read_position ≡ b.write_position
    → b.readline ≡ 0
    → b.write_position + length cs + 1 < b.end_position
    → count newline cs ≡ 0
    → (b' : Input) × (read_chars (suc (length cs)) (type_chars (cs ++ newline ∷ []) b)
        ≡ (cs ++ newline ∷ [], b'))
      × (b'.read_position ≡ b'.write_position)
      × (b'.readline ≡ 0)
read_chars-type_chars cs b f e r room z =
    let line = cs ++ newline ∷ [] in
    let size : length line ≡ length cs + 1 = length-append cs (newline ∷ []) in
    let t =
      type_chars-Typed line b
        (record { forward = f; ahead = omega (arith, e); room = omega (arith, room, size) }) in
    let b1 = type_chars line b in
    let one : b1.readline ≡ 1 =
      omega (arith, t.line_count, r, count-append newline cs (newline ∷ []), z) in
    let (b', run, at, kept, lines) =
      read_chars-line cs 0 b1 t.forward (omega (arith, t.read, t.written, e, size))
        (omega (arith, t.written, t.end, room, size)) one z
        (subst (λ p. Holds b1.bytes p line) (sym (t.read ∙ e)) t.held) in
    (b', run, omega (arith, at, kept, t.read, t.written, e, size), lines)
