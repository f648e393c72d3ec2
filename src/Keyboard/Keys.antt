-- ===== src/Keyboard/Keys.antt =====
-- Whole key presses (`_key_press_handler`, sys/idt.c): a typed line, and Control-C.
use sbunix_64_bit_operating.Prelude.{
  ℕ, suc, ◌+◌, ◌≤◌, ◌<◌, ◌≡◌, refl, ap, ◌∙◌, subst, ◌≢◌, true, false, ◌||◌, Option, some, List, [],
  ◌∷◌, ◌++◌, map, arith, ltb, ◌==◌, ne→==, length, ◌>>=◌,
}
use sbunix_64_bit_operating.Kernel.{Kernel, set_foreground_pid}
use sbunix_64_bit_operating.Links.{count}
use sbunix_64_bit_operating.Sched.{exit_pid}
use sbunix_64_bit_operating.Sched.View.{View, View-same}
use sbunix_64_bit_operating.Sched.Enter.{IsEntered}
use sbunix_64_bit_operating.Sched.Kill.{NoPid}
use sbunix_64_bit_operating.Sched.Exit.{exit_pid-View}
use sbunix_64_bit_operating.Keyboard.{
  Keyboard, Input, key_press, key_down, other_key, control_key, typed, plain_code, caps_code,
  is_silent, newline,
}
use sbunix_64_bit_operating.Keyboard.Lines.{read_chars, type_chars, read_chars-type_chars}

unfoldable pub press_keys : (fuel : ℕ) → List ℕ → Keyboard × Kernel → Option (Keyboard × Kernel)
press_keys fuel [] s = some s
press_keys fuel (a ∷ rest) s = do s1 ← key_press fuel a s; press_keys fuel rest s1

-- A key that has no case of its own in the switch, and does not type a newline.
pub record IsPlain (a : ℕ) : Type 0 where
  pub goes_down : ltb a 128 ≡ true
  pub not_shift : ((a == 42) || (a == 54)) ≡ false
  pub not_control : (a == 29) ≡ false
  pub not_backspace : (a == 14) ≡ false
  pub not_enter : (a == 28) ≡ false
  pub not_space : (a == 57) ≡ false
  pub not_silent : is_silent a ≡ false
  pub no_newline : (plain_code a == newline) ≡ false

abbrev pub AllPlain : List ℕ → Type 0
AllPlain [] = Unit {0}
AllPlain (a ∷ rest) = IsPlain a × AllPlain rest

-- Without shift and control a plain key types its code.
key_press-plain :
    (fuel a : ℕ) (b : Keyboard) (k : Kernel)
    → IsPlain a
    → b.shift ≡ false
    → b.control ≡ false
    → key_press fuel a (b, k) ≡ some (typed (plain_code a) b, k)
unfolding key_press key_down other_key
key_press-plain fuel a b k p s c =
    rw
      (
        p.goes_down, p.not_shift, p.not_control, p.not_backspace, p.not_enter, p.not_space,
        p.not_silent, s, c,
      )
      refl

press_keys-line :
    (fuel : ℕ) (keys : List ℕ) (b : Keyboard) (k : Kernel)
    → AllPlain keys
    → b.shift ≡ false
    → b.control ≡ false
    → press_keys fuel (keys ++ 28 ∷ []) (b, k)
      ≡ some (record b { input = type_chars (map plain_code keys ++ newline ∷ []) b.input }, k)
unfolding press_keys type_chars
press_keys-line fuel [] b k p s c = unfold key_press key_down in refl
press_keys-line fuel (a ∷ rest) b k p s c =
    rw (key_press-plain fuel a b k p.0 s c)
      (press_keys-line fuel rest (typed (plain_code a) b) k p.1 s c)

no_newline : (keys : List ℕ) → AllPlain keys → count newline (map plain_code keys) ≡ 0
no_newline [] p = refl
no_newline (a ∷ rest) p = rw p.0.no_newline (omega (arith, no_newline rest p.1))

length-map : (f : ℕ → ℕ) (xs : List ℕ) → length (map f xs) ≡ length xs
length-map f [] = refl
length-map f (x ∷ xs) = ap suc (length-map f xs)

-- With an empty buffer, room in it and neither shift nor control held, the codes of plain keys and
-- of the Enter behind them are read back in their order.
pub read_chars-press_keys :
    (fuel : ℕ) (keys : List ℕ) (b : Keyboard) (k : Kernel)
    → AllPlain keys
    → b.shift ≡ false
    → b.control ≡ false
    → b.input.indicator ≡ false
    → b.input.read_position ≡ b.input.write_position
    → b.input.readline ≡ 0
    → b.input.write_position + length keys + 1 < b.input.end_position
    → (b' : Keyboard) × (i : Input) × (press_keys fuel (keys ++ 28 ∷ []) (b, k) ≡ some (b', k))
      × (read_chars (suc (length keys)) b'.input ≡ (map plain_code keys ++ newline ∷ [], i))
      × (i.read_position ≡ i.write_position)
read_chars-press_keys fuel keys b k p s c f e r room =
    let codes = map plain_code keys in
    let size : length codes ≡ length keys = length-map plain_code keys in
    let (i, run, empty, lines) =
      read_chars-type_chars codes b.input f e r (omega (arith, room, size)) (no_newline keys p) in
    (
      record b { input = type_chars (codes ++ newline ∷ []) b.input },
      i,
      press_keys-line fuel keys b k p s c,
      subst
          (λ n.
            read_chars (suc n) (type_chars (codes ++ newline ∷ []) b.input)
            ≡ (codes ++ newline ∷ [], i))
          size run,
      empty,
    )

control_c :
    (fuel : ℕ) (b : Keyboard) (k : Kernel)
    → b.shift ≡ false
    → b.control ≡ true
    → k.foreground_pid ≢ 0
    → key_press fuel 46 (b, k)
      ≡ (exit_pid fuel k.foreground_pid (set_foreground_pid 0 k) >>= (λ k1. some (b, k1)))
unfolding key_press key_down other_key control_key is_silent caps_code
control_c fuel b k s c h = rw (s, c, ne→== k.foreground_pid 0 h) refl

-- Control-C ends the foreground process, which is the task `d` of the ring, and enters the task
-- behind it.
pub control_c-View :
    (fuel d y : ℕ) (before after ys dead : List ℕ) (b : Keyboard) (k : Kernel)
    → b.shift ≡ false
    → b.control ≡ true
    → View k k.running (before ++ d ∷ after) dead
    → after ++ k.running ∷ before ≡ y ∷ ys
    → (k.foreground_pid ≢ 0) × (k.foreground_pid ≢ 1)
    → (k.tasks d).pid ≡ k.foreground_pid
    → NoPid k k.foreground_pid before
    → 40 ≤ (k.tasks y).regs.kernel_rsp
    → length ys + length dead + 2 < fuel
    → (k' : Kernel) × (key_press fuel 46 (b, k) ≡ some (b, k'))
      × View k' y ys (dead ++ d ∷ [])
      × IsEntered y ((k.tasks y).regs) k'
      × ((k'.tasks d).state ≡ 0)
unfolding set_foreground_pid
control_c-View fuel d y before after ys dead b k s c v r n e p h l =
    let (k', run, v', entered, state) =
      exit_pid-View fuel k.foreground_pid d y before after ys dead (record k { foreground_pid = 0 })
        (View-same (λ x. refl) refl v) r n.1 e p h l in
    (k', control_c fuel b k s c n.0 ∙ rw run refl, v', entered, state)
