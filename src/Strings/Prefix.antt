-- ===== src/Strings/Prefix.antt =====
-- `startswith` (sys/tarfs.c) against prefixes.
use sbunix_64_bit_operating.Prelude.{
  ℕ, ◌≡◌, refl, sym, ap, ◌∙◌, ◌-◌, subst, ◌↔◌, inl, inr, List, [], ◌∷◌, ◌++◌, arith, ◌==◌, ==→eq,
  eq→==, Bool-cases,
}
use sbunix_64_bit_operating.Strings.{startswith, int_mod}

-- The child is the parent with something behind it.
abbrev pub Extends : List ℕ → List ℕ → Type 0
Extends parent child = (rest : List ℕ) × (parent ++ rest ≡ child)

startswith-append : (parent rest : List ℕ) → startswith parent (parent ++ rest) ≡ 0
unfolding startswith
startswith-append [] rest = refl
startswith-append (p ∷ ps) rest = rw (eq→== p p refl) (startswith-append ps rest)

startswith_zero : (parent child : List ℕ) → startswith parent child ≡ 0 → Extends parent child
unfolding startswith
startswith_zero [] child e = (child, refl)
startswith_zero (p ∷ ps) [] e = absurd (ground (arith, e))
startswith_zero (p ∷ ps) (c ∷ cs) e = elim (Bool-cases (p == c)) [
  | inl r ↦
      let (rest, h) = startswith_zero ps cs (sym (rw r refl) ∙ e) in
      (rest, ap (λ x. x ∷ ps ++ rest) (==→eq p c r) ∙ ap (c ∷◌) h)
  | inr r ↦ let wrong : int_mod - 1 ≡ 0 = sym (rw r refl) ∙ e in absurd (omega (arith, wrong))
]

-- `startswith` answers 0 exactly if the name of the child is that of the parent with something,
-- possibly nothing, behind it.
pub startswith-Extends :
    (parent child : List ℕ) → (startswith parent child ≡ 0) ↔ Extends parent child
startswith-Extends parent child = (
  startswith_zero parent child,
  λ (rest, e). subst (λ c. startswith parent c ≡ 0) e (startswith-append parent rest),
)
