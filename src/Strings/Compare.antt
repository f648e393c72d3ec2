-- ===== src/Strings/Compare.antt =====
-- `strcmp` (sys/tarfs.c) against equality.
use sbunix_64_bit_operating.Prelude.{
  ℕ, ◌<◌, ◌≡◌, refl, sym, ap, ◌∙◌, subst, ◌≢◌, ◌↔◌, inl, inr, List, [], ◌∷◌, false, arith, ◌==◌,
  ==→eq, eq→==, ne→==, Bool-cases,
}
use sbunix_64_bit_operating.Strings.{strcmp, difference}

-- Bytes other than NUL.
abbrev pub AllChars : List ℕ → Type 0
AllChars [] = Unit {0}
AllChars (c ∷ cs) = (0 < c) × (c < 256) × AllChars cs

difference_ne : (a b : ℕ) → a < 256 → b < 256 → a ≢ b → difference a b ≢ 0
difference_ne a b l m n e = ground arith

strcmp_self : (s : List ℕ) → strcmp s s ≡ 0
unfolding strcmp
strcmp_self [] = refl
strcmp_self (a ∷ s) = rw (eq→== a a refl) (strcmp_self s)

strcmp_zero : (s t : List ℕ) → AllChars s → AllChars t → strcmp s t ≡ 0 → s ≡ t
unfolding strcmp
strcmp_zero [] [] p q e = refl
strcmp_zero [] (b ∷ t) p q e =
    absurd (difference_ne 0 b (omega arith) q.1 (λ h. omega (arith, q.0, h)) e)
strcmp_zero (a ∷ s) [] p q e =
    absurd (difference_ne a 0 p.1 (omega arith) (λ h. omega (arith, p.0, h)) e)
strcmp_zero (a ∷ s) (b ∷ t) p q e = elim (Bool-cases (a == b)) [
  | inl r ↦
      let same : a ≡ b = ==→eq a b r in
      let further : strcmp s t ≡ 0 = sym (rw r refl) ∙ e in
      ap (λ x. x ∷ s) same ∙ ap (b ∷◌) (strcmp_zero s t p.2 q.2 further)
  | inr r ↦
      absurd (difference_ne a b p.1 q.1 (λ h. ground (arith, r, eq→== a b h)) (sym (rw r refl) ∙ e))
]

-- `strcmp` answers 0 exactly for equal strings.
pub strcmp-eq : (s t : List ℕ) → AllChars s → AllChars t → (strcmp s t ≡ 0) ↔ (s ≡ t)
strcmp-eq s t p q = (strcmp_zero s t p q, λ e. subst (λ u. strcmp s u ≡ 0) e (strcmp_self s))

pub strcmp-ne : (s t : List ℕ) → AllChars s → AllChars t → s ≢ t → (strcmp s t == 0) ≡ false
strcmp-ne s t p q n = ne→== (strcmp s t) 0 (λ e. n ((strcmp-eq s t p q).0 e))
