-- ===== src/Links.antt =====
-- Singly linked chains of numbers that stand for pointers, as the rings and queues of sys/task.c
-- use them.
use mathlib.Core.List.{append-nil}
use sbunix_64_bit_operating.Prelude.{
  ℕ, zero, suc, ◌+◌, ◌≤◌, ◌<◌, ◌≡◌, refl, sym, ◌∙◌, ◌≢◌, Option, none, some, List, [], ◌∷◌, ◌++◌,
  arith, ◌==◌, if◌then◌else◌, eq→==, ne→==, length,
}

-- From `a` the links `f` lead through `xs` to `stop`.
abbrev pub Chain : (ℕ → ℕ) → ℕ → List ℕ → ℕ → Type 0
Chain f a [] stop = f a ≡ stop
Chain f a (x ∷ xs) stop = (f a ≡ x) × Chain f x xs stop

abbrev pub NotIn : ℕ → List ℕ → Type 0
NotIn p [] = Unit {0}
NotIn p (x ∷ xs) = (x ≢ p) × NotIn p xs

abbrev pub Distinct : List ℕ → Type 0
Distinct [] = Unit {0}
Distinct (x ∷ xs) = NotIn x xs × Distinct xs

-- The last of `a` and the chain behind it.
abbrev pub last_of : ℕ → List ℕ → ℕ
last_of a [] = a
last_of a (x ∷ xs) = last_of x xs

-- Two families of links agree off `p`.
abbrev pub AgreeOff : ℕ → (ℕ → ℕ) → (ℕ → ℕ) → Type 0
AgreeOff p f g = (x : ℕ) → x ≢ p → g x ≡ f x

-- How often a number stands in a list.
abbrev pub count : ℕ → List ℕ → ℕ
count p [] = 0
count p (x ∷ xs) = (if x == p then 1 else 0) + count p xs

pub count-append : (p : ℕ) (xs ys : List ℕ) → count p (xs ++ ys) ≡ count p xs + count p ys
count-append p [] ys = omega arith
count-append p (x ∷ xs) ys = omega (arith, count-append p xs ys)

pub NotIn-count : (p : ℕ) (xs : List ℕ) → count p xs ≡ 0 → NotIn p xs
NotIn-count p [] h = tt
NotIn-count p (x ∷ xs) h = (λ e. ground (arith, eq→== x p e), NotIn-count p xs (omega arith))

pub Distinct-count : (xs : List ℕ) → ((p : ℕ) → count p xs ≤ 1) → Distinct xs
Distinct-count [] h = tt
Distinct-count (x ∷ xs) h = (
  NotIn-count x xs (ground (arith, h x, eq→== x x refl)),
  Distinct-count xs (λ p. omega (arith, h p)),
)

pub count-last_of : (a : ℕ) (xs : List ℕ) → 0 < count (last_of a xs) (a ∷ xs)
count-last_of a [] = ground (arith, eq→== a a refl)
count-last_of a (x ∷ xs) = omega (arith, count-last_of x xs)

-- The links agree on a list.
abbrev pub AgreeOn : List ℕ → (ℕ → ℕ) → (ℕ → ℕ) → Type 0
AgreeOn [] f g = Unit {0}
AgreeOn (x ∷ xs) f g = (g x ≡ f x) × AgreeOn xs f g

pub AgreeOn-count :
    (xs : List ℕ) (f g : ℕ → ℕ) → ((x : ℕ) → 0 < count x xs → g x ≡ f x) → AgreeOn xs f g
AgreeOn-count [] f g h = tt
AgreeOn-count (x ∷ xs) f g h =
    (h x (ground (arith, eq→== x x refl)), AgreeOn-count xs f g (λ y l. h y (omega arith)))

pub Chain-on :
    (f g : ℕ → ℕ) (a : ℕ) (xs : List ℕ) (stop : ℕ)
    → AgreeOn (a ∷ xs) f g
    → Chain f a xs stop
    → Chain g a xs stop
Chain-on f g a [] stop s c = s.0 ∙ c
Chain-on f g a (x ∷ xs) stop s c = (s.0 ∙ c.0, Chain-on f g x xs stop s.1 c.1)

pub last_of-NotIn : (p a : ℕ) (xs : List ℕ) → NotIn p (a ∷ xs) → last_of a xs ≢ p
last_of-NotIn p a [] h = h.0
last_of-NotIn p a (x ∷ xs) h = last_of-NotIn p x xs h.1

pub Chain-last :
    (f : ℕ → ℕ) (a : ℕ) (xs : List ℕ) (stop : ℕ) → Chain f a xs stop → f (last_of a xs) ≡ stop
Chain-last f a [] stop c = c
Chain-last f a (x ∷ xs) stop c = Chain-last f x xs stop c.1

pub Chain-append :
    (f : ℕ → ℕ) (a : ℕ) (xs : List ℕ) (d : ℕ) (ys : List ℕ) (stop : ℕ)
    → Chain f a xs d
    → Chain f d ys stop
    → Chain f a (xs ++ d ∷ ys) stop
Chain-append f a [] d ys stop c e = (c, e)
Chain-append f a (x ∷ xs) d ys stop c e = (c.0, Chain-append f x xs d ys stop c.1 e)

pub Chain-split :
    (f : ℕ → ℕ) (a : ℕ) (xs : List ℕ) (d : ℕ) (ys : List ℕ) (stop : ℕ)
    → Chain f a (xs ++ d ∷ ys) stop
    → Chain f a xs d × Chain f d ys stop
Chain-split f a [] d ys stop c = c
Chain-split f a (x ∷ xs) d ys stop c = let r = Chain-split f x xs d ys stop c.1 in ((c.0, r.0), r.1)

-- A change of one link off the chain leaves it.
pub Chain-off :
    (p : ℕ) (f g : ℕ → ℕ) (a : ℕ) (xs : List ℕ) (stop : ℕ)
    → AgreeOff p f g
    → NotIn p (a ∷ xs)
    → Chain f a xs stop
    → Chain g a xs stop
Chain-off p f g a [] stop s n c = s a n.0 ∙ c
Chain-off p f g a (x ∷ xs) stop s n c = (s a n.0 ∙ c.0, Chain-off p f g x xs stop s n.1 c.1)

-- A change of the last link leads the chain elsewhere.
pub Chain-relink :
    (f g : ℕ → ℕ) (a : ℕ) (xs : List ℕ) (old new : ℕ)
    → AgreeOff (last_of a xs) f g
    → g (last_of a xs) ≡ new
    → Distinct (a ∷ xs)
    → Chain f a xs old
    → Chain g a xs new
Chain-relink f g a [] old new s e d c = e
Chain-relink f g a (x ∷ xs) old new s e d c =
    (s a (λ q. last_of-NotIn a x xs d.0 (sym q)) ∙ c.0, Chain-relink f g x xs old new s e d.1 c.1)

-- The chain with its member `d` taken out, where the link before `d` is made to pass it by.
pub Chain-unlink :
    (f g : ℕ → ℕ) (a : ℕ) (xs : List ℕ) (d : ℕ) (ys : List ℕ) (stop : ℕ)
    → AgreeOff (last_of a xs) f g
    → g (last_of a xs) ≡ f d
    → Distinct (a ∷ xs)
    → NotIn (last_of a xs) ys
    → Chain f a (xs ++ d ∷ ys) stop
    → Chain g a (xs ++ ys) stop
Chain-unlink f g a xs d [] stop s e q n c =
    let r = Chain-split f a xs d [] stop c in
    rw (append-nil xs) (Chain-relink f g a xs d stop s (e ∙ r.1) q r.0)
Chain-unlink f g a xs d (y ∷ ys) stop s e q n c =
    let r = Chain-split f a xs d (y ∷ ys) stop c in
    Chain-append g a xs y ys stop (Chain-relink f g a xs d y s (e ∙ r.1.0) q r.0)
      (Chain-off (last_of a xs) f g y ys stop s n r.1.1)

-- The walk to the link before `stop`.
unfoldable pub find_prev : (fuel : ℕ) → (ℕ → ℕ) → (temp stop : ℕ) → Option ℕ
find_prev zero f temp stop = none
find_prev (suc n) f temp stop =
    let rest = find_prev n f (f temp) stop in if f temp == stop then some temp else rest

-- With fuel for the chain the walk ends at its last member.
pub find_prev-last_of :
    (fuel : ℕ) (f : ℕ → ℕ) (a : ℕ) (xs : List ℕ) (stop : ℕ)
    → Chain f a xs stop
    → NotIn stop xs
    → length xs < fuel
    → find_prev fuel f a stop ≡ some (last_of a xs)
unfolding find_prev
find_prev-last_of zero f a xs stop c n l = absurd (omega arith)
find_prev-last_of (suc k) f a [] stop c n l = rw (c, eq→== stop stop refl) refl
find_prev-last_of (suc k) f a (x ∷ xs) stop c n l =
    rw (c.0, ne→== x stop n.0) (find_prev-last_of k f x xs stop c.1 n.1 (omega arith))

-- A chain may start from another link that leads to the same place.
pub Chain-from :
    (f g : ℕ → ℕ) (a b : ℕ) (xs : List ℕ) (stop : ℕ)
    → g b ≡ f a
    → AgreeOn xs f g
    → Chain f a xs stop
    → Chain g b xs stop
Chain-from f g a b [] stop e h c = e ∙ c
Chain-from f g a b (x ∷ xs) stop e h c = (e ∙ c.0, Chain-on f g x xs stop h c.1)
