-- ===== src/Environ/Quotes.antt =====
-- `env` (sys/tarfs.c): the argument NAME=VALUE of the shell's export, with or without quotes.
use sbunix_64_bit_operating.Prelude.{
  ℕ, ◌≡◌, refl, ◌≢◌, Bool, true, false, Option, none, some, List, [], ◌∷◌, ◌++◌, ne→==, get_or,
  ◌>>=◌,
}
use sbunix_64_bit_operating.Environ.{
  Environ, split_entry, setenv, quote, end_quote, env_value, env_set, env_split, env,
}
use sbunix_64_bit_operating.Environ.Entries.{NoEquals, split_entry-entry_of}

end_quote-append : (s : List ℕ) → end_quote (s ++ quote ∷ []) ≡ (s, true)
unfolding end_quote
end_quote-append [] = refl
end_quote-append (c ∷ []) = refl
end_quote-append (c ∷ d ∷ s) = rw (end_quote-append (d ∷ s)) refl

env_value-quoted : (s : List ℕ) → env_value (quote ∷ (s ++ quote ∷ [])) ≡ some s
unfolding env_value
env_value-quoted [] = unfold end_quote in refl
env_value-quoted (c ∷ s) = rw (end_quote-append (c ∷ s)) refl

split_entry-NoEquals : (s : List ℕ) → NoEquals s → split_entry s ≡ none
unfolding split_entry
split_entry-NoEquals [] n = refl
split_entry-NoEquals (c ∷ s) n = rw (ne→== c b'=' n.0, split_entry-NoEquals s n.1) refl

-- The answer 0 with the environment that setenv leaves.
abbrev pub set_to : (name value : List ℕ) → Environ → Option (Bool × Environ)
set_to name value pages = setenv name value pages >>= λ pages1. some (true, pages1)

-- For a name without `=`: NAME="VALUE" sets the name to the value between the quotes, NAME=TEXT to
-- the whole text if that does not start with a quote, and a lone quote or a missing `=` is refused
-- with nothing changed.
pub env-setenv :
    (name value text : List ℕ) (pages : Environ)
    → NoEquals name
    → get_or text 0 0 ≢ quote
    → (env (name ++ b'=' ∷ quote ∷ (value ++ quote ∷ [])) pages ≡ set_to name value pages)
      × (env (name ++ b'=' ∷ text) pages ≡ set_to name text pages)
      × (env (name ++ b'=' ∷ quote ∷ []) pages ≡ some (false, pages))
      × (env name pages ≡ some (false, pages))
unfolding env env_split env_set
env-setenv name value text pages n plain = (
  rw (split_entry-entry_of name (quote ∷ (value ++ quote ∷ [])) n, env_value-quoted value) refl,
  rw (split_entry-entry_of name text n) (unquoted text plain),
  rw (split_entry-entry_of name (quote ∷ []) n) (unfold env_value in refl),
  rw (split_entry-NoEquals name n) refl,
)
  where
    unquoted :
        (value : List ℕ)
        → get_or value 0 0 ≢ quote
        → env_set name (env_value value) pages ≡ set_to name value pages
    unquoted [] plain = unfold env_value in refl
    unquoted (c ∷ s) plain = unfold env_value in rw (ne→== c quote plain) refl
