-- ===== src/Exec/Entry.antt =====
-- What `_start` (crt/crt1.c) reads of the arguments of a program.
use sbunix_64_bit_operating.Prelude.{ℕ, ◌+◌, ◌-◌, ◌*◌, ◌/◌, Option, List, get_or, drop}
use sbunix_64_bit_operating.Listing.{string_in}
use sbunix_64_bit_operating.Exec.{Arguments}

-- A word of the vector, by its address.
unfoldable pub vector_word : Arguments → (a : ℕ) → ℕ
vector_word g a = get_or g.vector ((0x30_1000 - a) / 8 - 1) 0

-- A string of the strings' page, by its address.
unfoldable pub argument_at : Arguments → (a : ℕ) → Option (List ℕ)
argument_at g a = string_in (drop (a - 0x30_1000) g.strings)

-- What `_start` gives to main for the word on the stack: argc, argv and envp.
pub record MainArguments : Type 0 where
  pub argc : ℕ
  pub argv : ℕ
  pub envp : ℕ

unfoldable pub start_main : Arguments → (rsp : ℕ) → MainArguments
start_main g rsp =
    let argc = vector_word g (rsp + 8) in
    record { argc = argc; argv = rsp + 16; envp = rsp + 8 * (argc + 3) }
