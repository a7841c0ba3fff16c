-- ===== src/Console/Format/Spelled.antt =====
-- `vsprintf` (myLoader/io/disp.c) writes what the fields of its format mean.
use porcelix.Prelude.{ℕ, ◌^◌, ◌<◌, List}
use porcelix.Prelude.Mem.{All}

-- The arguments are words of 32 bits.
abbrev pub IsWords : List ℕ → Type 0
IsWords args = All (λ i. i < 2 ^ 32) args
