-- ===== src/Tests/Words.antt =====
-- The word arithmetic of myLoader/include/public.h, the page rank of myLoader/mm/page.c and the
-- search of myLoader/core/func.c.
use porcelix.Prelude.{ℕ, zero, suc, ◌≡◌, List, [], ◌∷◌, some, arith}
use porcelix.Mm.Rank.{get_pagerank}
use porcelix.Mm.Rank.Least.{IsLeast, get_pagerank-IsLeast}
use porcelix.Search.{alg_bsch}
use porcelix.Search.Floor.{IsAscending, IsFloor, alg_bsch-IsFloor}

abbrev entries : List ℕ
entries = 10 ∷ 20 ∷ []

entries-IsAscending : IsAscending entries
entries-IsAscending zero zero a b h p q = absurd (omega arith)
entries-IsAscending zero (suc zero) a b h p q = ground arith
entries-IsAscending zero (suc (suc j)) a b h p q = cc
entries-IsAscending (suc i) zero a b h p q = absurd (omega arith)
entries-IsAscending (suc i) (suc zero) a b h p q = absurd (omega arith)
entries-IsAscending (suc i) (suc (suc j)) a b h p q = cc

alg_bsch-IsFloor_example : (idx : ℕ) × (alg_bsch 15 entries 2 ≡ some idx) × IsFloor 15 entries 2 idx
alg_bsch-IsFloor_example =
    alg_bsch-IsFloor 15 entries 2 entries-IsAscending (omega arith) (omega arith) (omega arith)

get_pagerank-IsLeast_example : IsLeast 0x5000 (get_pagerank 0x5000)
get_pagerank-IsLeast_example = get_pagerank-IsLeast 0x5000 (omega arith) (omega arith)
