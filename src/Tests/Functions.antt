-- ===== src/Tests/Functions.antt =====
-- A table of three slots, of which one is taken.
use qdmav.Prelude.{true, List, [], ◌∷◌}
use qdmav.Sriov.{VfInfo, Sriov}

abbrev table : List VfInfo
table =
    record { func_id = 7; qbase = 40; qmax = 8 }
    ∷ record { func_id = 256; qbase = 0; qmax = 0 }
    ∷ record { func_id = 256; qbase = 0; qmax = 0 }
    ∷ []

abbrev sriov : Sriov
sriov = record { vf_info = table; vf_count = 3; timer = true; events = [] }
