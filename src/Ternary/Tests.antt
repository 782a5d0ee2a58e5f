-- ===== src/Ternary/Tests.antt =====
-- ternary_naive.c: a table of two entries.
use t4p4s_ma.Common.{ℕ, ◌≡◌, refl, arith, Option, [], ◌∷◌, take}
use t4p4s_ma.Ternary.{Entry, Table, ok, fault, create, add, lookup}
use t4p4s_ma.Ternary.Lookup.{First, answer, lookup_lem}

abbrev entry : ℕ → ℕ → ℕ → Entry
entry key mask value = record { key = key ∷ []; mask = mask ∷ []; value = value }

abbrev table : Table
table = record { entries = entry 16 240 7 ∷ entry 3 255 8 ∷ []; keylen = 1; capacity = 2 }

found_and_not_found :
    (lookup table (19 ∷ []) ≡ ok 7)
    × (lookup table (3 ∷ []) ≡ ok 8)
    × (lookup table (4 ∷ []) ≡ ok 0)
unfolding lookup
found_and_not_found = (refl, refl, refl)

-- No entry was added yet.
nothing_to_find : lookup (create 1 2) (4 ∷ []) ≡ fault
unfolding lookup create
nothing_to_find = refl

full : add table (1 ∷ []) (1 ∷ []) 9 ≡ fault
unfolding add
full = refl

lookup_lem_example :
    (r : Option Entry) × First (take 1 (19 ∷ [])) table.entries r
    × (lookup table (19 ∷ []) ≡ answer table.entries r)
lookup_lem_example = lookup_lem table (19 ∷ []) ((refl, refl, (refl, refl, tt))) (omega arith)
