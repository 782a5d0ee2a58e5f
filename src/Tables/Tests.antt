-- ===== src/Tables/Tests.antt =====
-- Tables over a hash and over a longest prefix match that do what is documented.
use t4p4s_ma.Common.{
  ltb, true, List, ◌≢◌, ◌<◌, Bool-cases, inl, inr, take, ℕ, ◌+◌, ◌≡◌, ◌≤◌, ◌⊎◌, refl, sym, ap,
  arith, false, ◌&&◌, Option, none, some, [], ◌∷◌, leb, ◌==◌, if◌then◌else◌,
}
use t4p4s_ma.Memory.{Mem}
use t4p4s_ma.Tables.Entry.{
  Key, Run, ◌>>=◌, ok, exits, fault, Heap, Info, Table, make_table_entry, table_set_default_action,
}
use t4p4s_ma.Tables.Entry.Bytes.{Holds, table_set_default_action-Holds}
use t4p4s_ma.Tables.Exact.{hash_entries, exact_create, exact_add}
use t4p4s_ma.Tables.Exact.Map
use t4p4s_ma.Tables.Exact.Map.{exact_add-Adds, exact_create-IsValid, exact_flush_lem}
use t4p4s_ma.Tables.Prefix.{
  Lpm, Rule, value_of, longest, little_endian, address, lpm_create, lpm_add, lpm_lookup, lpm_flush,
}
use t4p4s_ma.Tables.Prefix.Entries
use t4p4s_ma.Tables.Prefix.Longest
use t4p4s_ma.Tables.Prefix.Longest.{lpm_add-Adds, lpm_create-IsValid, lpm_flush_lem}
use t4p4s_ma.Tables.Naive.{TernaryTable, ternary_add, ternary_lookup}
use t4p4s_ma.Tables.Naive.Adds.{hits, fits_new, ternary_add-Adds}
use t4p4s_ma.Tables.Slots.{Slots, slots, or_else}

abbrev heap : Heap
heap = record { made = 0; at = λ p a. 255; freed = λ p. false }

abbrev info : Info
info = record { key_size = 2; action_size = 4; state_size = 1 }

abbrev value : Mem
value a = a + 1

-- A table that was not created yet.
abbrev pub blank : {R : Type 0} → R → Table R
blank r = record {
  info = info;
  max_size = 250000;
  default_val = 0;
  ext = record { rte_table = r; size = 0; content = λ i. none };
}

abbrev pub hash_table : Table Slots
hash_table = blank (record { at = λ k. none; next = 0; room = 10000 })

hash_table_made : exact_create slots hash_table ≡ ok hash_table
unfolding exact_create slots
hash_table_made = refl

hash_table-IsValid : Map.IsValid slots hash_entries hash_table
hash_table-IsValid =
    (exact_create-IsValid slots hash_table hash_table [] (omega arith) (omega arith)
      hash_table_made).0

exact_add-Adds_example :
    ((exact_add slots hash_table (7 ∷ 9 ∷ []) value heap ≡ exits)
      × (slots.add_key hash_table.ext.rte_table (7 ∷ 9 ∷ []) ≡ none))
    ⊎ ((t' : Table Slots) × (g' : Heap) × (exact_add slots hash_table (7 ∷ 9 ∷ []) value heap
          ≡ ok (t', g'))
        × Map.Adds slots hash_entries (7 ∷ 9 ∷ []) value hash_table heap t' g')
exact_add-Adds_example =
    exact_add-Adds slots hash_entries (7 ∷ 9 ∷ []) value hash_table heap hash_table-IsValid

-- A table whose default entry is the one at pointer 1.
abbrev with_default : Table Slots
with_default = record hash_table { default_val = 1 }

abbrev used_heap : Heap
used_heap = record heap { made = 1 }

table_set_default_action-Holds_example :
    let r = table_set_default_action with_default value used_heap in
    Holds info value 0 (r.1.at r.0.default_val)
    × ((p : ℕ) → p ≤ 1 → p ≢ 1 → r.1.at p ≡ used_heap.at p)
    × ((p : ℕ) → 0 < p → r.1.freed p ≡ (if 1 == p then true else false))
    × (r.0.default_val ≡ 2)
    × (r.0.ext ≡ hash_table.ext)
table_set_default_action-Holds_example = table_set_default_action-Holds with_default value used_heap

abbrev add_rule : ℕ → List Rule → Rule → Option (List Rule)
add_rule width l r = if ltb 0 r.depth && leb r.depth width then some (r ∷ l) else none

added : (width : ℕ) (l l' : List Rule) (r : Rule) → add_rule width l r ≡ some l' → l' ≡ r ∷ l
added width l l' r e = elim (Bool-cases (ltb 0 r.depth && leb r.depth width)) [
  | inl fine ↦ sym (ap (or_else l) (rw fine at e))
  | inr wrong ↦ cc (rw wrong at e)
]

created : (l : List Rule) → some [] ≡ some l → l ≡ []
created l e = sym (ap (or_else l) e)

-- A longest prefix match that keeps its rules in a list.
pub prefixes : Lpm (List Rule)
prefixes = record {
  create = λ width n. some [];
  add = add_rule;
  lookup = λ width l address. value_of (longest width l address);
  delete_all = λ width l. [];
  rules = λ l. l;
  rules-create = λ e. created _ e;
  rules-add = λ e. added _ _ _ _ e;
  rules-delete_all = λ width l. refl;
  lookup_lem = λ width l address. refl;
}

abbrev prefix_table : Table (List Rule)
prefix_table = blank []

prefix_table_made : lpm_create prefixes prefix_table ≡ ok prefix_table
unfolding lpm_create prefixes
prefix_table_made = refl

prefix_table-IsValid : Entries.IsValid prefixes 256 prefix_table
prefix_table-IsValid =
    (lpm_create-IsValid prefixes 256 prefix_table prefix_table [] (omega arith) (omega arith)
      (omega arith) prefix_table_made).0

lpm_add-Adds_example :
    ((lpm_add prefixes 256 prefix_table (7 ∷ 0 ∷ []) 8 value heap ≡ exits)
      × (prefixes.add 32 [] (record { prefix = address info (7 ∷ 0 ∷ []); depth = 8; value = 0 })
          ≡ none))
    ⊎ ((t' : Table (List Rule)) × (g' : Heap) × (lpm_add prefixes 256 prefix_table
            (7 ∷ 0 ∷ [])
            8
            value
            heap
          ≡ ok (t', g'))
        × Longest.Adds prefixes 256 (7 ∷ 0 ∷ []) 8 value prefix_table heap t' g')
lpm_add-Adds_example =
    lpm_add-Adds prefixes 256 (7 ∷ 0 ∷ []) 8 value prefix_table heap prefix_table-IsValid
      (omega arith) (omega arith)

lpm_flush_lem_example : lpm_flush prefixes prefix_table ≡ fault
lpm_flush_lem_example = lpm_flush_lem prefixes 256 prefix_table prefix_table-IsValid

-- 10.0.0.0/8 and 10.1.0.0/16 as numbers of the host, with the lowest byte first.
abbrev ips : Table (List Rule)
ips = record prefix_table { info = record info { key_size = 4 } }

abbrev looked_up : Key → Run ℕ
looked_up k = do
  (t, g) ← lpm_add prefixes 256 ips (0 ∷ 0 ∷ 1 ∷ 10 ∷ []) 16 value heap
  (t', g') ← lpm_add prefixes 256 t (0 ∷ 0 ∷ 0 ∷ 10 ∷ []) 8 value g
  lpm_lookup prefixes 256 t' k

longest_found :
    (looked_up (9 ∷ 9 ∷ 1 ∷ 10 ∷ []) ≡ ok 1)
    × (looked_up (9 ∷ 9 ∷ 2 ∷ 10 ∷ []) ≡ ok 2)
    × (looked_up (9 ∷ 9 ∷ 1 ∷ 11 ∷ []) ≡ ok 0)
unfolding lpm_add lpm_lookup address prefixes longest little_endian
longest_found = (refl, refl, refl)

abbrev ternary_table : TernaryTable
ternary_table = record {
  info = info;
  max_size = 10;
  default_val = 0;
  table = record { entries = []; keylen = 2; capacity = 10 };
}

ternary_add-Adds_example :
    (t' : TernaryTable) × (g' : Heap) × (ternary_add ternary_table
        (7 ∷ 0 ∷ [])
        (255 ∷ 0 ∷ [])
        value
        heap
      ≡ ok (t', g'))
    × ((k : Key)
        → ternary_lookup t' k ≡ (
            if hits (take 2 k) []
            then ternary_lookup ternary_table k
            else (if fits_new ternary_table (7 ∷ 0 ∷ []) (255 ∷ 0 ∷ []) value heap k
                then ok 1
                else ok 0)))
    × (g'.at 1 ≡ make_table_entry (heap.at 1) value info)
    × ((p : ℕ) → p ≤ 0 → g'.at p ≡ heap.at p)
ternary_add-Adds_example =
    ternary_add-Adds ternary_table (7 ∷ 0 ∷ []) (255 ∷ 0 ∷ []) value heap (omega arith)
      (omega arith)
