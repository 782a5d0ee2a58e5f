-- ===== src/Tables/Naive/Adds.antt =====
-- src/hardware_dep/dpdk/data_plane/dpdk_tables_ternary.c: what a new entry changes for the lookups.
use t4p4s_ma.Common.{
  ℕ, ◌+◌, ◌≡◌, ◌<◌, ◌≤◌, arith, Bool, true, false, none, some, List, [], ◌∷◌, ◌++◌, take, length,
  lt→ltb, ==_ne, ==_self, if◌then◌else◌, Bool-cases, inl, inr,
}
use t4p4s_ma.Memory.{Mem}
use t4p4s_ma.Ternary
use t4p4s_ma.Ternary.{Entry, matches, scan, value_of}
use t4p4s_ma.Tables.Entry.{Key, ok, Heap, make_table_entry, make_table_entry_on_socket, write}
use t4p4s_ma.Tables.Naive.{TernaryTable, ternary_add, ternary_lookup}

-- Whether some entry fits the key.
unfoldable pub hits : List ℕ → List Entry → Bool
unfolding matches
hits key [] = false
hits key (e ∷ es) = if matches e.key e.mask key then true else hits key es

scan-append_hit :
    (key : List ℕ) (es fs : List Entry) (b : Bool)
    → hits key es ≡ true
    → scan key (es ++ fs) b ≡ scan key es b
unfolding scan hits
scan-append_hit key [] fs b h = cc h
scan-append_hit key (e ∷ es) fs b h = elim (Bool-cases (matches e.key e.mask key)) [
  | inl hit ↦ rw (hit, scan)
  | inr miss ↦ rw (miss, scan) (scan-append_hit key es fs false (rw miss at h))
]

scan-append_miss :
    (key : List ℕ) (es : List Entry) (e : Entry) (b : Bool)
    → hits key es ≡ false
    → scan key (es ++ e ∷ []) b
      ≡ (if matches e.key e.mask key then (true, some e) else (false, none))
unfolding scan hits
scan-append_miss key [] e b h = elim (Bool-cases (matches e.key e.mask key)) [
  | inl hit ↦ rw (hit, scan)
  | inr miss ↦ rw (miss, scan)
]
scan-append_miss key (f ∷ es) e b h = elim (Bool-cases (matches f.key f.mask key)) [
  | inl hit ↦ cc (rw hit at h)
  | inr miss ↦ rw (miss, scan) (scan-append_miss key es e false (rw miss at h))
]

module _ (t : TernaryTable) (key mask : Key) (value : Mem) (g : Heap) where
  abbrev added : Entry
  added = record {
    key = take t.table.keylen key;
    mask = take t.table.keylen mask;
    value = g.made + 1;
  }

  abbrev behind : TernaryTable
  behind = record t { table = record t.table { entries = t.table.entries ++ added ∷ [] } }

  -- Whether the new entry fits a key.
  abbrev pub fits_new : Key → Bool
  fits_new k = matches (take t.table.keylen key) (take t.table.keylen mask) (take t.table.keylen k)

  looked_up_lem :
      (k : Key)
      → 0 < t.info.key_size
      → ternary_lookup behind k ≡ (
          if hits (take t.table.keylen k) t.table.entries
          then ternary_lookup t k
          else (if fits_new k then ok (g.made + 1) else ok t.default_val))
  unfolding ternary_lookup Ternary.lookup
  looked_up_lem k keyed =
      let q = take t.table.keylen k in
      let ne = ==_ne t.info.key_size 0 (λ e. absurd (omega (arith, e, keyed))) in
      let some_ne = ==_ne (g.made + 1) 0 (λ e. absurd (omega (arith, e))) in
      elim (Bool-cases (hits q t.table.entries)) [
        | inl hit ↦ rw (ne, hit, scan-append_hit q t.table.entries (added ∷ []) true hit)
        | inr miss ↦ elim (Bool-cases (fits_new k)) [
          | inl new ↦
              rw (ne, miss, scan-append_miss q t.table.entries added true miss, new, some_ne)
          | inr none_ ↦ rw (ne, miss, scan-append_miss q t.table.entries added true miss, none_)
        ]
      ]

-- A ternary table with a key and with room takes a new entry: the keys that an earlier entry fits keep
-- theirs, the others that the new entry fits get it, and all others have the default entry; no entry
-- made before is changed.
pub ternary_add-Adds :
    (t : TernaryTable) (key mask : Key) (value : Mem) (g : Heap)
    → 0 < t.info.key_size
    → length t.table.entries < t.table.capacity
    → (t' : TernaryTable) × (g' : Heap) × (ternary_add t key mask value g ≡ ok (t', g'))
      × ((k : Key)
          → ternary_lookup t' k ≡ (
              if hits (take t.table.keylen k) t.table.entries
              then ternary_lookup t k
              else (if fits_new t key mask value g k then ok (g.made + 1) else ok t.default_val)))
      × (g'.at (g.made + 1) ≡ make_table_entry (g.at (g.made + 1)) value t.info)
      × ((p : ℕ) → p ≤ g.made → g'.at p ≡ g.at p)
unfolding ternary_add make_table_entry_on_socket Ternary.add
ternary_add-Adds t key mask value g keyed room =
    let ne = ==_ne t.info.key_size 0 (λ e. absurd (omega (arith, e, keyed))) in
    let fits = lt→ltb (length t.table.entries) t.table.capacity room in
    (
      behind t key mask value g,
      record g {
        made = g.made + 1;
        at = write (g.made + 1) (make_table_entry (g.at (g.made + 1)) value t.info) g.at;
      },
      rw (ne, fits),
      λ k. looked_up_lem t key mask value g k keyed,
      rw (==_self (g.made + 1)),
      λ p le. rw (==_ne (g.made + 1) p (λ e. absurd (omega arith))),
    )
