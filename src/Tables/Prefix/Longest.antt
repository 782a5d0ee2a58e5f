-- ===== src/Tables/Prefix/Longest.antt =====
-- src/hardware_dep/dpdk/data_plane/dpdk_tables_lpm.c: additions to the list of prefixes, and the flush.
use t4p4s_ma.Common.{
  ℕ, ◌+◌, ◌%◌, ◌≡◌, ◌<◌, ◌≤◌, ◌⊎◌, refl, true, sym, ap, ◌∙◌, subst, arith, none, some, ◌∷◌, ltb,
  leb, ◌==◌, ==_ne, ==_self, lt→ltb, Option-cases, Bool-cases, inl, inr,
}
use t4p4s_ma.Memory.{Mem}
use t4p4s_ma.Tables.Entry.{
  Key, Run, ok, exits, fault, Heap, make_table_entry, make_table_entry_on_socket, Table,
  create_ext_table, put, write, content_at_fault,
}
use t4p4s_ma.Tables.Prefix.{
  Lpm, Rule, longest, width_of, address, lpm_create, lpm_add, lpm_lookup, lpm_flush,
}
use t4p4s_ma.Tables.Prefix.Entries.{
  AreBelow-suc, IsValid, resolved-put, entries, found, lpm_lookup_lem,
}

-- What an `lpm_add` that returns leaves: the list of prefixes has the new one first, with the new entry,
-- and a lookup finds the longest in this list.
pub record Adds {L : Type 0} (lpm : Lpm L) (indices : ℕ) (key : Key) (depth : ℕ) (value : Mem)
    (t : Table L) (g : Heap) (t' : Table L) (g' : Heap) : Type 0 where
  pub listed :
      entries lpm t'
      ≡ record { prefix = address t.info key; depth = depth; value = g.made + 1 } ∷ entries lpm t
  pub looked_up :
      (k : Key)
      → lpm_lookup lpm indices t' k
        ≡ ok (
            found t.default_val (
              longest
                (width_of t.info)
                (record { prefix = address t.info key; depth = depth; value = g.made + 1 }
                  ∷ entries lpm t)
                (address t.info k)))
  pub entry : g'.at (g.made + 1) ≡ make_table_entry (g.at (g.made + 1)) value t.info
  pub older : (p : ℕ) → p ≤ g.made → g'.at p ≡ g.at p
  pub valid : IsValid lpm indices t'

module _ {L : Type 0} (lpm : Lpm L) (indices : ℕ) (key : Key) (depth : ℕ) (value : Mem)
    (t : Table L) (g : Heap) where
  abbrev rule : ℕ → Rule
  rule v = record { prefix = address t.info key; depth = depth; value = v }

  abbrev behind : L → Table L
  behind l = record t {
    ext = record (put t.ext.size (g.made + 1) t.ext) {
      rte_table = l;
      size = (t.ext.size + 1) % indices;
    };
  }

  abbrev heap_behind : Heap
  heap_behind = record g {
    made = g.made + 1;
    at = write (g.made + 1) (make_table_entry (g.at (g.made + 1)) value t.info) g.at;
  }

  module _ (v : IsValid lpm indices t) (l : L)
      (got : lpm.add (width_of t.info) t.ext.rte_table (rule t.ext.size) ≡ some l) where
    listed_lem : entries lpm (behind l) ≡ rule (g.made + 1) ∷ entries lpm t
    listed_lem =
        rw
          (
            lpm.rules-add got,
            ==_self t.ext.size,
            resolved-put t.ext t.ext.size (g.made + 1) (lpm.rules t.ext.rte_table) v.below,
          )
          refl

    behind-IsValid :
        t.ext.size < t.max_size → t.ext.size + 1 < indices → IsValid lpm indices (behind l)
    behind-IsValid room small =
        let grows : (t.ext.size + 1) % indices ≡ t.ext.size + 1 = grind arith in
        record {
          keyed = v.keyed;
          short = v.short;
          room = rw grows (omega arith);
          narrow = rw grows small;
          below =
              rw (grows, lpm.rules-add got)
                (omega arith, AreBelow-suc t.ext.size (lpm.rules t.ext.rte_table) v.below);
          placed = λ i lt. elim (Bool-cases (t.ext.size == i)) [
            | inl same ↦ (g.made + 1, rw same refl)
            | inr other ↦
                let (p, there) =
                  v.placed i
                    (let ne = other in let lt' = rw grows at lt in ground (arith, lt', ne)) in
                (p, rw other there)
          ];
          unset = λ i le. let le' = rw grows at le in ground (arith, v.unset i, le');
        }

-- A table with keys of one to sixteen bytes stands for a list of prefixes with their entries, in which
-- a lookup finds the longest that covers its key, as `lpm_lookup_lem` has it. With room in the array,
-- and with a size that stays below the number of values of its type: an addition that returns puts the
-- new prefix and entry before the others, so it is the one found for the keys that it covers, unless a
-- longer one covers them, and it leaves a valid table. It does not return only where the prefix cannot
-- be added, and then the process exits.
pub lpm_add-Adds :
    {L : Type 0} (lpm : Lpm L) (indices : ℕ) (key : Key) (depth : ℕ) (value : Mem) (t : Table L)
    (g : Heap)
    → IsValid lpm indices t
    → t.ext.size < t.max_size
    → t.ext.size + 1 < indices
    → ((lpm_add lpm indices t key depth value g ≡ exits)
        × (lpm.add
              (width_of t.info)
              t.ext.rte_table
              (record { prefix = address t.info key; depth = depth; value = t.ext.size })
            ≡ none))
      ⊎ ((t' : Table L) × (g' : Heap) × (lpm_add lpm indices t key depth value g ≡ ok (t', g'))
          × Adds lpm indices key depth value t g t' g')
unfolding lpm_add make_table_entry_on_socket
lpm_add-Adds lpm indices key depth value t g v room small =
    let keyed = ==_ne t.info.key_size 0 (λ e. absurd (omega (arith, e, v.keyed))) in
    let short : leb t.info.key_size 16 ≡ true = ground (arith, v.short) in
    let fits = lt→ltb t.ext.size t.max_size room in
    elim (Option-cases (
      lpm.add (width_of t.info) t.ext.rte_table
        (rule lpm indices key depth value t g t.ext.size))) [
          | inl full ↦ inl (rw (keyed, fits, short, full) refl, full)
          | inr (l, got) ↦
              let t' = behind lpm indices key depth value t g l in
              let listed = listed_lem lpm indices key depth value t g v l got in
              let valid = behind-IsValid lpm indices key depth value t g v l got room small in
              inr (
                t',
                heap_behind lpm indices key depth value t g,
                rw (keyed, fits, short, got) refl,
                record {
                  listed = listed;
                  looked_up = λ k.
                      lpm_lookup_lem lpm indices t' k valid
                      ∙ ap
                          (λ rs.
                            ok (
                              found t.default_val
                                (longest (width_of t.info) rs (address t.info k))))
                          listed;
                  entry = rw (==_self (g.made + 1)) refl;
                  older = λ p le. rw (==_ne (g.made + 1) p (λ e. absurd (omega arith))) refl;
                  valid = valid;
                },
              )
        ]

sizes : {L : Type 0} → ℕ → Run (Table L × Heap) → ℕ
sizes n (ok (t, g)) = t.ext.size
sizes n exits = n
sizes n fault = n

-- A size that has reached the largest value of its type starts again at 0: in the version of the type
-- with 256 values the next addition then writes over the entry of the first.
pub lpm_add_wraps :
    {L : Type 0} (lpm : Lpm L) (indices : ℕ) (key : Key) (depth : ℕ) (value : Mem) (t t' : Table L)
    (g g' : Heap)
    → 0 < t.info.key_size
    → t.info.key_size ≤ 16
    → t.ext.size < t.max_size
    → t.ext.size + 1 ≡ indices
    → lpm_add lpm indices t key depth value g ≡ ok (t', g')
    → t'.ext.size ≡ 0
unfolding lpm_add make_table_entry_on_socket sizes
lpm_add_wraps lpm indices key depth value t t' g g' k s room full run =
    let keyed = ==_ne t.info.key_size 0 (λ e. absurd (omega (arith, e))) in
    let short : leb t.info.key_size 16 ≡ true = ground arith in
    let fits = lt→ltb t.ext.size t.max_size room in
    elim (Option-cases (
      lpm.add (width_of t.info) t.ext.rte_table
        (rule lpm indices key depth value t g t.ext.size))) [
          | inl e ↦ cc (rw (keyed, fits, short, e) at run)
          | inr (l, e) ↦
              let zero_again : (t.ext.size + 1) % indices ≡ 0 = grind (arith, full) in
              let there = rw (keyed, fits, short, e) at run in
              sym (ap (sizes t.ext.size) there) ∙ zero_again
        ]

abbrev IsEmpty : {L : Type 0} → Lpm L → ℕ → Table L → Key → Run (Table L) → Type 0
IsEmpty lpm indices t k (ok t') =
    IsValid lpm indices t' × (lpm_lookup lpm indices t' k ≡ ok t.default_val)
IsEmpty lpm indices t k exits = Unit
IsEmpty lpm indices t k fault = Unit

-- A table that was created, for keys of one to sixteen bytes, is valid and has the default entry for
-- every key.
pub lpm_create-IsValid :
    {L : Type 0} (lpm : Lpm L) (indices : ℕ) (t t' : Table L) (k : Key)
    → 0 < t.info.key_size
    → t.info.key_size ≤ 16
    → 0 < indices
    → lpm_create lpm t ≡ ok t'
    → IsValid lpm indices t' × (lpm_lookup lpm indices t' k ≡ ok t.default_val)
unfolding lpm_create lpm_lookup create_ext_table longest
lpm_create-IsValid lpm indices t t' k keyed short some_indices made =
    let le : leb t.info.key_size 16 ≡ true = ground arith in
    let ne = ==_ne t.info.key_size 0 (λ e. absurd (omega arith)) in
    elim (Option-cases (lpm.create (width_of t.info) t.max_size)) [
      | inl e ↦ cc (rw (le, e) at made)
      | inr (l, e) ↦
          let there = rw (le, e) at made in
          let no_rules = lpm.rules-create e in
          subst (IsEmpty lpm indices t k) there (
            record {
              keyed = keyed;
              short = short;
              room = omega arith;
              narrow = some_indices;
              below = rw no_rules tt;
              placed = λ i lt. absurd (omega arith);
              unset = λ i h. refl;
            },
            rw (ne, le, lpm.lookup_lem (width_of t.info) l (address t.info k), no_rules) refl,
          )
    ]

-- In a valid table the element that `lpm_flush` gives to `rte_free` was never set, or is behind the end
-- of the array.
pub lpm_flush_lem :
    {L : Type 0} (lpm : Lpm L) (indices : ℕ) (t : Table L)
    → IsValid lpm indices t
    → lpm_flush lpm t ≡ fault
unfolding lpm_flush
lpm_flush_lem lpm indices t v = elim (Bool-cases (ltb t.ext.size t.max_size)) [
  | inl fits ↦ rw (fits, content_at_fault t.ext t.ext.size (v.unset t.ext.size (omega arith)))
  | inr full ↦ rw full
]
