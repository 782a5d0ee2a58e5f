-- ===== src/Tables/Exact/Map.antt =====
-- src/hardware_dep/dpdk/data_plane/dpdk_tables_exact.c: the table as a map from keys to entries.
use t4p4s_ma.Common.{
  ℕ, ◌+◌, ◌%◌, ◌≡◌, ◌≢◌, ◌<◌, ◌≤◌, ◌⊎◌, sym, ap, ◌∙◌, subst, arith, false, none, some, Bool-cases,
  ◌==◌, ==_iff, ==_ne, ==_self, take, Option-cases, inl, inr,
}
use t4p4s_ma.Memory.{Mem}
use t4p4s_ma.Tables.Entry.{
  Key, Run, ok, exits, fault, Heap, make_table_entry, make_table_entry_on_socket, Table,
  create_ext_table, put, write, content_at-put_self, content_at-put_ne,
}
use t4p4s_ma.Tables.Exact.{Hash, hash_entries, exact_create, exact_add, exact_lookup, exact_flush}

-- The hash was made with no more entries than the array has, and every position in it is set.
pub record IsValid {H : Type 0} (hash : Hash H) (n : ℕ) (t : Table H) : Type 0 where
  pub keyed : 0 < t.info.key_size
  pub made : hash.IsMade n t.ext.rte_table
  pub room : n ≤ t.max_size
  pub placed : (k : Key) (i : ℕ) → hash.lookup t.ext.rte_table k ≡ some i → t.ext.content i ≢ none

-- What an `exact_add` that returns leaves: the key has the new entry, all other keys have theirs, and
-- no entry made before has changed.
pub record Adds {H : Type 0} (hash : Hash H) (n : ℕ) (key : Key) (value : Mem) (t : Table H)
    (g : Heap) (t' : Table H) (g' : Heap) : Type 0 where
  pub added :
      (k : Key)
      → take t.info.key_size k ≡ take t.info.key_size key
      → exact_lookup hash t' k ≡ ok (g.made + 1)
  pub others :
      (k : Key)
      → take t.info.key_size k ≢ take t.info.key_size key
      → exact_lookup hash t' k ≡ exact_lookup hash t k
  pub entry : g'.at (g.made + 1) ≡ make_table_entry (g.at (g.made + 1)) value t.info
  pub older : (p : ℕ) → p ≤ g.made → g'.at p ≡ g.at p
  pub valid : IsValid hash n t'

module _ {H : Type 0} (hash : Hash H) (n : ℕ) (key : Key) (value : Mem) (t : Table H)
    (g : Heap) where
  -- The state behind an addition that got a position.
  abbrev behind : ℕ → H → Table H
  behind index h = record t {
    ext = put (index % t.max_size) (g.made + 1) (record t.ext { rte_table = h });
  }

  abbrev heap_behind : Heap
  heap_behind = record g {
    made = g.made + 1;
    at = write (g.made + 1) (make_table_entry (g.at (g.made + 1)) value t.info) g.at;
  }

  module _ (v : IsValid hash n t) (index : ℕ) (h : H)
      (got : hash.add_key t.ext.rte_table (take t.info.key_size key) ≡ some (index, h)) where
    keyed_ne : (t.info.key_size == 0) ≡ false
    keyed_ne = ==_ne t.info.key_size 0 (λ e. absurd (omega (arith, e, v.keyed)))

    at_position : hash.lookup h (take t.info.key_size key) ≡ some index
    at_position = hash.lookup-add_self v.made got

    made' : hash.IsMade n h
    made' = hash.add_key-IsMade v.made got

    -- A position is not changed by the remainder.
    small : (k : Key) (i : ℕ) → hash.lookup h k ≡ some i → i % t.max_size ≡ i
    small k i e = let lt = hash.lookup_lt made' e in grind (arith, v.room)

    added_lem :
        (k : Key)
        → take t.info.key_size k ≡ take t.info.key_size key
        → exact_lookup hash (behind index h) k ≡ ok (g.made + 1)
    unfolding exact_lookup
    added_lem k e =
        rw (keyed_ne, e, at_position)
          (content_at-put_self (index % t.max_size) (g.made + 1) (record t.ext { rte_table = h }))

    ne_position :
        (k : Key) (i : ℕ) → k ≢ take t.info.key_size key → hash.lookup h k ≡ some i → index ≢ i
    ne_position k i other e same = other (hash.lookup_inj made' e (at_position ∙ ap some same))

    -- Nor are two positions made the same by it.
    apart :
        (k : Key) (i : ℕ)
        → k ≢ take t.info.key_size key
        → hash.lookup h k ≡ some i
        → index % t.max_size ≢ i % t.max_size
    apart k i other e same =
        ne_position k i other e
          (sym (small (take t.info.key_size key) index at_position) ∙ same ∙ small k i e)

    others_lem :
        (k : Key)
        → take t.info.key_size k ≢ take t.info.key_size key
        → exact_lookup hash (behind index h) k ≡ exact_lookup hash t k
    unfolding exact_lookup
    others_lem k other =
        let q = take t.info.key_size k in
        let before = hash.lookup-add_ne q v.made got other in
        elim (Option-cases (hash.lookup h q)) [
          | inl e ↦ rw (keyed_ne, e, sym before ∙ e)
          | inr (i, e) ↦
              rw (keyed_ne, e, sym before ∙ e)
                (content_at-put_ne (index % t.max_size) (g.made + 1)
                  (record t.ext { rte_table = h }) (i % t.max_size) (apart q i other e))
        ]

    still_placed :
        (k : Key) (i : ℕ) → hash.lookup h k ≡ some i → (behind index h).ext.content i ≢ none
    still_placed k i e = elim (Bool-cases ((index % t.max_size) == i)) [
      | inl same ↦ λ empty. cc (simp same at empty)
      | inr apart_ ↦
          let differ : index ≢ i =
            λ f. cc (apart_, (==_iff (index % t.max_size) i).1 (small _ index at_position ∙ f)) in
          let other : k ≢ take t.info.key_size key =
            λ f. differ (cc (subst (λ q. hash.lookup h q ≡ some i) f e, at_position)) in
          λ empty.
            v.placed k i (sym (hash.lookup-add_ne k v.made got other) ∙ e) (simp apart_ at empty)
    ]

    behind-IsValid : IsValid hash n (behind index h)
    behind-IsValid = record { keyed = v.keyed; made = made'; room = v.room; placed = still_placed }

-- A table with a key of at least one byte, whose array has room for all entries of its hash, is a map:
-- an addition that returns puts the new entry at the key and leaves all others, in a valid table; it
-- does not return only where the hash has no place for the key, and then the process exits.
pub exact_add-Adds :
    {H : Type 0} (hash : Hash H) (n : ℕ) (key : Key) (value : Mem) (t : Table H) (g : Heap)
    → IsValid hash n t
    → ((exact_add hash t key value g ≡ exits)
        × (hash.add_key t.ext.rte_table (take t.info.key_size key) ≡ none))
      ⊎ ((t' : Table H) × (g' : Heap) × (exact_add hash t key value g ≡ ok (t', g'))
          × Adds hash n key value t g t' g')
unfolding exact_add make_table_entry_on_socket
exact_add-Adds hash n key value t g v =
    let keyed = ==_ne t.info.key_size 0 (λ e. absurd (omega (arith, e, v.keyed))) in
    elim (Option-cases (hash.add_key t.ext.rte_table (take t.info.key_size key))) [
      | inl full ↦ inl (rw (keyed, full), full)
      | inr ((index, h), got) ↦ inr (
        behind hash n key value t g index h,
        heap_behind hash n key value t g,
        rw (keyed, got),
        record {
          added = added_lem hash n key value t g v index h got;
          others = others_lem hash n key value t g v index h got;
          entry = rw (==_self (g.made + 1));
          older = λ p le. rw (==_ne (g.made + 1) p (λ e. absurd (omega arith)));
          valid = behind-IsValid hash n key value t g v index h got;
        },
      )
    ]

-- The loop of `exact_flush` finds no key behind the reset: a flushed table has the default entry for
-- every key, and is valid, and no entry is freed.
pub exact_flush_lem :
    {H : Type 0} (hash : Hash H) (n : ℕ) (t : Table H) (k : Key)
    → IsValid hash n t
    → (t' : Table H) × (exact_flush hash t ≡ ok t')
      × (exact_lookup hash t' k ≡ ok t.default_val)
      × IsValid hash n t'
unfolding exact_flush exact_lookup
exact_flush_lem hash n t k v =
    let keyed = ==_ne t.info.key_size 0 (λ e. absurd (omega (arith, e, v.keyed))) in
    (
      record t { ext = record t.ext { rte_table = hash.reset t.ext.rte_table } },
      rw (exact_flush, hash.iterate-reset t.ext.rte_table 0),
      rw (keyed, hash.lookup-reset t.ext.rte_table (take t.info.key_size k)),
      record {
        keyed = v.keyed;
        made = hash.reset-IsMade v.made;
        room = v.room;
        placed = λ q i e. cc (hash.lookup-reset t.ext.rte_table q, e);
      },
    )

abbrev IsEmpty : {H : Type 0} → Hash H → Table H → Key → Run (Table H) → Type 0
IsEmpty hash t k (ok t') =
    IsValid hash hash_entries t' × (exact_lookup hash t' k ≡ ok t.default_val)
IsEmpty hash t k exits = Unit
IsEmpty hash t k fault = Unit

-- A table that was created, with a key and with room for as many entries as the hash has, is valid and
-- has the default entry for every key.
pub exact_create-IsValid :
    {H : Type 0} (hash : Hash H) (t t' : Table H) (k : Key)
    → 0 < t.info.key_size
    → hash_entries ≤ t.max_size
    → exact_create hash t ≡ ok t'
    → IsValid hash hash_entries t' × (exact_lookup hash t' k ≡ ok t.default_val)
unfolding exact_create exact_lookup create_ext_table
exact_create-IsValid hash t t' k keyed room made =
    let ne = ==_ne t.info.key_size 0 (λ e. absurd (omega arith)) in
    elim (Option-cases (hash.create hash_entries t.info.key_size)) [
      | inl e ↦ cc (rw (exact_create, e) at made)
      | inr (h, e) ↦ subst (IsEmpty hash t k) (rw (exact_create, e) at made) (
        record {
          keyed = keyed;
          made = hash.create-IsMade e;
          room = room;
          placed = λ q i f. cc (hash.lookup-create q e, f);
        },
        rw (ne, hash.lookup-create (take t.info.key_size k) e),
      )
    ]
