-- ===== src/Tables/Exact.antt =====
-- src/hardware_dep/dpdk/data_plane/dpdk_tables_exact.c: the tables with exact keys, over `rte_hash`.
pub mod Map
use t4p4s_ma.Common.{ℕ, ◌%◌, ◌≡◌, ◌≢◌, ◌<◌, Option, none, some, ◌==◌, take, if◌then◌else◌}
use t4p4s_ma.Memory.{Mem}
use t4p4s_ma.Tables.Entry.{
  Key, Run, ok, exits, fault, ◌>>=◌, rte_free, Heap, make_table_entry_on_socket, Table,
  create_ext_table, put, content_at,
}

-- `rte_hash`, as it is documented: a key that is added gets a position of its own, below the number of
-- entries that the hash was created with.
pub record Hash (H : Type 0) : Type 1 where
  -- `none` is a null pointer
  pub create : ℕ → ℕ → Option H
  -- `none` is a negative result
  pub add_key : H → Key → Option (ℕ × H)
  pub lookup : H → Key → Option ℕ
  pub reset : H → H
  -- the next key and the next iterator; `none` is a negative result
  pub iterate : H → ℕ → Option (Key × ℕ)
  -- the hash was made by these calls, with so many entries
  pub IsMade : ℕ → H → Type 0
  pub create-IsMade : {n len : ℕ} {h : H} → create n len ≡ some h → IsMade n h
  pub add_key-IsMade :
      {n : ℕ} {h h' : H} {k : Key} {i : ℕ} → IsMade n h → add_key h k ≡ some (i, h') → IsMade n h'
  pub reset-IsMade : {n : ℕ} {h : H} → IsMade n h → IsMade n (reset h)
  pub lookup-create : {n len : ℕ} {h : H} (k : Key) → create n len ≡ some h → lookup h k ≡ none
  pub iterate-reset : (h : H) (iter : ℕ) → iterate (reset h) iter ≡ none
  pub lookup-reset : (h : H) (k : Key) → lookup (reset h) k ≡ none
  pub lookup-add_self :
      {n : ℕ} {h h' : H} {k : Key} {i : ℕ}
      → IsMade n h
      → add_key h k ≡ some (i, h')
      → lookup h' k ≡ some i
  pub lookup-add_ne :
      {n : ℕ} {h h' : H} {k : Key} {i : ℕ} (k' : Key)
      → IsMade n h
      → add_key h k ≡ some (i, h')
      → k' ≢ k
      → lookup h' k' ≡ lookup h k'
  pub lookup_inj :
      {n : ℕ} {h : H} {k k' : Key} {i : ℕ}
      → IsMade n h
      → lookup h k ≡ some i
      → lookup h k' ≡ some i
      → k ≡ k'
  pub lookup_lt : {n : ℕ} {h : H} {k : Key} {i : ℕ} → IsMade n h → lookup h k ≡ some i → i < n

-- HASH_ENTRIES
abbrev pub hash_entries : ℕ
hash_entries = 10000

module _ {H : Type 0} (hash : Hash H) where
  -- `exact_create`; `hash_create` exits where there is no hash.
  unfoldable pub exact_create : Table H → Run (Table H)
  unfolding create_ext_table
  exact_create t = elim (hash.create hash_entries t.info.key_size) [
    | none ↦ exits
    | some h ↦ ok (create_ext_table t h)
  ]

  unfoldable pub exact_add : Table H → Key → Mem → Heap → Run (Table H × Heap)
  unfolding make_table_entry_on_socket
  exact_add t key value g =
      if t.info.key_size == 0
      then ok (t, g)
      else elim (hash.add_key t.ext.rte_table (take t.info.key_size key)) [
        | none ↦ exits
        | some (index, h) ↦
            let (p, g') = make_table_entry_on_socket t.info value g in
            ok (record t { ext = put (index % t.max_size) p (record t.ext { rte_table = h }) }, g')
      ]

  unfoldable pub exact_lookup : Table H → Key → Run ℕ
  exact_lookup t key =
      if t.info.key_size == 0
      then ok t.default_val
      else elim (hash.lookup t.ext.rte_table (take t.info.key_size key)) [
        | none ↦ ok t.default_val
        | some ret ↦ content_at t.ext (ret % t.max_size)
      ]

  -- `exact_delete`: the entry is freed; the key stays in the hash.
  unfoldable pub exact_delete : Table H → Key → Heap → Run Heap
  exact_delete t key g =
      if t.info.key_size == 0
      then ok g
      else elim (hash.lookup t.ext.rte_table (take t.info.key_size key)) [
        | none ↦ ok g
        | some ret ↦ content_at t.ext (ret % t.max_size) >>= (λ p. ok (rte_free p g))
      ]

  -- `exact_flush`. The body of its loop calls `exact_delete` with the hash in the place of the table,
  -- so the memory of the hash is read as if it were a table, if the loop finds a key.
  unfoldable pub exact_flush : Table H → Run (Table H)
  exact_flush t =
      let h = hash.reset t.ext.rte_table in
      elim (hash.iterate h 0) [
        | none ↦ ok (record t { ext = record t.ext { rte_table = h } })
        | some (next_key, iter) ↦ fault
      ]
