-- ===== src/Tables/Prefix.antt =====
-- src/hardware_dep/dpdk/data_plane/dpdk_tables_lpm.c: the tables with prefixes, over `rte_lpm` and
-- `rte_lpm6`.
pub mod Entries
pub mod Longest
use t4p4s_ma.Common.{
  ℕ, ◌+◌, ◌*◌, ◌-◌, ◌/◌, ◌%◌, ◌^◌, ◌≡◌, Bool, Option, none, some, List, [], ◌∷◌, ◌++◌, ltb, leb,
  ◌==◌, replicate, take, if◌then◌else◌,
}
use t4p4s_ma.Memory.{Mem}
use t4p4s_ma.Tables.Entry.{
  Key, Run, ok, exits, fault, ◌>>=◌, Heap, Info, make_table_entry_on_socket, Table,
  create_ext_table, put, content_at,
}

-- A prefix: an address, how many of its bits count, from the highest on, and what a lookup gives.
pub record Rule : Type 0 where
  pub prefix : ℕ
  pub depth : ℕ
  pub value : ℕ

-- The first `depth` of the `width` bits of the address are those of the prefix.
abbrev pub covers : ℕ → Rule → ℕ → Bool
covers width r address = r.prefix / 2 ^ (width - r.depth) == address / 2 ^ (width - r.depth)

-- The deeper of two rules; the first of two that are as deep.
abbrev pub deeper : Rule → Option Rule → Rule
deeper r none = r
deeper r (some q) = if leb q.depth r.depth then r else q

-- Longest prefix match: the deepest of the rules that cover the address, and of those that are as deep
-- the first.
unfoldable pub longest : ℕ → List Rule → ℕ → Option Rule
longest width [] address = none
longest width (r ∷ rs) address =
    let rest = longest width rs address in
    if covers width r address then some (deeper r rest) else rest

abbrev pub value_of : Option Rule → Option ℕ
value_of none = none
value_of (some r) = some r.value

-- `rte_lpm`, for addresses of 32 bits, and `rte_lpm6`, for 128 bits, as they are documented: they have
-- the rules that were added, the last one first, and a lookup gives the value of the longest prefix.
-- The width is the first argument.
pub record Lpm (L : Type 0) : Type 0 where
  -- `none` is a null pointer
  pub create : ℕ → ℕ → Option L
  -- `none` is a negative result
  pub add : ℕ → L → Rule → Option L
  pub lookup : ℕ → L → ℕ → Option ℕ
  pub delete_all : ℕ → L → L
  pub rules : L → List Rule
  pub rules-create : {width n : ℕ} {l : L} → create width n ≡ some l → rules l ≡ []
  pub rules-add :
      {width : ℕ} {l l' : L} {r : Rule} → add width l r ≡ some l' → rules l' ≡ r ∷ rules l
  pub rules-delete_all : (width : ℕ) (l : L) → rules (delete_all width l) ≡ []
  pub lookup_lem :
      (width : ℕ) (l : L) (address : ℕ)
      → lookup width l address ≡ value_of (longest width (rules l) address)

abbrev pub width_of : Info → ℕ
width_of info = if leb info.key_size 4 then 32 else 128

-- A number that is in memory with its lowest byte first, and one with its highest byte first.
unfoldable pub little_endian : List ℕ → ℕ
little_endian [] = 0
little_endian (b ∷ bs) = b + 256 * little_endian bs

unfoldable pub big_endian : ℕ → List ℕ → ℕ
big_endian acc [] = acc
big_endian acc (b ∷ bs) = big_endian (256 * acc + b) bs

-- The address that stands in `key32`, a number of the host, which has its lowest byte first; or in
-- `key128`, whose first byte is the highest. The rest of both is zero.
unfoldable pub address : Info → Key → ℕ
address info key =
    let bytes = take info.key_size key in
    if leb info.key_size 4
    then little_endian bytes
    else big_endian 0 (bytes ++ replicate (16 - info.key_size) 0)

module _ {L : Type 0} (lpm : Lpm L) where
  unfoldable pub lpm_create : Table L → Run (Table L)
  unfolding create_ext_table
  lpm_create t =
      if leb t.info.key_size 16
      then elim (lpm.create (width_of t.info) t.max_size) [
        | none ↦ exits
        | some l ↦ ok (create_ext_table t l)
      ]
      else exits

  -- `lpm_flush`; the pointer that is freed is read from the array first.
  unfoldable pub lpm_flush : Table L → Run (Table L)
  lpm_flush t =
      if ltb t.ext.size t.max_size
      then content_at t.ext t.ext.size >>= (λ p.
        if leb t.info.key_size 16
        then ok (record t {
          ext = record t.ext { rte_table = lpm.delete_all (width_of t.info) t.ext.rte_table };
        })
        else ok t)
      else fault

-- `indices` is how many values a `table_index_t` has: 256 before version 17.05 of DPDK, and 2 ^ 32
-- since then.
module _ {L : Type 0} (lpm : Lpm L) (indices : ℕ) where
  -- `lpm_add`: the entry is written at the index `size`, and then the prefix is added with this index,
  -- and `size` goes up by one, within its type. Nothing checks that there is room.
  unfoldable pub lpm_add : Table L → Key → ℕ → Mem → Heap → Run (Table L × Heap)
  unfolding make_table_entry_on_socket address
  lpm_add t key depth value g =
      if t.info.key_size == 0
      then ok (t, g)
      else if ltb t.ext.size t.max_size
      then (let (p, g') = make_table_entry_on_socket t.info value g in
          let ext = put t.ext.size p t.ext in
          let r : Rule = record { prefix = address t.info key; depth = depth; value = ext.size } in
          if leb t.info.key_size 16
          then elim (lpm.add (width_of t.info) ext.rte_table r) [
            | none ↦ exits
            | some l ↦ ok (
              record t { ext = record ext { rte_table = l; size = (ext.size + 1) % indices } },
              g',
            )
          ]
          else ok (record t { ext = ext }, g'))
      else fault

  -- `lpm_lookup`; a key that is too long gives null.
  unfoldable pub lpm_lookup : Table L → Key → Run ℕ
  unfolding address
  lpm_lookup t key =
      if t.info.key_size == 0
      then ok t.default_val
      else if leb t.info.key_size 16
      then elim (lpm.lookup (width_of t.info) t.ext.rte_table (address t.info key)) [
        | none ↦ ok t.default_val
        | some result ↦ content_at t.ext (result % indices)
      ]
      else ok 0
