-- ===== src/Tables/Naive.antt =====
-- src/hardware_dep/dpdk/data_plane/dpdk_tables_ternary.c: the ternary tables.
pub mod Adds
use t4p4s_ma.Common.{ℕ, ◌==◌, if◌then◌else◌}
use t4p4s_ma.Memory.{Mem}
use t4p4s_ma.Ternary
use t4p4s_ma.Ternary.{Result}
use t4p4s_ma.Tables.Entry.{Key, Run, ok, fault, ◌>>=◌, Heap, Info, make_table_entry_on_socket}

-- The ternary tables: `table` is the naive ternary table.
abbrev pub of_result {ℓ} : {A : Type ℓ} → Result A → Run A
of_result (Result.ok a) = ok a
of_result Result.fault = fault

pub record TernaryTable : Type 0 where
  pub info : Info
  pub max_size : ℕ
  pub default_val : ℕ
  pub table : Ternary.Table

unfoldable pub ternary_create : TernaryTable → TernaryTable
ternary_create t = record t { table = Ternary.create t.info.key_size t.max_size }

unfoldable pub ternary_add : TernaryTable → Key → Key → Mem → Heap → Run (TernaryTable × Heap)
unfolding make_table_entry_on_socket
ternary_add t key mask value g =
    if t.info.key_size == 0
    then ok (t, g)
    else (let (p, g') = make_table_entry_on_socket t.info value g in
        of_result (Ternary.add t.table key mask p)
        >>= (λ table. ok (record t { table = table }, g')))

unfoldable pub ternary_lookup : TernaryTable → Key → Run ℕ
ternary_lookup t key =
    if t.info.key_size == 0
    then ok t.default_val
    else of_result (Ternary.lookup t.table key)
      >>= (λ ret. if ret == 0 then ok t.default_val else ok ret)

unfoldable pub ternary_flush : TernaryTable → TernaryTable
ternary_flush t = if t.info.key_size == 0 then t else record t { table = Ternary.flush t.table }
