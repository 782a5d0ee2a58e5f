-- ===== src/Tables/Manage/Tests.antt =====
-- Two cores on two sockets, with two tables each, whose second replicas are active.
use t4p4s_ma.Common.{
  ltb→lt, List, ℕ, zero, suc, ◌≡◌, ◌<◌, refl, arith, true, none, some, ltb, ◌==◌, Bool-cases, inl,
  inr,
}
use t4p4s_ma.Tables.Entry.{ok, ◌>>=◌}
use t4p4s_ma.Tables.Exact.{exact_create, exact_flush}
use t4p4s_ma.Tables.Prefix.{Rule}
use t4p4s_ma.Tables.Slots.{Slots, slots}
use t4p4s_ma.Tables.Tests.{prefixes, hash_table}
use t4p4s_ma.Tables.Manage.{
  AnyTable, exact, prefix, ternary, create_table, flush_table, SocketState, State, Config,
  init_tables, flush_tables,
}
use t4p4s_ma.Tables.Manage.Reads.{Works, Has}
use t4p4s_ma.Tables.Manage.Init.{AllFilled}
use t4p4s_ma.Tables.Manage.Launch.{AllUsed, init-flush-Reads}

abbrev Any : Type 0
Any = AnyTable Slots (List Rule)

abbrev table : Any
table = exact hash_table

abbrev cfg : Config Any
cfg = record {
  max_lcore = 4;
  lcore_is_enabled = λ l. ltb l 2;
  numa_on = true;
  lcore_to_socket_id = λ l. l;
  nb_tables = 2;
  table_config = λ i. table;
  create = create_table slots prefixes;
  flush = flush_table slots prefixes;
}

-- `lpm_flush` does not return.
abbrev IsExact : Any → Type 0
IsExact (exact t) = Unit
IsExact (prefix t) = ⊥
IsExact (ternary t) = ⊥

flushes : (t : Any) → IsExact t → (t' : Any) × (flush_table slots prefixes t ≡ ok t') × IsExact t'
unfolding flush_table
flushes (exact t) good = elim (Bool-cases (t.info.key_size == 0)) [
  | inl e ↦ (exact t, rw e, tt)
  | inr e ↦ (
    exact (record t { ext = record t.ext { rte_table = slots.reset t.ext.rte_table } }),
    unfold exact_flush in unfold slots in rw e,
    tt,
  )
]
flushes (prefix t) good = absurd good
flushes (ternary t) good = absurd good

works : Works cfg IsExact
unfolding create_table exact_create slots
works = record {
  creates = λ i. (table, refl, tt);
  in_range = λ l on. ground (arith, ltb→lt l 2 on);
  flushes = flushes;
}

abbrev full : SocketState Any
full = record { tables = λ i j. some table; active_replica = λ i. 1 }

abbrev on_socket : ℕ → SocketState Any
on_socket zero = full
on_socket (suc zero) = full
on_socket (suc (suc q)) = record { tables = λ i j. none; active_replica = λ i. 0 }

abbrev state : State Any
state = record { state = on_socket; reads = λ l i. some (l, 1) }

state-AllFilled : AllFilled cfg IsExact works state
state-AllFilled zero there i j lt small = (table, refl, tt)
state-AllFilled (suc zero) there i j lt small = (table, refl, tt)
state-AllFilled (suc (suc q)) there i j lt small = cc there

state-AllUsed : AllUsed cfg IsExact works state
state-AllUsed zero there = (0, omega arith, refl, refl)
state-AllUsed (suc zero) there = (1, omega arith, refl, refl)
state-AllUsed (suc (suc q)) there = cc there

init-flush-Reads_example :
    (s' : State Any) × ((flush_tables cfg state >>= init_tables cfg) ≡ ok s')
    × ((l i : ℕ)
        → l < 4
        → ltb l 2 ≡ true
        → i < 2
        → (s'.reads l i ≡ some (l, (s'.state l).active_replica i))
          × Has cfg IsExact works (s'.state l) i ((s'.state l).active_replica i))
init-flush-Reads_example = init-flush-Reads cfg IsExact works state state-AllFilled state-AllUsed
