-- ===== src/Replica/Tests.antt =====
-- dpdk_lib_change_tables.c: a table of numbers, three cores.
use t4p4s_ma.Common.{ℕ, ◌+◌, ◌≡◌, refl, arith, true, false, [], ◌∷◌}
use t4p4s_ma.Replica.{State, change_table, all_writes, next_replica}
use t4p4s_ma.Replica.Safe.{AllRead, Unread, change_table-Unread, change_table_lem}

-- Cores 0 and 1 are on socket 0, core 1 is off, core 2 is on socket 1.
abbrev state : State ℕ
state = record {
  tables = λ r. 5;
  active_replica = 0;
  cores =
      record { enabled = true; socket = 0; replica = 0 }
      ∷ record { enabled = false; socket = 0; replica = 9 }
      ∷ record { enabled = true; socket = 1; replica = 3 }
      ∷ [];
}

abbrev bump : ℕ → ℕ
bump n = n + 1

changed :
    ((change_table bump 0 state).tables 0 ≡ 6) × ((change_table bump 0 state).active_replica ≡ 1)
unfolding change_table
changed = (refl, refl)

state-AllRead : AllRead 0 0 state.cores
state-AllRead = ((λ e. refl), ((λ e. absurd (cc)), ((λ e. absurd (cc)), tt)))

change_table-Unread_example :
    Unread 0 (all_writes bump 0 state)
    × AllRead 0 (next_replica state) (change_table bump 0 state).cores
change_table-Unread_example = change_table-Unread bump 0 state (omega arith) state-AllRead

change_table_lem_example : (change_table bump 0 state).tables 0 ≡ 6
change_table_lem_example =
    change_table_lem bump 0 state 5 (omega arith) (λ r k. refl) 0 (omega arith)
