-- ===== src/Tables/Manage.antt =====
-- src/hardware_dep/dpdk/data_plane/dpdk_tables.c, create_table and flush_table, and
-- dpdk_lib_init_tables.c: the tables of all sockets, and which of them each core reads.
pub mod Reads
pub mod Init
pub mod Launch
mod Tests
use t4p4s_ma.Common.{
  ℕ, zero, suc, ◌+◌, Bool, true, false, Option, none, some, ltb, leb, ◌==◌, if◌then◌else◌,
}
use t4p4s_ma.Tables.Entry.{Run, ok, exits, fault, ◌>>=◌, Table}
use t4p4s_ma.Tables.Exact.{Hash, exact_create, exact_flush}
use t4p4s_ma.Tables.Prefix.{Lpm, lpm_create, lpm_flush}
use t4p4s_ma.Tables.Naive.{TernaryTable, ternary_create, ternary_flush}
use t4p4s_ma.Replica.{nb_replica}

-- A table with its `type`.
pub data AnyTable (H L : Type 0) : Type 0 where
  exact : Table H → AnyTable H L
  prefix : Table L → AnyTable H L
  ternary : TernaryTable → AnyTable H L

module _ {H L : Type 0} (hash : Hash H) (lpm : Lpm L) where
  -- `create_table`; a table without a key is not created.
  unfoldable pub create_table : AnyTable H L → Run (AnyTable H L)
  create_table (exact t) =
      let t' = record t { default_val = 0 } in
      if t.info.key_size == 0 then ok (exact t') else exact_create hash t' >>= (λ u. ok (exact u))
  create_table (prefix t) =
      let t' = record t { default_val = 0 } in
      if t.info.key_size == 0 then ok (prefix t') else lpm_create lpm t' >>= (λ u. ok (prefix u))
  create_table (ternary t) =
      let t' = record t { default_val = 0 } in
      if t.info.key_size == 0 then ok (ternary t') else ok (ternary (ternary_create t'))

  unfoldable pub flush_table : AnyTable H L → Run (AnyTable H L)
  flush_table (exact t) =
      if t.info.key_size == 0 then ok (exact t) else exact_flush hash t >>= (λ u. ok (exact u))
  flush_table (prefix t) =
      if t.info.key_size == 0 then ok (prefix t) else lpm_flush lpm t >>= (λ u. ok (prefix u))
  flush_table (ternary t) =
      if t.info.key_size == 0 then ok (ternary t) else ok (ternary (ternary_flush t))

-- NB_SOCKETS
abbrev pub nb_sockets : ℕ
nb_sockets = 8

-- `struct socket_state`: the tables by their number and replica, and the active replicas. `none` is
-- null.
pub record SocketState (T : Type 0) : Type 0 where
  pub tables : ℕ → ℕ → Option T
  pub active_replica : ℕ → ℕ

-- `state`, and the `tables` of each `lcore_conf`: a pointer is the socket and the replica that it
-- points to.
pub record State (T : Type 0) : Type 0 where
  pub state : ℕ → SocketState T
  pub reads : ℕ → ℕ → Option (ℕ × ℕ)

-- What does not change: the cores, `table_config` and the functions on tables.
pub record Config (T : Type 0) : Type 0 where
  pub max_lcore : ℕ
  pub lcore_is_enabled : ℕ → Bool
  pub numa_on : Bool
  pub lcore_to_socket_id : ℕ → ℕ
  pub nb_tables : ℕ
  pub table_config : ℕ → T
  pub create : T → Run T
  pub flush : T → Run T

module _ {T : Type 0} where
  abbrev pub put_table : ℕ → ℕ → T → SocketState T → SocketState T
  put_table i j t s = record s {
    tables =
        λ i' j'. if i == i' then (if j == j' then some t else s.tables i' j') else s.tables i' j';
  }

  abbrev pub activate : ℕ → SocketState T → SocketState T
  activate i s = record s { active_replica = λ i'. if i == i' then 0 else s.active_replica i' }

  abbrev pub put_state : ℕ → SocketState T → State T → State T
  put_state socketid k s = record s { state = λ q. if socketid == q then k else s.state q }

module _ {T : Type 0} (cfg : Config T) where
  -- `get_socketid`, less its exit, which is in the functions that call it.
  abbrev pub get_socketid : ℕ → ℕ
  get_socketid lcore_id = if cfg.numa_on then cfg.lcore_to_socket_id lcore_id else 0

  -- The inner loop of `create_tables_on_socket`, with `n` replicas left from `j` on.
  unfoldable pub create_replicas : ℕ → ℕ → ℕ → SocketState T → Run (SocketState T)
  create_replicas zero j i s = ok s
  create_replicas (suc n) j i s =
      cfg.create (cfg.table_config i) >>= (λ t. create_replicas n (j + 1) i (put_table i j t s))

  -- The outer loop, with `n` tables left from `i` on.
  unfoldable pub create_tables : ℕ → ℕ → SocketState T → Run (SocketState T)
  unfolding create_replicas
  create_tables zero i s = ok s
  create_tables (suc n) i s =
      create_replicas nb_replica 0 i s >>= (λ s'. create_tables n (i + 1) (activate i s'))

  unfoldable pub create_tables_on_socket : ℕ → State T → Run (State T)
  unfolding create_tables
  create_tables_on_socket socketid s =
      create_tables cfg.nb_tables 0 (s.state socketid) >>= (λ k. ok (put_state socketid k s))

  -- `tables[0][0] == NULL`
  abbrev pub has_none : ℕ → State T → Bool
  has_none socketid s = elim ((s.state socketid).tables 0 0) [ none ↦ true | some t ↦ false ]

  -- The loop of `create_table_on_lcore`: `tables[i][0]` is the pointer that is stored.
  abbrev pub point : ℕ → State T → State T
  point lcore_id s = record s {
    reads = λ l i.
        if lcore_id == l
        then (if ltb i cfg.nb_tables
            then elim ((s.state (get_socketid lcore_id)).tables i 0) [
              | none ↦ none
              | some t ↦ some (get_socketid lcore_id, 0)
            ]
            else s.reads l i)
        else s.reads l i;
  }

  unfoldable pub create_table_on_lcore : ℕ → State T → Run (State T)
  unfolding create_tables_on_socket
  create_table_on_lcore lcore_id s =
      if cfg.lcore_is_enabled lcore_id
      then (if leb nb_sockets (get_socketid lcore_id)
          then exits
          else (if has_none (get_socketid lcore_id) s
              then create_tables_on_socket (get_socketid lcore_id) s
              else ok s)
            >>= (λ s'. ok (point lcore_id s')))
      else ok s

  -- The loop of `init_tables`, with `n` cores left from `lcore_id` on.
  unfoldable pub init_from : ℕ → ℕ → State T → Run (State T)
  unfolding create_table_on_lcore
  init_from zero lcore_id s = ok s
  init_from (suc n) lcore_id s = create_table_on_lcore lcore_id s >>= init_from n (lcore_id + 1)

  unfoldable pub init_tables : State T → Run (State T)
  unfolding init_from
  init_tables s = init_from cfg.max_lcore 0 s

  -- The inner loop of `flush_tables_on_socket`; a null pointer is a fault.
  unfoldable pub flush_replicas : ℕ → ℕ → ℕ → SocketState T → Run (SocketState T)
  flush_replicas zero j i s = ok s
  flush_replicas (suc n) j i s = elim (s.tables i j) [
    | none ↦ fault
    | some t ↦ cfg.flush t >>= (λ t'. flush_replicas n (j + 1) i (put_table i j t' s))
  ]

  unfoldable pub flush_all : ℕ → ℕ → SocketState T → Run (SocketState T)
  unfolding flush_replicas
  flush_all zero i s = ok s
  flush_all (suc n) i s =
      flush_replicas nb_replica 0 i s >>= (λ s'. flush_all n (i + 1) (activate i s'))

  unfoldable pub flush_tables_on_socket : ℕ → State T → Run (State T)
  unfolding flush_all
  flush_tables_on_socket socketid s =
      flush_all cfg.nb_tables 0 (s.state socketid) >>= (λ k. ok (put_state socketid k s))

  unfoldable pub flush_table_on_lcore : ℕ → State T → Run (State T)
  unfolding flush_tables_on_socket
  flush_table_on_lcore lcore_id s =
      if cfg.lcore_is_enabled lcore_id
      then (if leb nb_sockets (get_socketid lcore_id)
          then exits
          else if has_none (get_socketid lcore_id) s
          then ok s
          else flush_tables_on_socket (get_socketid lcore_id) s)
      else ok s

  unfoldable pub flush_from : ℕ → ℕ → State T → Run (State T)
  unfolding flush_table_on_lcore
  flush_from zero lcore_id s = ok s
  flush_from (suc n) lcore_id s = flush_table_on_lcore lcore_id s >>= flush_from n (lcore_id + 1)

  unfoldable pub flush_tables : State T → Run (State T)
  unfolding flush_from
  flush_tables s = flush_from cfg.max_lcore 0 s
