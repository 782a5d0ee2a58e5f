-- ===== src/Replica.antt =====
-- src/hardware_dep/dpdk/data_plane/dpdk_lib_change_tables.c: the replicas of a table on one socket,
-- and how a change goes to all of them while the cores read one.
pub mod Safe
mod Tests
use t4p4s_ma.Common.{
  ℕ, zero, suc, ◌+◌, ◌%◌, Bool, true, false, ◌&&◌, List, [], ◌∷◌, ◌++◌, ◌==◌, if◌then◌else◌, map,
}

-- NB_REPLICA
abbrev pub nb_replica : ℕ
nb_replica = 2

-- A core: whether it is enabled, its socket, and the replica that its `tables[tid]` points to.
pub record Core : Type 0 where
  pub enabled : Bool
  pub socket : ℕ
  pub replica : ℕ

-- `state[socketid]` for one table, and the cores.
pub record State {ℓ} (T : Type ℓ) : Type ℓ where
  pub tables : ℕ → T
  pub active_replica : ℕ
  pub cores : List Core

-- The cores that the loop of `change_replica` does not pass over.
abbrev pub is_on : ℕ → Core → Bool
is_on socketid c = c.enabled && (c.socket == socketid)

abbrev pub point : ℕ → ℕ → Core → Core
point socketid replica c = if is_on socketid c then record c { replica = replica } else c

abbrev pub any_on : ℕ → List Core → Bool
any_on socketid [] = false
any_on socketid (c ∷ cs) = if is_on socketid c then true else any_on socketid cs

module _ {ℓ} {T : Type ℓ} where
  -- `change_replica`: `active_replica` is set for each core that is not passed over.
  unfoldable pub change_replica : ℕ → ℕ → State T → State T
  change_replica socketid replica s = record s {
    cores = map (point socketid replica) s.cores;
    active_replica = (if any_on socketid s.cores then replica else s.active_replica);
  }

  -- `fun(state[socketid].tables[tableid][r], par)`
  unfoldable pub write : (T → T) → ℕ → State T → State T
  write f r s = record s { tables = (λ k. if k == r then f (s.tables r) else s.tables k) }

  -- The loop of `CHANGE_TABLE` behind the pause, over the replicas from `r` on, `n` of them: the
  -- state behind it.
  unfoldable pub write_others : (T → T) → ℕ → ℕ → ℕ → State T → State T
  unfolding write
  write_others f next zero r s = s
  write_others f next (suc n) r s =
      write_others f next n (r + 1) (if r == next then s else write f r s)

  -- The replicas that the loop writes, each with the state in which it is written.
  unfoldable pub other_writes : (T → T) → ℕ → ℕ → ℕ → State T → List (ℕ × State T)
  unfolding write
  other_writes f next zero r s = []
  other_writes f next (suc n) r s =
      let rest = other_writes f next n (r + 1) (if r == next then s else write f r s) in
      if r == next then rest else (r, s) ∷ rest

  abbrev pub next_replica : State T → ℕ
  next_replica s = (s.active_replica + 1) % nb_replica

  -- `CHANGE_TABLE`: the state behind it.
  unfoldable pub change_table : (T → T) → ℕ → State T → State T
  unfolding change_replica write write_others
  change_table f socketid s =
      write_others f (next_replica s) nb_replica 0
        (change_replica socketid (next_replica s) (write f (next_replica s) s))

  -- All its writes, each with the state in which it happens.
  unfoldable pub all_writes : (T → T) → ℕ → State T → List (ℕ × State T)
  unfolding change_replica write other_writes
  all_writes f socketid s =
      (next_replica s, s)
      ∷ other_writes f (next_replica s) nb_replica 0
          (change_replica socketid (next_replica s) (write f (next_replica s) s))
