-- ===== src/Tables/Entry/Bytes.antt =====
-- src/hardware_dep/dpdk/data_plane/dpdk_tables.c: what an entry holds.
use t4p4s_ma.Common.{
  ℕ, ◌+◌, ◌≡◌, ◌≢◌, ◌<◌, ◌≤◌, ◌==◌, if◌then◌else◌, true, Bool-cases, ==_iff, inr, refl, ◌∙◌, subst,
  arith, inl, replicate, ==_self, ==_ne, length-replicate,
}
use t4p4s_ma.Memory.{Mem, store8, store_bytes, load_bytes}
use t4p4s_ma.Memory.Laws.{
  store8_self, store8_ne, store_bytes_ne, load_bytes-store_bytes, length-load_bytes,
  load_bytes_congr,
}
use t4p4s_ma.Tables.Entry.{
  Info, Heap, Table, entry_validity_ptr, make_table_entry, make_table_entry_on_socket,
  table_set_default_action,
}

-- An entry with this action data and state, and this mark.
pub record Holds (info : Info) (value : Mem) (valid : ℕ) (entry : Mem) : Type 0 where
  pub action : load_bytes entry 0 info.action_size ≡ load_bytes value 0 info.action_size
  pub state : load_bytes entry info.action_size info.state_size ≡ replicate info.state_size 0
  pub mark : entry (entry_validity_ptr info) ≡ valid

-- A mark is behind the action data and the state.
Holds-mark :
    (info : Info) (value m : Mem) (v v' : ℕ)
    → Holds info value v m
    → Holds info value v' (store8 m (entry_validity_ptr info) v')
Holds-mark info value m v v' h = record {
  action =
      load_bytes_congr _ m 0 0 info.action_size
        (λ i lt. store8_ne m (entry_validity_ptr info) v' (0 + i) (λ e. absurd (omega arith)))
      ∙ h.action;
  state =
      load_bytes_congr _ m info.action_size info.action_size info.state_size (λ i lt.
        store8_ne m (entry_validity_ptr info) v' (info.action_size + i) (λ e. absurd (omega arith)))
      ∙ h.state;
  mark = store8_self m (entry_validity_ptr info) v';
}

bare :
    (entry value : Mem) (info : Info)
    → let m =
        store_bytes
          (store_bytes entry 0 (load_bytes value 0 info.action_size))
          info.action_size
          (replicate info.state_size 0) in
      Holds info value (m (entry_validity_ptr info)) m
bare entry value info =
    let xs = load_bytes value 0 info.action_size in
    let zeros = replicate info.state_size 0 in
    let m₁ = store_bytes entry 0 xs in
    record {
      action =
          load_bytes_congr _ m₁ 0 0 info.action_size
            (λ i lt. store_bytes_ne m₁ info.action_size zeros (0 + i) (inl (omega arith)))
          ∙ subst (λ n. load_bytes m₁ 0 n ≡ xs) (length-load_bytes value 0 info.action_size)
              (load_bytes-store_bytes entry 0 xs);
      state =
          subst (λ n. load_bytes (store_bytes m₁ info.action_size zeros) info.action_size n ≡ zeros)
            (length-replicate info.state_size 0) (load_bytes-store_bytes m₁ info.action_size zeros);
      mark = refl;
    }

-- An entry has the bytes of its value, a state of zeros, and is marked as valid, whatever its memory
-- held before.
pub make_table_entry-Holds :
    (entry value : Mem) (info : Info) → Holds info value 1 (make_table_entry entry value info)
unfolding make_table_entry
make_table_entry-Holds entry value info = Holds-mark info value _ _ 1 (bare entry value info)

-- A default entry has the bytes of its value and is marked as not valid. The default entry before it, if
-- there was one, is freed, and no other memory is; no entry made before changes, but for the freed one.
pub table_set_default_action-Holds :
    {R : Type 0} (t : Table R) (value : Mem) (g : Heap)
    → let r = table_set_default_action t value g in
      Holds t.info value 0 (r.1.at r.0.default_val)
      × ((p : ℕ) → p ≤ g.made → p ≢ t.default_val → r.1.at p ≡ g.at p)
      × ((p : ℕ) → 0 < p → r.1.freed p ≡ (if t.default_val == p then true else g.freed p))
      × (r.0.default_val ≡ g.made + 1)
      × (r.0.ext ≡ t.ext)
unfolding table_set_default_action make_table_entry_on_socket
table_set_default_action-Holds t value g = elim (Bool-cases (t.default_val == 0)) [
  | inl first ↦
      let null = (==_iff t.default_val 0).0 first in
      rw first (
        rw (==_self (g.made + 1)) (
            Holds-mark t.info value _ 1 0
              (make_table_entry-Holds (g.at (g.made + 1)) value t.info)),
        λ p le ne. rw (==_ne (g.made + 1) p (λ e. absurd (omega arith))),
        λ p pos. rw (null, ==_ne 0 p (λ e. absurd (omega arith))),
        refl,
        refl,
      )
  | inr other ↦ rw other (
    rw (==_self (g.made + 1))
        (Holds-mark t.info value _ 1 0 (make_table_entry-Holds (g.at (g.made + 1)) value t.info)),
    λ p le ne. rw (==_ne (g.made + 1) p (λ e. absurd (omega arith))),
    λ p pos. refl,
    refl,
    refl,
  )
]
