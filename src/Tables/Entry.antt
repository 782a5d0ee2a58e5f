-- ===== src/Tables/Entry.antt =====
-- src/hardware_dep/dpdk/data_plane/dpdk_tables.c: the entries and what all tables share.
pub mod Bytes
use t4p4s_ma.Common.{
  ◌≡◌, ◌≢◌, arith, Bool, true, Option-cases, inl, inr, ℕ, ◌+◌, Option, none, some, List, ◌==◌,
  replicate, if◌then◌else◌,
}
use t4p4s_ma.Memory.{Mem, store8, store_bytes, load_bytes}

-- The bytes of a key.
abbrev pub Key : Type 0
Key = List ℕ

-- How a call ends: it returns, the process exits with an error, or memory is used that must not be.
pub data Run {ℓ} (A : Type ℓ) : Type ℓ where
  ok : A → Run A
  exits : Run A
  fault : Run A

infixl 5 ◌>>=◌
abbrev pub ◌>>=◌ {ℓ κ} : {A : Type ℓ} {B : Type κ} → Run A → (A → Run B) → Run B
ok a >>= f = f a
exits >>= f = exits
fault >>= f = fault

-- What `rte_malloc_socket` gave and `rte_free` took back: a pointer is one more than the number of the
-- calls before, and 0 is null. Memory that was freed is not given out again, and each call succeeds.
pub record Heap : Type 0 where
  pub made : ℕ
  pub at : ℕ → Mem
  pub freed : ℕ → Bool

-- `rte_free`
abbrev pub rte_free : ℕ → Heap → Heap
rte_free p g = record g { freed = λ q. if p == q then true else g.freed q }

-- `lookup_table_entry_info_t`
pub record Info : Type 0 where
  pub key_size : ℕ
  pub action_size : ℕ
  pub state_size : ℕ

-- `entry_validity_ptr`
abbrev pub entry_validity_ptr : Info → ℕ
entry_validity_ptr info = info.action_size + info.state_size

-- `make_table_entry`, on the memory of the entry; `value` is the memory it is made from.
unfoldable pub make_table_entry : Mem → Mem → Info → Mem
make_table_entry entry value info =
    let m₁ = store_bytes entry 0 (load_bytes value 0 info.action_size) in
    let m₂ = store_bytes m₁ info.action_size (replicate info.state_size 0) in
    store8 m₂ (entry_validity_ptr info) 1

abbrev pub write : ℕ → Mem → (ℕ → Mem) → ℕ → Mem
write p m at q = if p == q then m else at q

-- `make_table_entry_on_socket`: the pointer and the heap. The memory holds anything at first. It is
-- taken to be as large as the three parts of an entry, as the generated tables say.
unfoldable pub make_table_entry_on_socket : Info → Mem → Heap → ℕ × Heap
unfolding make_table_entry
make_table_entry_on_socket info value g =
    let p = g.made + 1 in
    (p, record g { made = p; at = write p (make_table_entry (g.at p) value info) g.at })

-- `extended_table_t`; an element of `content` that was never set is `none`.
pub record Ext (R : Type 0) : Type 0 where
  pub rte_table : R
  pub size : ℕ
  pub content : ℕ → Option ℕ

-- `lookup_table_t`, with what its pointer `table` points to.
pub record Table (R : Type 0) : Type 0 where
  pub info : Info
  pub max_size : ℕ
  pub default_val : ℕ
  pub ext : Ext R

-- `table_set_default_action`: the old entry, if there is one, is freed; the new one is made as any
-- other, and then marked as no valid one.
unfoldable pub table_set_default_action : {R : Type 0} → Table R → Mem → Heap → Table R × Heap
unfolding make_table_entry_on_socket
table_set_default_action t value g =
    let g₀ = if t.default_val == 0 then g else rte_free t.default_val g in
    let (p, g') = make_table_entry_on_socket t.info value g₀ in
    (
      record t { default_val = p },
      record g' { at = write p (store8 (g'.at p) (entry_validity_ptr t.info) 0) g'.at },
    )

-- `create_ext_table`
unfoldable pub create_ext_table : {R : Type 0} → Table R → R → Table R
create_ext_table t rte_table = record t {
  ext = record { rte_table = rte_table; size = 0; content = λ i. none };
}

-- `ext->content[i] = p`
abbrev pub put : {R : Type 0} → ℕ → ℕ → Ext R → Ext R
put i p ext = record ext { content = λ j. if i == j then some p else ext.content j }

-- A pointer that is read from the array.
abbrev pub content_at : {R : Type 0} → Ext R → ℕ → Run ℕ
content_at ext i = elim (ext.content i) [ none ↦ fault | some p ↦ ok p ]

module _ {R : Type 0} (i p : ℕ) (ext : Ext R) where
  pub content_at-put_self : content_at (put i p ext) i ≡ ok p
  content_at-put_self = ground arith

  pub content_at-put_ne : (j : ℕ) → i ≢ j → content_at (put i p ext) j ≡ content_at ext j
  content_at-put_ne j h = ground arith

-- An element that was set is read.
pub content_at_ok :
    {R : Type 0} (ext : Ext R) (i : ℕ) → ext.content i ≢ none → (p : ℕ) × (content_at ext i ≡ ok p)
content_at_ok ext i h = elim (Option-cases (ext.content i)) [
  | inl e ↦ absurd (h e)
  | inr (p, e) ↦ (p, ground arith)
]

pub content_at_fault :
    {R : Type 0} (ext : Ext R) (i : ℕ) → ext.content i ≡ none → content_at ext i ≡ fault
content_at_fault ext i h = ground arith
