-- ===== src/Ternary.antt =====
-- src/hardware_dep/shared/data_plane/ternary_naive.c and includes/ternary_naive.h: the ternary
-- lookup table, a list of entries that is searched from the front.
pub mod Lookup
mod Tests
use t4p4s_ma.Common.{
  ℕ, zero, suc, ◌+◌, ◌-◌, ◌%◌, Option, none, some, List, [], ◌∷◌, ◌++◌, ltb, ◌==◌, if◌then◌else◌,
  Bool, true, false, ◌&&◌, length, take,
}
use Prim.Native.Nat.{bit_and}

-- `ternary_entry`: `value` is a pointer, the key and the mask are owned copies.
pub record Entry : Type 0 where
  pub key : List ℕ
  pub mask : List ℕ
  pub value : ℕ

-- `ternary_table`, with the room that `entries` was allocated with.
pub record Table : Type 0 where
  pub entries : List Entry
  pub keylen : ℕ
  pub capacity : ℕ

-- What a call does: it returns, or it reads through a null pointer or writes out of bounds.
pub data Result {ℓ} (A : Type ℓ) : Type ℓ where
  ok : A → Result A
  fault : Result A

-- `naive_ternary_create`
unfoldable pub create : ℕ → ℕ → Table
create keylen max_size = record { entries = []; keylen = keylen; capacity = max_size }

-- `naive_ternary_add`: `t->entries[t->size++] = e`, where nothing checks that there is room.
unfoldable pub add : Table → List ℕ → List ℕ → ℕ → Result Table
add t key mask value =
    if ltb (length t.entries) t.capacity
    then ok (record t { entries = t.entries ++ e ∷ [] })
    else fault
  where
    e : Entry
    e = record { key = take t.keylen key; mask = take t.keylen mask; value = value }

-- The inner loop: whether the entry's key is the masked key in the bytes that are left. The source reads
-- as many bytes of the key and of the mask as the table's key length says; that there are so many is a
-- matter of its callers, and a condition of the theorems on it.
unfoldable pub matches : List ℕ → List ℕ → List ℕ → Bool
matches [] mask key = true
matches (e ∷ es) [] key = true
matches (e ∷ es) (m ∷ ms) [] = true
matches (e ∷ es) (m ∷ ms) (k ∷ ks) = if e == bit_and k m then matches es ms ks else false

-- The outer loop, over the entries that are left: the values of `match` and of `res` behind it.
unfoldable pub scan : List ℕ → List Entry → Bool → Bool × Option Entry
unfolding matches
scan key [] matched = (matched, none)
scan key (e ∷ es) matched = elim (matches e.key e.mask key) [
  | true ↦ (true, some e)
  | false ↦ scan key es false
]

-- `return match ? res->value : NULL`
abbrev pub value_of : Bool × Option Entry → Result ℕ
value_of (false, res) = ok 0
value_of (true, none) = fault
value_of (true, some e) = ok e.value

-- `naive_ternary_lookup`; `match` starts as 1 and `res` as null.
unfoldable pub lookup : Table → List ℕ → Result ℕ
unfolding scan
lookup t key = value_of (scan (take t.keylen key) t.entries true)

-- `naive_ternary_flush`, which frees the entries from the last to the first.
unfoldable pub flush : Table → Table
flush t = record t { entries = [] }
