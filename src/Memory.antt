-- ===== src/Memory.antt =====
-- The bytes that the C code reads and writes through pointers, and commands on them.
-- The host is little endian, as the x86 machines are for which the switch is built.
pub mod Laws
use t4p4s_ma.Common.{
  ℕ, zero, suc, ◌+◌, ◌-◌, ◌*◌, ◌/◌, ◌%◌, ◌^◌, Option, none, some, List, [], ◌∷◌, ◌++◌, ◌==◌,
  if◌then◌else◌,
}
use Prim.Native.Char.{code}
use Prim.Native.String.{String}

-- A byte at each address; an address counts from the start of the object at hand.
abbrev pub Mem : Type 0
Mem = ℕ → ℕ

unfoldable pub store8 : Mem → ℕ → ℕ → Mem
store8 m a v b = if b == a then v else m b

unfoldable pub load16 : Mem → ℕ → ℕ
load16 m a = m a + 256 * m (a + 1)

unfoldable pub store16 : Mem → ℕ → ℕ → Mem
unfolding store8
store16 m a v = store8 (store8 m a (v % 256)) (a + 1) (v / 256 % 256)

unfoldable pub load32 : Mem → ℕ → ℕ
load32 m a = m a + 256 * m (a + 1) + 65536 * m (a + 2) + 16777216 * m (a + 3)

unfoldable pub store32 : Mem → ℕ → ℕ → Mem
unfolding store16 store8
store32 m a v = store16 (store16 m a (v % 65536)) (a + 2) (v / 65536)

-- `htons` and `ntohs` on a little-endian host: the two bytes change places.
unfoldable pub htons : ℕ → ℕ
htons v = v % 256 * 256 + v / 256 % 256

-- `htonl` and `ntohl`
unfoldable pub htonl : ℕ → ℕ
unfolding htons
htonl v = htons (v % 65536) * 65536 + htons (v / 65536)

-- `memcpy` of the given bytes.
unfoldable pub store_bytes : Mem → ℕ → List ℕ → Mem
unfolding store8
store_bytes m a [] = m
store_bytes m a (x ∷ xs) = store_bytes (store8 m a x) (a + 1) xs

-- The `n` bytes from `a` on.
unfoldable pub load_bytes : Mem → ℕ → ℕ → List ℕ
load_bytes m a zero = []
load_bytes m a (suc n) = m a ∷ load_bytes m (a + 1) n

-- The bytes of an ASCII string literal, without the terminating zero.
abbrev pub codes : String → List ℕ
codes String.[] = []
codes (String.◌∷◌ c s) = code c ∷ codes s

-- `*p` of a null pointer is a fault.
pub data Run {ℓ} (A : Type ℓ) : Type ℓ where
  ok : A → Mem → Run A
  fault : Run A

abbrev pub Cmd {ℓ} : Type ℓ → Type ℓ
Cmd A = Mem → Run A

-- The command ends without a fault, with a result and a memory of which `P` holds.
abbrev pub Returns {ℓ} : {A : Type ℓ} → (A → Mem → Type 0) → Run A → Type 0
Returns P (ok a m) = P a m
Returns P fault = ⊥

abbrev pub pure {ℓ} : {A : Type ℓ} → A → Cmd A
pure = ok

module _ {ℓ κ} {A : Type ℓ} {B : Type κ} where
  abbrev pub and_then : Run A → (A → Cmd B) → Run B
  and_then (ok a m) k = k a m
  and_then fault k = fault

  infixl 5 ◌>>=◌
  abbrev pub ◌>>=◌ : Cmd A → (A → Cmd B) → Cmd B
  ◌>>=◌ c k m = and_then (c m) k

infixl 5 ◌>>◌
abbrev pub ◌>>◌ {ℓ} : {B : Type ℓ} → Cmd (Unit {0}) → Cmd B → Cmd B
c >> k = c >>= λ _. k

-- A read and a write of the whole memory.
abbrev pub get {ℓ} : {A : Type ℓ} → (Mem → A) → Cmd A
get f m = ok (f m) m

abbrev pub modify : (Mem → Mem) → Cmd (Unit {0})
modify f m = ok tt (f m)

-- `&(p->field)` for a field at the given offset.
abbrev pub arrow : Option ℕ → ℕ → Cmd ℕ
arrow none off m = fault
arrow (some p) off m = ok (p + off) m

-- `strcpy` of a literal.
abbrev pub strcpy : ℕ → String → Cmd (Unit {0})
strcpy a s = modify (λ m. store_bytes m a (codes s ++ 0 ∷ []))

abbrev pub memcpy : ℕ → List ℕ → Cmd (Unit {0})
memcpy a xs = modify (λ m. store_bytes m a xs)
