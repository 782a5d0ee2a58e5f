-- ===== src/Memory/Laws.antt =====
-- Loads after stores, and byte order.
use t4p4s_ma.Common.{
  ℕ, zero, suc, ◌+◌, ◌%◌, ◌^◌, ◌≤◌, ◌<◌, ◌≡◌, ◌≢◌, ◌⊎◌, inl, refl, ap, ap₂, ◌∙◌, arith, List, [],
  ◌∷◌, ◌++◌, length, take, suc_add,
}
use t4p4s_ma.Memory.{
  Mem, store8, load16, store16, load32, store32, htons, htonl, store_bytes, load_bytes,
}

-- Every byte of the memory is one.
abbrev pub IsBytes : Mem → Type 0
IsBytes m = (a : ℕ) → m a < 256

pub store8_self : (m : Mem) (a v : ℕ) → store8 m a v a ≡ v
unfolding store8
store8_self m a v = ground arith

store8_at : (m : Mem) (a v b : ℕ) → b ≡ a → store8 m a v b ≡ v
unfolding store8
store8_at m a v b h = ground arith

pub store8_ne : (m : Mem) (a v b : ℕ) → b ≢ a → store8 m a v b ≡ m b
unfolding store8
store8_ne m a v b h = ground arith

pub store16_ne : (m : Mem) (a v b : ℕ) → b ≢ a → b ≢ a + 1 → store16 m a v b ≡ m b
unfolding store16
store16_ne m a v b h k = ground arith

pub store32_ne : (m : Mem) (a v b : ℕ) → (b < a) ⊎ (a + 4 ≤ b) → store32 m a v b ≡ m b
unfolding store32
store32_ne m a v b h = ground arith

pub load16-store16 : (m : Mem) (a v : ℕ) → load16 (store16 m a v) a ≡ v % 65536
unfolding load16 store16
load16-store16 m a v = ground arith

pub load32-store32 : (m : Mem) (a v : ℕ) → load32 (store32 m a v) a ≡ v % 2 ^ 32
unfolding load32 store32
load32-store32 m a v = ground arith

pub load16-lt : (m : Mem) (a : ℕ) → IsBytes m → load16 m a < 65536
unfolding load16
load16-lt m a h = omega (arith, h a, h (a + 1))

pub load32-lt : (m : Mem) (a : ℕ) → IsBytes m → load32 m a < 2 ^ 32
unfolding load32
load32-lt m a h = omega (arith, h a, h (a + 1), h (a + 2), h (a + 3))

-- Converting the byte order twice gives the value back.
pub htons-htons : (v : ℕ) → v < 65536 → htons (htons v) ≡ v
unfolding htons
htons-htons v h = omega arith

pub htons-lt : (v : ℕ) → htons v < 65536
unfolding htons
htons-lt v = omega arith

pub htonl-htonl : (v : ℕ) → v < 2 ^ 32 → htonl (htonl v) ≡ v
unfolding htonl
htonl-htonl v h = omega arith

pub htonl-lt : (v : ℕ) → htonl v < 2 ^ 32
unfolding htonl
htonl-lt v = omega arith

pub store_bytes_ne :
    (m : Mem) (a : ℕ) (xs : List ℕ) (b : ℕ)
    → (b < a) ⊎ (a + length xs ≤ b)
    → store_bytes m a xs b ≡ m b
unfolding store_bytes
store_bytes_ne m a [] b h = refl
store_bytes_ne m a (x ∷ xs) b h = ground (arith, store_bytes_ne (store8 m a x) (a + 1) xs b)

pub load_bytes-store_bytes :
    (m : Mem) (a : ℕ) (xs : List ℕ) → load_bytes (store_bytes m a xs) a (length xs) ≡ xs
unfolding store_bytes load_bytes
load_bytes-store_bytes m a [] = refl
load_bytes-store_bytes m a (x ∷ xs) =
    ap₂ ◌∷◌ (store_bytes_ne (store8 m a x) (a + 1) xs a (inl (omega arith)) ∙ store8_self m a x)
      (load_bytes-store_bytes (store8 m a x) (a + 1) xs)

pub store_bytes-append :
    (m : Mem) (a : ℕ) (xs ys : List ℕ)
    → store_bytes m a (xs ++ ys) ≡ store_bytes (store_bytes m a xs) (a + length xs) ys
unfolding store_bytes
store_bytes-append m a [] ys = ap (λ i. store_bytes m i ys) (omega arith)
store_bytes-append m a (x ∷ xs) ys =
    store_bytes-append (store8 m a x) (a + 1) xs ys
    ∙ ap (λ i. store_bytes (store_bytes (store8 m a x) (a + 1) xs) i ys) (omega arith)

pub length-load_bytes : (m : Mem) (a n : ℕ) → length (load_bytes m a n) ≡ n
unfolding load_bytes
length-load_bytes m a zero = refl
length-load_bytes m a (suc n) = ap suc (length-load_bytes m (a + 1) n)

pub load_bytes-add :
    (m : Mem) (a n k : ℕ) → load_bytes m a (n + k) ≡ load_bytes m a n ++ load_bytes m (a + n) k
unfolding load_bytes
load_bytes-add m a zero k = ap₂ (load_bytes m) (omega arith) (omega arith)
load_bytes-add m a (suc n) k =
    ap (load_bytes m a) (suc_add n k)
    ∙ ap (◌∷◌ (m a)) (
        load_bytes-add m (a + 1) n k
        ∙ ap (λ i. load_bytes m (a + 1) n ++ load_bytes m i k) (omega arith))

pub take-load_bytes : (m : Mem) (a q n : ℕ) → q ≤ n → take q (load_bytes m a n) ≡ load_bytes m a q
unfolding load_bytes
take-load_bytes m a zero n h = refl
take-load_bytes m a (suc q) zero h = absurd (omega arith)
take-load_bytes m a (suc q) (suc n) h = ap (◌∷◌ (m a)) (take-load_bytes m (a + 1) q n (omega arith))

-- What `memcpy` of a stretch of one memory leaves in another.
pub store_bytes-load_bytes :
    (m g : Mem) (a b n i : ℕ) → i < n → store_bytes m a (load_bytes g b n) (a + i) ≡ g (b + i)
unfolding store_bytes load_bytes
store_bytes-load_bytes m g a b zero i h = absurd (omega arith)
store_bytes-load_bytes m g a b (suc n) zero h =
    store_bytes_ne (store8 m a (g b)) (a + 1) (load_bytes g (b + 1) n) (a + 0) (inl (omega arith))
    ∙ store8_at m a (g b) (a + 0) (omega arith)
    ∙ ap g (omega arith)
store_bytes-load_bytes m g a b (suc n) (suc i) h =
    ap (store_bytes (store8 m a (g b)) (a + 1) (load_bytes g (b + 1) n)) (omega arith)
    ∙ store_bytes-load_bytes (store8 m a (g b)) g (a + 1) (b + 1) n i (omega arith)
    ∙ ap g (omega arith)

pub load_bytes_congr :
    (m g : Mem) (a b n : ℕ)
    → ((i : ℕ) → i < n → m (a + i) ≡ g (b + i))
    → load_bytes m a n ≡ load_bytes g b n
unfolding load_bytes
load_bytes_congr m g a b zero h = refl
load_bytes_congr m g a b (suc n) h =
    ap₂ ◌∷◌ (ap m (omega arith) ∙ h 0 (omega arith) ∙ ap g (omega arith)) (
      load_bytes_congr m g (a + 1) (b + 1) n
        (λ i lt. ap m (omega arith) ∙ h (suc i) (omega arith) ∙ ap g (omega arith)))
