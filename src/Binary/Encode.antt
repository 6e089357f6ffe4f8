-- ===== src/Binary/Encode.antt =====
-- The writer's side of the `struct` codes, and their round trips.
use pika_pika.Prelude.{
  ℕ, zero, suc, ◌-◌, ◌*◌, ◌/◌, ◌%◌, ◌^◌, ◌<◌, ◌≡◌, refl, ap, ap₂, ◌∙◌, List, [], ◌∷◌, ◌++◌, arith,
  length, All, take, take-append, drop-append,
}
use pika_pika.Prelude.Int.{ℤ, pos, negsuc}
use pika_pika.Binary.{read, unsigned, shorts}

-- The `n` low bytes of a number, lowest first.
unfoldable pub le_bytes : ℕ → ℕ → List ℕ
le_bytes zero v = []
le_bytes (suc n) v = v % 256 ∷ le_bytes n (v / 256)

abbrev pub pattern16 : ℤ → ℕ
pattern16 (pos n) = n
pattern16 (negsuc n) = 0xffff - n

abbrev pub Fits16 : ℤ → Type 0
Fits16 (pos n) = n < 0x8000
Fits16 (negsuc n) = n < 0x8000

unfoldable pub short_bytes : List ℤ → List ℕ
unfolding le_bytes
short_bytes [] = []
short_bytes (z ∷ zs) = le_bytes 2 (pattern16 z) ++ short_bytes zs

pub length-le_bytes : (n v : ℕ) → length (le_bytes n v) ≡ n
unfolding le_bytes
length-le_bytes zero v = refl
length-le_bytes (suc n) v = ap suc (length-le_bytes n (v / 256))

pub length-short_bytes : (zs : List ℤ) → length (short_bytes zs) ≡ length zs * 2
unfolding short_bytes
length-short_bytes [] = refl
length-short_bytes (z ∷ zs) = omega (arith, length-short_bytes zs)

pub unsigned-le_bytes : (n v : ℕ) → v < 256 ^ n → unsigned (le_bytes n v) ≡ v
unfolding unsigned le_bytes
unsigned-le_bytes zero v h = omega arith
unsigned-le_bytes (suc n) v h = omega (arith, unsigned-le_bytes n (v / 256))

pub shorts-short_bytes : (zs : List ℤ) → All Fits16 zs → shorts (short_bytes zs) ≡ zs
unfolding shorts short_bytes
shorts-short_bytes [] h = refl
shorts-short_bytes (z ∷ zs) (h, hs) = ap₂ ◌∷◌ (ground arith) (shorts-short_bytes zs hs)

-- What stands in a file behind `at` other bytes is read back from there.
pub read-append :
    (before item rest : List ℕ) (at n : ℕ)
    → at ≡ length before
    → n ≡ length item
    → read (before ++ (item ++ rest)) at n ≡ item
unfolding read
read-append before item rest at n p q =
    ap (take n) (drop-append at before (item ++ rest) p) ∙ take-append n item rest q
