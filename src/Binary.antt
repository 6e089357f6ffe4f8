-- ===== src/Binary.antt =====
-- A data file's bytes, read at an offset, and the standard `struct` codes `Q`, `I`, `h` under `<`.
pub mod Encode
use pika_pika.Prelude.{
  ℕ, zero, suc, ◌+◌, ◌-◌, ◌*◌, ◌≡◌, List, [], ◌∷◌, arith, ltb, if◌then◌else◌, take, drop, length,
}
use pika_pika.Prelude.Int.{ℤ, pos, negsuc}

-- `f.seek(at)` and `f.read(n)`: at the end of the file fewer bytes come back.
unfoldable pub read : List ℕ → ℕ → ℕ → List ℕ
read f at n = take n (drop at f)

-- An unsigned little-endian integer of as many bytes as the list has.
unfoldable pub unsigned : List ℕ → ℕ
unsigned [] = 0
unsigned (b ∷ bs) = b + 256 * unsigned bs

-- A bit pattern below 2 ^ 16 as an `int16_t`.
abbrev pub signed16 : ℕ → ℤ
signed16 w = if ltb w 0x8000 then pos w else negsuc (0xffff - w)

-- `struct.unpack("<{n}h", raw)` over `2 n` bytes.
unfoldable pub shorts : List ℕ → List ℤ
shorts (lo ∷ hi ∷ rest) = signed16 (lo + 256 * hi) ∷ shorts rest
shorts _ = []
