-- ===== src/History/Seek/Bisect.antt =====
-- history_service.py: the binary search of `_seek_chunk_at_or_before`.
use pika_pika.Prelude.{
  ℕ, zero, suc, ◌+◌, ◌*◌, ◌-◌, ◌/◌, ◌≤◌, ◌<◌, ◌≡◌, refl, Option, none, some, List, arith, length,
  Returns, Returns-bind, ltb, Bool-cases, inl, inr, ◌%◌,
}
use pika_pika.Prelude.Int.{ℤ, pos, ◌≤ℤ◌, ◌<ℤ◌}
use pika_pika.History.Format.{typical_iec_chunk_bytes, chunk_end}
use pika_pika.History.Seek.{
  header_at, ends_before, reaches, look, bisect_loop, bisect_result, seek_chunk_at_or_before,
}

-- The time of the last interval of the `i`-th chunk of 84 bytes.
abbrev pub end_of : List ℕ → ℕ → ℤ
end_of f i = pos (chunk_end (header_at f (i * typical_iec_chunk_bytes)))

look-ends_before :
    (f : List ℕ) (start_ns : ℤ) (i : ℕ) → look f start_ns i ≡ ends_before → end_of f i <ℤ start_ns
unfolding look
look-ends_before f start_ns i e = ground arith

look-reaches :
    (f : List ℕ) (start_ns : ℤ) (i : ℕ) → look f start_ns i ≡ reaches → start_ns ≤ℤ end_of f i
unfolding look
look-reaches f start_ns i e = ground arith

-- What the bisection of chunks below `n` ends with: the chunk before `lo` ends before the window,
-- and the chunk at `lo` reaches it.
abbrev pub Splits : List ℕ → ℤ → ℕ → Option ℕ → Type 0
Splits f start_ns n none = Unit {0}
Splits f start_ns n (some lo) =
    (lo ≤ n) × (0 < lo → end_of f (lo - 1) <ℤ start_ns) × (lo < n → start_ns ≤ℤ end_of f lo)

pub bisect_loop-Splits :
    (f : List ℕ) (start_ns : ℤ) (n fuel lo hi : ℕ)
    → hi - lo < fuel
    → lo ≤ hi
    → hi ≤ n
    → (0 < lo → end_of f (lo - 1) <ℤ start_ns)
    → (hi < n → start_ns ≤ℤ end_of f hi)
    → Returns (bisect_loop f start_ns fuel lo hi) (Splits f start_ns n)
unfolding bisect_loop
bisect_loop-Splits f start_ns n zero lo hi m o b p q = absurd (omega arith)
bisect_loop-Splits f start_ns n (suc fuel) lo hi m o b p q =
    let mid = (lo + hi) / 2 in
    ground (
      arith,
      look-ends_before f start_ns mid,
      look-reaches f start_ns mid,
      bisect_loop-Splits f start_ns n fuel (mid + 1) hi,
      bisect_loop-Splits f start_ns n fuel lo mid,
    )

-- The chunks of the file stand in the order of their times.
abbrev pub InOrder : List ℕ → ℕ → Type 0
InOrder f n = (i j : ℕ) → i ≤ j → j < n → end_of f i ≤ℤ end_of f j

-- A place to start from: a chunk boundary in the file, and every chunk before it ends before the
-- window.
abbrev pub IsStart : List ℕ → ℤ → ℕ → Type 0
IsStart f start_ns p =
    (p % typical_iec_chunk_bytes ≡ 0)
    × (p ≤ length f)
    × ((i : ℕ) → i * typical_iec_chunk_bytes < p → end_of f i <ℤ start_ns)

bisect_result-IsStart :
    (f : List ℕ) (start_ns : ℤ) (lo : Option ℕ)
    → InOrder f (length f / typical_iec_chunk_bytes)
    → Splits f start_ns (length f / typical_iec_chunk_bytes) lo
    → IsStart f start_ns (bisect_result lo)
bisect_result-IsStart f start_ns none order s = (refl, omega arith, λ i lt. absurd (omega arith))
bisect_result-IsStart f start_ns (some lo) order (inside, before, after) = (
  omega arith,
  omega arith,
  λ i lt. omega (arith, before (omega arith), order i (lo - 1) (omega arith) (omega arith)),
)

-- On a file of 84-byte chunks in the order of their times, `_seek_chunk_at_or_before` ends, at a
-- chunk boundary in the file, and no chunk before it reaches the window.
pub seek_chunk_at_or_before-IsStart :
    (f : List ℕ) (start_ns : ℤ)
    → length f % typical_iec_chunk_bytes ≡ 0
    → InOrder f (length f / typical_iec_chunk_bytes)
    → Returns (seek_chunk_at_or_before f (length f) start_ns) (IsStart f start_ns)
unfolding seek_chunk_at_or_before
seek_chunk_at_or_before-IsStart f start_ns aligned order =
    elim (Bool-cases (ltb (length f) typical_iec_chunk_bytes)) [
      | inl e ↦ rw e (refl, omega arith, λ i lt. absurd (omega arith))
      | inr e ↦
          rw (e, aligned)
            (Returns-bind (bisect_loop f start_ns (suc n) 0 n) _ (Splits f start_ns n)
              (IsStart f start_ns)
              (bisect_loop-Splits f start_ns n (suc n) 0 n (omega arith) (omega arith) (omega arith)
                (λ lt. absurd (omega arith)) (λ lt. absurd (omega arith)))
              (λ lo s. bisect_result-IsStart f start_ns lo order s))
    ]
  where
    n : ℕ
    n = length f / typical_iec_chunk_bytes
