-- ===== src/History/Seek/Damage.antt =====
-- history_service.py: the resynchronisation of `_find_next_valid_chunk`.
use pika_pika.Prelude.{
  ℕ, zero, suc, ap, ◌∙◌, inl, inr, Bool-cases, ◌+◌, ◌-◌, ◌≤◌, ◌<◌, ◌≡◌, ◌≢◌, refl, true, false,
  Option, none, some, List, [], ◌∷◌, arith, length, Run, done, Returns, ltb, ltb→lt, Returns-weaken,
  leb, leb→le, sym, ◌==◌, get_or, Option-cases, length-take, length-drop, min, take, drop,
}
use pika_pika.Binary.{read}
use pika_pika.History.Format.{header_size, chunk_bytes}
use pika_pika.History.Seek.{
  first_nonzero, whole_chunk, resync_ok, Resync, nowhere, found, again, resync_at, resync_round,
  resync_loop, find_next_valid_chunk,
}

-- A place that the search stops at: a whole chunk there, and its first byte is not zero.
abbrev pub IsTarget : List ℕ → ℕ → Type 0
IsTarget f q = (whole_chunk f (length f) q ≡ true) × (get_or f q 0 ≢ 0)

-- The clause on the chunk's size excludes nothing.
resync_ok-eq-whole_chunk : (f : List ℕ) (size at : ℕ) → resync_ok f size at ≡ whole_chunk f size at
unfolding resync_ok chunk_bytes
resync_ok-eq-whole_chunk f size at = ground arith

whole_chunk-le : (f : List ℕ) (size at : ℕ) → whole_chunk f size at ≡ true → at + header_size < size
unfolding whole_chunk
whole_chunk-le f size at e = ground arith

-- The first byte that is not zero, and the zeros before it.
abbrev FirstNonzero : List ℕ → Option ℕ → Type 0
FirstNonzero bs none = (j : ℕ) → get_or bs j 0 ≡ 0
FirstNonzero bs (some i) =
    (i < length bs) × (get_or bs i 0 ≢ 0) × ((j : ℕ) → j < i → get_or bs j 0 ≡ 0)

zeros_cons :
    (b : ℕ) (bs : List ℕ) (P : ℕ → Type 0)
    → b ≡ 0
    → ((j : ℕ) → P (suc j) → get_or bs j 0 ≡ 0)
    → (j : ℕ) → P j
    → get_or (b ∷ bs) j 0 ≡ 0
zeros_cons b bs P e zeros zero p = e
zeros_cons b bs P e zeros (suc j) p = zeros j p

first_nonzero-FirstNonzero : (bs : List ℕ) → FirstNonzero bs (first_nonzero bs)
unfolding first_nonzero
first_nonzero-FirstNonzero [] = λ j. refl
first_nonzero-FirstNonzero (b ∷ bs) =
    let rest = first_nonzero-FirstNonzero bs in
    elim (Bool-cases (b == 0)) [
      | inr e ↦ rw e (omega arith, ground arith, λ j below. absurd (omega arith))
      | inl e ↦ elim (Option-cases (first_nonzero bs)) [
        | inl none_left ↦
            rw (e, none_left)
              (λ j.
                zeros_cons b bs (λ k. Unit {0}) (ground arith) (λ k u. (rw none_left at rest) k) j
                  tt)
        | inr (i, some_left) ↦
            let (below, nz, zeros) : FirstNonzero bs (some i) = rw some_left at rest in
            rw (e, some_left)
              (
                omega arith,
                nz,
                zeros_cons b bs (λ k. k < suc i) (ground arith) (λ k lt. zeros k (omega arith)),
              )
      ]
    ]

get_or-drop : (n j : ℕ) (xs : List ℕ) → get_or (drop n xs) j 0 ≡ get_or xs (n + j) 0
get_or-drop zero j xs = let e : j ≡ 0 + j = omega arith in ap (λ k. get_or xs k 0) e
get_or-drop (suc n) j [] = refl
get_or-drop (suc n) j (x ∷ xs) =
    let e : suc (n + j) ≡ suc n + j = omega arith in
    get_or-drop n j xs ∙ ap (λ k. get_or (x ∷ xs) k 0) e

get_or-take : (n j : ℕ) (xs : List ℕ) → j < n → get_or (take n xs) j 0 ≡ get_or xs j 0
get_or-take zero j xs h = absurd (omega arith)
get_or-take (suc n) j [] h = refl
get_or-take (suc n) zero (x ∷ xs) h = refl
get_or-take (suc n) (suc j) (x ∷ xs) h = get_or-take n j xs (omega arith)

get_or-read : (f : List ℕ) (at n j : ℕ) → j < n → get_or (read f at n) j 0 ≡ get_or f (at + j) 0
unfolding read
get_or-read f at n j h = get_or-take n j (drop at f) h ∙ get_or-drop at j f

get_or-read_sub :
    (f : List ℕ) (at n q : ℕ) → at ≤ q → q < at + n → get_or (read f at n) (q - at) 0 ≡ get_or f q 0
get_or-read_sub f at n q o lt =
    let e : at + (q - at) ≡ q = omega arith in
    get_or-read f at n (q - at) (omega arith) ∙ ap (λ k. get_or f k 0) e

length-read : (f : List ℕ) (at n : ℕ) → length (read f at n) ≡ min n (length f - at)
unfolding read
length-read f at n = length-take n (drop at f) ∙ ap (min n) (length-drop at f)

-- The search from `at` is right in its answer: the first target, or that there is none.
abbrev pub FirstTarget : List ℕ → ℕ → Option ℕ → Type 0
FirstTarget f at none = (q : ℕ) → at ≤ q → ¬ IsTarget f q
FirstTarget f at (some p) = (at ≤ p) × IsTarget f p × ((q : ℕ) → at ≤ q → q < p → ¬ IsTarget f q)

-- What one round tells.
abbrev RoundFinds : List ℕ → ℕ → Resync → Type 0
RoundFinds f at nowhere = FirstTarget f at none
RoundFinds f at (found p) = FirstTarget f at (some p)
RoundFinds f at (again next) = (at < next) × ((q : ℕ) → at ≤ q → q < next → ¬ IsTarget f q)

-- Where `at` holds the first byte that is not zero at or after `start`.
resync_at-RoundFinds :
    (f : List ℕ) (start at : ℕ)
    → start ≤ at
    → get_or f at 0 ≢ 0
    → ((q : ℕ) → start ≤ q → q < at → get_or f q 0 ≡ 0)
    → RoundFinds f start (resync_at f (length f) at)
unfolding resync_at
resync_at-RoundFinds f start at o nz zeros = ground (
  arith,
  length-read f at header_size,
  resync_ok-eq-whole_chunk f (length f) at,
  whole_chunk-le f (length f),
)

resync_round-RoundFinds :
    (f : List ℕ) (at : ℕ)
    → at + header_size ≤ length f
    → RoundFinds f at (resync_round f (length f) at)
unfolding resync_round
resync_round-RoundFinds f at h =
    let n = min 4096 (length f - at) in
    let probe = read f at n in
    let size = length-read f at n in
    let some_bytes : (length probe == 0) ≡ false = ground arith in
    let first = first_nonzero-FirstNonzero probe in
    elim (Option-cases (first_nonzero probe)) [
      | inl e ↦
          rw (some_bytes, e)
            (
              omega arith,
              λ q o lt t.
                  t.1 (sym (get_or-read_sub f at n q o (omega arith)) ∙ (rw e at first) (q - at)),
            )
      | inr (i, e) ↦
          let (below, nz, zeros) : FirstNonzero probe (some i) = rw e at first in
          rw (some_bytes, e)
            (resync_at-RoundFinds f at (at + i) (omega arith)
              (λ z. nz (get_or-read f at n i (omega arith) ∙ z))
              (λ q o lt.
                sym (get_or-read_sub f at n q o (omega arith)) ∙ zeros (q - at) (omega arith)))
    ]

FirstTarget-later :
    (f : List ℕ) (at next : ℕ)
    → at < next
    → ((q : ℕ) → at ≤ q → q < next → ¬ IsTarget f q)
    → (r : Option ℕ) → FirstTarget f next r
    → FirstTarget f at r
FirstTarget-later f at next later skipped none t = λ q o. elim (Bool-cases (ltb q next)) [
  | inl e ↦ skipped q o (ltb→lt q next e)
  | inr e ↦ t q (ground arith)
]
FirstTarget-later f at next later skipped (some p) (o, target, before) = (
  omega arith,
  target,
  λ q oq lt. elim (Bool-cases (ltb q next)) [
    | inl e ↦ skipped q oq (ltb→lt q next e)
    | inr e ↦ before q (ground arith) lt
  ],
)

-- One round and then the loop, which finds the first target from any later place.
resync_then :
    (f : List ℕ) (fuel at : ℕ)
    → length f - at < suc fuel
    → at < length f
    → (r : Resync) → RoundFinds f at r
    → ((next : ℕ)
        → length f - next < fuel
        → Returns (resync_loop f (length f) fuel next) (FirstTarget f next))
    → Returns
        (elim r as (λ s. Run (Option ℕ)) [
          | nowhere ↦ done none
          | found p ↦ done (some p)
          | again next ↦ resync_loop f (length f) fuel next
        ])
        (FirstTarget f at)
resync_then f fuel at m inside nowhere t ih = t
resync_then f fuel at m inside (found p) t ih = t
resync_then f fuel at m inside (again next) (later, skipped) ih =
    Returns-weaken (resync_loop f (length f) fuel next) (FirstTarget f next) (FirstTarget f at)
      (ih next (omega arith)) (FirstTarget-later f at next later skipped)

resync_loop-FirstTarget :
    (f : List ℕ) (fuel at : ℕ)
    → length f - at < fuel
    → Returns (resync_loop f (length f) fuel at) (FirstTarget f at)
unfolding resync_loop
resync_loop-FirstTarget f zero at m = absurd (omega arith)
resync_loop-FirstTarget f (suc fuel) at m = elim (Bool-cases (leb (at + header_size) (length f))) [
  | inr e ↦ rw e (λ q o t. let inside = whole_chunk-le f (length f) q t.0 in ground arith)
  | inl e ↦ rw e (
      resync_then f fuel at m (let le = leb→le _ _ e in omega arith) (resync_round f (length f) at)
        (resync_round-RoundFinds f at (leb→le _ _ e)) (resync_loop-FirstTarget f fuel))
]

-- `_find_next_valid_chunk` ends on every file. It returns the first position, from `start_pos` on,
-- where a plausible header stands whose first byte is not zero and whose payload lies in the file,
-- and `None` only if there is no such position.
pub find_next_valid_chunk-FirstTarget :
    (f : List ℕ) (start_pos : ℕ)
    → Returns (find_next_valid_chunk f (length f) start_pos) (FirstTarget f start_pos)
unfolding find_next_valid_chunk
find_next_valid_chunk-FirstTarget f start_pos =
    resync_loop-FirstTarget f (suc (length f)) start_pos (omega arith)
