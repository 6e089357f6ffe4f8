-- ===== src/Scope/Place.antt =====
-- shared_memory.py: the indices `head` and `start_idx` of `get_window`.
use pika_pika.Prelude.{ℕ, zero, suc, ◌+◌, ◌*◌, ◌-◌, ◌/◌, ◌%◌, ◌≤◌, ◌<◌, ◌≡◌, sym, ap, ◌∙◌, arith}
use native.Mathlib.Nat.{mod-lt, mod-eq_of_lt, add-mod_right, div-add-mod'}

pub wrapped : (cap q r : ℕ) → r < cap → (q * cap + r) % cap ≡ r
wrapped cap zero r h =
    let e : zero * cap + r ≡ r = omega arith in ap (λ k. k % cap) e ∙ mod-eq_of_lt h
wrapped cap (suc q) r h =
    let e : suc q * cap + r ≡ (q * cap + r) + cap = omega arith in
    ap (λ k. k % cap) e ∙ add-mod_right (q * cap + r) cap ∙ wrapped cap q r h

-- The place of the `j`-th frame of the window in the ring, for a window that does not pass the
-- ring's end and for one that does.
abbrev pub start_of : ℕ → ℕ → ℕ → ℕ
start_of cap total req = (total % cap + cap - req) % cap

pub start-inside :
    (cap total req : ℕ)
    → req ≤ total % cap
    → 0 < cap
    → 0 < req
    → start_of cap total req ≡ total % cap - req
start-inside cap total req h c k =
    let head_lt = mod-lt total c in
    let e : total % cap + cap - req ≡ (total % cap - req) + cap = omega arith in
    ap (λ n. n % cap) e
    ∙ add-mod_right (total % cap - req) cap
    ∙ mod-eq_of_lt (omega (arith, head_lt))

pub start-around :
    (cap total req : ℕ)
    → total % cap < req
    → req ≤ cap
    → start_of cap total req ≡ total % cap + cap - req
start-around cap total req h k = mod-eq_of_lt (omega arith)

pub place-inside :
    (cap total req j : ℕ)
    → 0 < cap
    → req ≤ total % cap
    → j < req
    → (total - req + j) % cap ≡ total % cap - req + j
place-inside cap total req j c h k =
    let head_lt = mod-lt total c in
    let split = div-add-mod' total cap in
    let e : total - req + j ≡ total / cap * cap + (total % cap - req + j) = omega (arith, split) in
    ap (λ n. n % cap) e ∙ wrapped cap (total / cap) (total % cap - req + j) (omega (arith, head_lt))

pub place-after :
    (cap total req j : ℕ)
    → 0 < cap
    → total % cap < req
    → req ≤ total
    → req - total % cap ≤ j
    → j < req
    → (total - req + j) % cap ≡ j - (req - total % cap)
place-after cap total req j c h t k l =
    let head_lt = mod-lt total c in
    let split = div-add-mod' total cap in
    let e : total - req + j ≡ total / cap * cap + (j - (req - total % cap)) =
      omega (arith, split) in
    ap (λ n. n % cap) e
    ∙ wrapped cap (total / cap) (j - (req - total % cap)) (omega (arith, head_lt))

pub place-before :
    (cap total req j : ℕ)
    → 0 < cap
    → total % cap < req
    → req ≤ cap
    → req ≤ total
    → j < req - total % cap
    → (total - req + j) % cap ≡ total % cap + cap - req + j
place-before cap total req j c h o t k =
    let head_lt = mod-lt total c in
    let split = div-add-mod' total cap in
    let e : total - req + j + cap ≡ total / cap * cap + (total % cap + cap - req + j) =
      omega (arith, split) in
    sym (add-mod_right (total - req + j) cap)
    ∙ ap (λ n. n % cap) e
    ∙ wrapped cap (total / cap) (total % cap + cap - req + j) (omega (arith, head_lt))
