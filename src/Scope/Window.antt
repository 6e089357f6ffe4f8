-- ===== src/Scope/Window.antt =====
-- shared_memory.py: the slices of `get_window` against the stream of frames behind the ring.
use pika_pika.Prelude.{
  ℕ, zero, suc, ◌+◌, ◌*◌, ◌-◌, ◌%◌, ◌≤◌, ◌<◌, ◌≡◌, refl, sym, ap, ap₂, ◌∙◌, true, false, Bool-cases,
  inl, inr, List, [], ◌∷◌, ◌++◌, arith, length, length-append, length-take, length-drop, take, drop,
  get_or, All-drop, ltb, ltb→lt, map, if◌then◌else◌,
}
use native.Mathlib.Nat.{mul-sub, mod-lt}
use pika_pika.Prelude.Int.{ℤ, pos}
use pika_pika.Scope.{Shared, every, req_samples_of, raw_window}
use pika_pika.Scope.Frames.{
  flatten, AllOfLength, drop-flatten, take-flatten, flatten-append, get_or-take, get_or-drop,
  get_or-append_left, get_or-append_right, same_items,
}
use pika_pika.Scope.Place.{start-inside, start-around, place-inside, place-after, place-before}

-- The slots of the ring that the window takes.
abbrev slot_window : List (List ℤ) → ℕ → ℕ → ℕ → List (List ℤ)
slot_window slots cap total req =
    let head = total % cap in
    let start_idx = (head + cap - req) % cap in
    if ltb start_idx head
    then take (head - start_idx) (drop start_idx slots)
    else take (cap - start_idx) (drop start_idx slots) ++ take (head - 0) (drop 0 slots)

part-flatten :
    (c i stop : ℕ) (slots : List (List ℤ))
    → AllOfLength c slots
    → take (stop * c - i * c) (drop (i * c) (flatten slots))
      ≡ flatten (take (stop - i) (drop i slots))
part-flatten c i stop slots h =
    let e : stop * c - i * c ≡ (stop - i) * c = omega (arith, mul-sub c stop i) in
    rw (e, drop-flatten c i slots h)
      (take-flatten c (stop - i) (drop i slots) (All-drop (λ x. length x ≡ c) i slots h))

abbrev pub ring : ℕ → ℕ → ℕ → List (List ℤ) → Shared
ring c cap total slots = record {
  channels = c;
  capacity = cap;
  total_samples = total;
  samples = flatten slots;
}

raw_window-slots :
    (c cap total req : ℕ) (slots : List (List ℤ))
    → AllOfLength c slots
    → raw_window (ring c cap total slots) req ≡ flatten (slot_window slots cap total req)
unfolding raw_window
raw_window-slots c cap total req slots h =
    let head = total % cap in
    let start_idx = (head + cap - req) % cap in
    elim (Bool-cases (ltb start_idx head)) [
      | inl e ↦ rw e (part-flatten c start_idx head slots h)
      | inr e ↦ rw e (
          ap₂ ◌++◌ (part-flatten c start_idx cap slots h) (part-flatten c 0 head slots h)
          ∙ sym (
              flatten-append (take (cap - start_idx) (drop start_idx slots))
                (take (head - 0) (drop 0 slots))))
    ]

-- The ring holds the last frames of the stream, the `k`-th at the slot `k % cap`.
abbrev pub Holds : ℕ → List (List ℤ) → List (List ℤ) → Type 0
Holds cap slots frames =
    (k : ℕ)
    → k < length frames
    → length frames ≤ k + cap
    → get_or slots (k % cap) [] ≡ get_or frames k []

module _ (slots frames : List (List ℤ)) (cap req : ℕ) (ring_size : length slots ≡ cap)
    (some_req : 0 < req) (o : req ≤ cap) (t : req ≤ length frames)
    (holds : Holds cap slots frames) where
  -- A frame that a slot of the window holds.
  frame_at :
      (j i : ℕ)
      → j < req
      → (length frames - req + j) % cap ≡ i
      → get_or slots i [] ≡ get_or (drop (length frames - req) frames) j []
  frame_at j i h e =
      ap (λ n. get_or slots n []) (sym e)
      ∙ holds (length frames - req + j) (omega arith) (omega arith)
      ∙ sym (get_or-drop (length frames - req) j frames)

  part_at : (n s j : ℕ) → j < n → get_or (take n (drop s slots)) j [] ≡ get_or slots (s + j) []
  part_at n s j h = get_or-take n j (drop s slots) h ∙ get_or-drop s j slots

  length-part : (n s : ℕ) → n + s ≤ cap → length (take n (drop s slots)) ≡ n
  length-part n s h = omega (arith, length-take n (drop s slots), length-drop s slots, ring_size)

  window-inside :
      req ≤ length frames % cap
      → take req (drop (length frames % cap - req) slots) ≡ drop (length frames - req) frames
  window-inside h =
      let head_lt : length frames % cap < cap = mod-lt (length frames) (omega arith) in
      let size = length-part req (length frames % cap - req) (omega (arith, head_lt)) in
      same_items _ _ (omega (arith, size, length-drop (length frames - req) frames)) (λ j k.
        part_at req (length frames % cap - req) j (omega (arith, size))
        ∙ frame_at j (length frames % cap - req + j) (omega (arith, size))
            (place-inside cap (length frames) req j (omega arith) h (omega (arith, size))))

  window-around :
      length frames % cap < req
      → take (req - length frames % cap) (drop (length frames % cap + cap - req) slots)
          ++ take (length frames % cap) slots
        ≡ drop (length frames - req) frames
  window-around h =
      let head = length frames % cap in
      let start_idx = head + cap - req in
      let first = take (req - head) (drop start_idx slots) in
      let head_lt : head < cap = mod-lt (length frames) (omega arith) in
      let size : length first ≡ req - head =
        length-part (req - head) start_idx (omega (arith, head_lt)) in
      let size' : length (take head slots) ≡ head =
        omega (arith, length-take head slots, ring_size, head_lt) in
      let whole : length (first ++ take head slots) ≡ req =
        omega (arith, length-append first (take head slots), size, size') in
      same_items _ _ (omega (arith, whole, length-drop (length frames - req) frames)) (λ j k.
        elim (Bool-cases (ltb j (req - head))) [
          | inl e ↦
              let below = ltb→lt j (req - head) e in
              get_or-append_left j first (take head slots) (omega (arith, size, below))
              ∙ part_at (req - head) start_idx j below
              ∙ frame_at j (start_idx + j) (omega (arith, whole))
                  (place-before cap (length frames) req j (omega arith) h o t below)
          | inr e ↦
              let above : req - head ≤ j = ground arith in
              let place : j ≡ length first + (j - (req - head)) = omega (arith, size, above) in
              ap (λ n. get_or (first ++ take head slots) n []) place
              ∙ get_or-append_right (j - (req - head)) first (take head slots)
              ∙ get_or-take head (j - (req - head)) slots (omega (arith, whole, above))
              ∙ frame_at j (j - (req - head)) (omega (arith, whole)) (
                  place-after cap (length frames) req j (omega arith) h t above
                    (omega (arith, whole)))
        ])

  slot_window-frames : slot_window slots cap (length frames) req ≡ drop (length frames - req) frames
  slot_window-frames =
      let head = length frames % cap in
      let head_lt : head < cap = mod-lt (length frames) (omega arith) in
      elim (Bool-cases (ltb head req)) [
        | inr e ↦
            let h : req ≤ head = ground arith in
            let start_eq = start-inside cap (length frames) req h (omega arith) some_req in
            let before_head : ltb (head - req) head ≡ true = ground arith in
            let count : head - (head - req) ≡ req = omega arith in
            rw (start_eq, before_head, count) (window-inside h)
        | inl e ↦
            let h = ltb→lt head req e in
            let start_eq = start-around cap (length frames) req h o in
            let around : ltb (head + cap - req) head ≡ false = ground arith in
            let count : cap - (head + cap - req) ≡ req - head = omega (arith, h, o) in
            let count' : head - 0 ≡ head = omega arith in
            rw (start_eq, around, count, count') (window-around h)
      ]

-- One sample of each frame.
every-skip :
    (step m k : ℕ) (x ys : List ℤ) → m ≡ length x + k → every m step (x ++ ys) ≡ every k step ys
unfolding every
every-skip step m k [] ys e = let same : m ≡ k = omega arith in ap (λ n. every n step ys) same
every-skip step zero k (a ∷ x) ys e = absurd (omega arith)
every-skip step (suc m) k (a ∷ x) ys e = every-skip step m k x ys (omega arith)

every-append :
    (skip step k : ℕ) (x ys : List ℤ)
    → skip < length x
    → 0 < step
    → step + skip ≡ length x + k
    → every skip step (x ++ ys) ≡ get_or x skip (pos 0) ∷ every k step ys
unfolding every
every-append skip step k [] ys h s e = absurd (omega arith)
every-append zero step k (a ∷ x) ys h s e =
    ap (◌∷◌ a) (every-skip step (step - 1) k x ys (omega arith))
every-append (suc skip) step k (a ∷ x) ys h s e =
    every-append skip step k x ys (omega arith) s (omega arith)

abbrev pub channel_of : ℕ → List ℤ → ℤ
channel_of channel x = get_or x channel (pos 0)

every-flatten :
    (c channel : ℕ) (xs : List (List ℤ))
    → channel < c
    → AllOfLength c xs
    → every channel c (flatten xs) ≡ map (channel_of channel) xs
unfolding every
every-flatten c channel [] h all = refl
every-flatten c channel (x ∷ xs) h (e, all) =
    every-append channel c channel x (flatten xs) (omega arith) (omega arith) (omega arith)
    ∙ ap (◌∷◌ (channel_of channel x)) (every-flatten c channel xs h all)

-- Take a ring of `cap` frames, each with one sample for each of `c` channels, that holds the last
-- frames of a stream, and a channel below `c`. The samples that `get_window` extracts for a positive
-- request are that channel of the last frames of the stream, in their order: as many as requested,
-- as the ring holds, or as have arrived, whichever is least.
pub raw_window-last :
    (slots frames : List (List ℤ)) (c cap channel : ℕ) (requested : ℤ)
    → channel < c
    → AllOfLength c slots
    → AllOfLength c frames
    → length slots ≡ cap
    → Holds cap slots frames
    → let shm = ring c cap (length frames) slots in
      let req = req_samples_of shm requested in
      0 < req
      → every channel c (raw_window shm req)
        ≡ map (channel_of channel) (drop (length frames - req) frames)
unfolding req_samples_of
raw_window-last slots frames c cap channel requested h all all' size holds some_req =
    let shm = ring c cap (length frames) slots in
    let req = req_samples_of shm requested in
    ap (every channel c) (
      raw_window-slots c cap (length frames) req slots all
      ∙ ap flatten
          (slot_window-frames slots frames cap req size some_req (omega arith) (omega arith) holds))
    ∙ every-flatten c channel (drop (length frames - req) frames) h
        (All-drop (λ x. length x ≡ c) (length frames - req) frames all')
