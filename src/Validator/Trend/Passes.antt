-- ===== src/Validator/Trend/Passes.antt =====
-- validate_data.py: `validate_decimated` on a trend file that the datalogger wrote.
use pika_pika.Prelude.{
  ℕ, zero, suc, ◌+◌, ◌*◌, ◌≤◌, ◌<◌, ◌≡◌, ◌↔◌, refl, sym, ap, ◌∙◌, Bool, true, false, ◌||◌, some,
  List, [], ◌∷◌, ◌++◌, append_assoc, arith, ltb, leb, ◌==◌, length, length-append, All, take,
  drop-append, done,
}
use pika_pika.Binary.{read}
use pika_pika.History.Format.{header_size, Header, valid_header, total_values}
use pika_pika.History.Written.{
  Chunk, IsSound, written, chunk_file, length-chunk_file, header_at-written, payload-written,
  length-payload-written, length-header-written,
}
use pika_pika.Validator.{
  outside_epoch, when, is_nil, is_nil-append, append-is_nil, when-nil, nil-when,
}
use pika_pika.Validator.Trend.Envelope.{IsEnveloped, minmax-zero}
use pika_pika.Validator.Trend.{
  Problem, outside_epoch_range, time_not_increasing, min_above_max, header_problems, chunks_loop,
  order_problems, minmax_errors, trend_verdict, validate_decimated,
}

-- A plausible header can only be outside the years from 2020 to 2100.
header_problems-plausible :
    (i : ℕ) (h : Header)
    → valid_header h ≡ true
    → header_problems i h ≡ when (outside_epoch h.ts) (outside_epoch_range i) ++ []
unfolding header_problems valid_header when
header_problems-plausible i h v =
    let a : ((h.rate == 0) || ltb 10_000_000 h.rate) ≡ false = ground (arith, v) in
    let b : ((h.count == 0) || ltb 100_000 h.count) ≡ false = ground (arith, v) in
    let c : ((h.channels == 0) || ltb 32 h.channels) ≡ false = ground (arith, v) in
    let d : ((h.vps == 0) || ltb 10 h.vps) ≡ false = ground (arith, v) in rw (a, b, c, d) refl

-- The messages on the headers.
abbrev epochs : ℕ → List Chunk → List Problem
epochs i [] = []
epochs i (c ∷ cs) =
    (when (outside_epoch c.header.ts) (outside_epoch_range i) ++ []) ++ epochs (suc i) cs

-- The payload can be read at once.
abbrev pub IsReadable : ℕ → Chunk → Type 0
IsReadable limit c = total_values c.header * 2 ≤ limit

chunks_loop-written :
    (limit : ℕ) (before : List ℕ) (cs : List Chunk) (fuel i at : ℕ)
    → All IsSound cs
    → All (IsReadable limit) cs
    → length cs < fuel
    → at ≡ length before
    → chunks_loop limit (before ++ written cs) fuel i at
      ≡ done (some (record { chunks = cs; problems = epochs i cs }))
unfolding chunks_loop written read
chunks_loop-written limit before [] zero i at sound room h e = absurd (omega arith)
chunks_loop-written limit before [] (suc fuel) i at sound room h e =
    let nothing : read (before ++ []) at 24 ≡ [] = ap (take 24) (drop-append at before [] e) in
    rw nothing refl
chunks_loop-written limit before (c ∷ cs) zero i at sound room h e = absurd (omega arith)
chunks_loop-written limit before (c ∷ cs) (suc fuel) i at (s, sounds) (room, rooms) h e =
    let f = before ++ (chunk_file c ++ written cs) in
    let next = length before + (header_size + total_values c.header * 2) in
    let later : chunks_loop limit f fuel (suc i) next
        ≡ done (some (record { chunks = cs; problems = epochs (suc i) cs })) =
      ap (λ t. chunks_loop limit t fuel (suc i) next)
        (sym (append_assoc before (chunk_file c) (written cs)))
      ∙ chunks_loop-written limit (before ++ chunk_file c) cs fuel (suc i) next sounds rooms
          (omega arith)
          (omega (arith, length-append before (chunk_file c), length-chunk_file c s)) in
    let enough : ltb (total_values c.header * 2) (total_values c.header * 2) ≡ false =
      ground arith in
    let fits : ltb limit (total_values c.header * 2) ≡ false = ground arith in
    ap (chunks_loop limit f (suc fuel) i) e
    ∙ rw
        (
          length-header-written before (written cs) c s,
          header_at-written before (written cs) c s,
          fits,
          length-payload-written before (written cs) c s,
          enough,
          payload-written before (written cs) c s,
          header_problems-plausible i c.header s.plausible,
          later,
        )
        refl

-- A file has at least one byte for each chunk.
length-written_ge : (cs : List Chunk) → All IsSound cs → length cs ≤ length (written cs)
unfolding written
length-written_ge [] s = omega arith
length-written_ge (c ∷ cs) (s, ss) = omega (
  arith,
  length-append (chunk_file c) (written cs),
  length-chunk_file c s,
  length-written_ge cs ss,
)

abbrev pub InEpoch : Chunk → Type 0
InEpoch c = (1_577_836_800_000_000_000 ≤ c.header.ts) × (c.header.ts ≤ 4_102_444_800_000_000_000)

-- Each time is after the one before it.
abbrev pub RisesFrom : ℕ → List Chunk → Type 0
RisesFrom prev [] = Unit
RisesFrom prev (c ∷ cs) = (prev < c.header.ts) × RisesFrom c.header.ts cs

epochs-nil : (i : ℕ) (cs : List Chunk) → (is_nil (epochs i cs) ≡ true) ↔ All InEpoch cs
epochs-nil i [] = (λ h. tt, λ h. refl)
epochs-nil i (c ∷ cs) =
    let w : List Problem = when (outside_epoch c.header.ts) (outside_epoch_range i) in
    let later = epochs-nil (suc i) cs in
    (
      λ h.
          let (a, b) = is_nil-append (w ++ []) (epochs (suc i) cs) h in
          let (a', u) = is_nil-append w [] a in
          let inside = when-nil (outside_epoch c.header.ts) _ a' in
          ((ground arith, ground arith), later.0 b),
      λ (k, ks).
          let inside : outside_epoch c.header.ts ≡ false = ground arith in
          append-is_nil (w ++ []) (epochs (suc i) cs)
            (append-is_nil w [] (nil-when (outside_epoch c.header.ts) _ inside) refl) (later.1 ks),
    )

order-nil :
    (i prev : ℕ) (cs : List Chunk) → (is_nil (order_problems i prev cs) ≡ true) ↔ RisesFrom prev cs
unfolding order_problems
order-nil i prev [] = (λ h. tt, λ h. refl)
order-nil i prev (c ∷ cs) =
    let w : List Problem = when (leb c.header.ts prev) (time_not_increasing i) in
    let later = order-nil (suc i) c.header.ts cs in
    (
      λ h.
          let (a, b) = is_nil-append w (order_problems (suc i) c.header.ts cs) h in
          let above = when-nil (leb c.header.ts prev) _ a in (ground arith, later.0 b),
      λ (k, ks).
          let above : leb c.header.ts prev ≡ false = ground arith in
          append-is_nil w (order_problems (suc i) c.header.ts cs)
            (nil-when (leb c.header.ts prev) _ above) (later.1 ks),
    )

verdict_iff :
    (c : Chunk) (cs : List Chunk)
    → All IsSound (c ∷ cs)
    → (trend_verdict (record { chunks = c ∷ cs; problems = epochs 0 (c ∷ cs) }) ≡ true)
      ↔ (All InEpoch (c ∷ cs) × RisesFrom c.header.ts cs × All IsEnveloped (c ∷ cs))
unfolding trend_verdict
verdict_iff c cs sound =
    let errors = minmax_errors (c ∷ cs) in
    let o = order_problems 1 c.header.ts cs in
    let w : List Problem = when (ltb 0 errors) (min_above_max errors) in
    (
      λ h.
          let (a, b) = is_nil-append (epochs 0 (c ∷ cs)) (o ++ w) h in
          let (d, e) = is_nil-append o w b in
          let good = when-nil (ltb 0 errors) _ e in
          (
            (epochs-nil 0 (c ∷ cs)).0 a,
            (order-nil 1 c.header.ts cs).0 d,
            (minmax-zero (c ∷ cs) sound).0 (ground arith),
          ),
      λ (a, b, d).
          let good = (minmax-zero (c ∷ cs) sound).1 d in
          let e : ltb 0 errors ≡ false = ground arith in
          append-is_nil (epochs 0 (c ∷ cs)) (o ++ w) ((epochs-nil 0 (c ∷ cs)).1 a)
            (append-is_nil o w ((order-nil 1 c.header.ts cs).1 b) (nil-when (ltb 0 errors) _ e)),
    )

-- A trend file of chunks with plausible headers and complete payloads, each small enough to be read at
-- once, passes `validate_decimated` exactly if each chunk's time lies in the years from 2020 to 2100,
-- each is after the one before, and no minimum is above its maximum in a chunk with two values for
-- each interval (minimum, maximum) or with three (average, minimum, maximum).
pub validate_decimated-written :
    (limit : ℕ) (c : Chunk) (cs : List Chunk)
    → All IsSound (c ∷ cs)
    → All (IsReadable limit) (c ∷ cs)
    → (validate_decimated limit (some (written (c ∷ cs))) ≡ done (some true))
      ↔ (All InEpoch (c ∷ cs) × RisesFrom c.header.ts cs × All IsEnveloped (c ∷ cs))
unfolding validate_decimated
validate_decimated-written limit c cs sound room =
    let f = written (c ∷ cs) in
    let v = trend_verdict (record { chunks = c ∷ cs; problems = epochs 0 (c ∷ cs) }) in
    let size : length cs < length f = (let all = length-written_ge (c ∷ cs) sound in omega arith) in
    let some_bytes : length f == 0 ≡ false = ground arith in
    let loop =
      chunks_loop-written limit [] (c ∷ cs) (suc (length f)) 0 0 sound room (omega arith) refl in
    let run : validate_decimated limit (some f) ≡ done (some v) = rw (some_bytes, loop) refl in
    (
      λ h. (verdict_iff c cs sound).0 (done-eq v true (sym run ∙ h)),
      λ h. run ∙ ap (λ b. done (some b)) ((verdict_iff c cs sound).1 h),
    )
  where
    done-eq : (a b : Bool) → done (some a) ≡ done (some b) → a ≡ b
    done-eq a b h = cc
