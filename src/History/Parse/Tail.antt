-- ===== src/History/Parse/Tail.antt =====
-- history_service.py: `_read_tail_intervals` on the files that the datalogger writes.
use pika_pika.Prelude.{
  ℕ, zero, suc, ◌+◌, ◌*◌, ◌-◌, ◌/◌, ◌%◌, ◌≤◌, ◌<◌, ◌≡◌, ◌⊎◌, inl, inr, refl, sym, ap, subst, ◌∙◌,
  true, not, Option, List, [], ◌∷◌, ◌++◌, append_assoc, arith, length, length-append, length-drop,
  length-take, take, drop, take-append-drop, All, All-take, All-drop, done, ltb, ltb→lt, Bool-cases,
}
use pika_pika.Float.{Float}
use pika_pika.History.Format.{Layout, legacy, typical_chunk_intervals, typical_iec_chunk_bytes}
use pika_pika.History.Parse.{
  Parsed, Walked, walked, is_empty, has_rows, needed_bytes, parse_from, read_tail_intervals,
}
use pika_pika.History.Rows.{
  keep_last, keep_last-append_right, chunk_intervals, length-intervals_from,
}
use pika_pika.History.Written.{Chunk, chunk_file, written, IsSound, length-chunk_file}
use pika_pika.History.Parse.Agree.{is_empty-map, is_empty-keep_last, is_empty_of_pos}
use pika_pika.History.Parse.Written.{
  intervals, last_rate, last_layout, tail_view, parse_from-written,
}

-- The chunks that the datalogger flushes: ten IEC intervals of one channel.
pub record IsTypical (c : Chunk) : Type 0 where
  pub sound : IsSound c
  pub ten : c.header.count ≡ 10
  pub one_channel : c.header.channels ≡ 1
  pub iec : c.header.vps ≡ 3

pub All-IsSound : (cs : List Chunk) → All IsTypical cs → All IsSound cs
All-IsSound [] t = tt
All-IsSound (c ∷ cs) (t, ts) = (t.sound, All-IsSound cs ts)

pub written-append : (xs ys : List Chunk) → written (xs ++ ys) ≡ written xs ++ written ys
unfolding written
written-append [] ys = refl
written-append (x ∷ xs) ys =
    ap (◌++◌ (chunk_file x)) (written-append xs ys)
    ∙ sym (append_assoc (chunk_file x) (written xs) (written ys))

pub typical_bytes : (c : Chunk) → IsTypical c → length (chunk_file c) ≡ typical_iec_chunk_bytes
typical_bytes c t = length-chunk_file c t.sound ∙ rw (t.ten, t.one_channel, t.iec)

pub length-written_typical :
    (cs : List Chunk) → All IsTypical cs → length (written cs) ≡ length cs * typical_iec_chunk_bytes
unfolding written
length-written_typical [] t = refl
length-written_typical (c ∷ cs) (t, ts) = omega (
  arith,
  length-append (chunk_file c) (written cs),
  typical_bytes c t,
  length-written_typical cs ts,
)

last_rate-drop :
    (n r s : ℕ) (cs : List Chunk) → n < length cs → last_rate r (drop n cs) ≡ last_rate s cs
unfolding last_rate
last_rate-drop n r s [] h = absurd (omega arith)
last_rate-drop zero r s (c ∷ cs) h = refl
last_rate-drop (suc n) r s (c ∷ cs) h = last_rate-drop n r c.header.rate cs (omega arith)

last_layout-drop :
    (n : ℕ) (k l : Layout) (cs : List Chunk)
    → n < length cs
    → last_layout k (drop n cs) ≡ last_layout l cs
unfolding last_layout
last_layout-drop n k l [] h = absurd (omega arith)
last_layout-drop zero k l (c ∷ cs) h = refl
last_layout-drop (suc n) k l (c ∷ cs) h = last_layout-drop n k _ cs (omega arith)

has_rows-walked : {W : Type 0} (w : Walked W) → has_rows (walked w) ≡ not (is_empty w.rows)
unfolding walked
has_rows-walked w = ground (arith, is_empty-map (λ r. r.vrms) w.rows)

module _ {W : Type 0} ⦃fl : Float W⦄ (scale : W) where
  -- Where the aligned read gives rows, they are what `_read_tail_intervals` returns.
  read_tail_intervals_aligned :
      (f : List ℕ) (size source_cap n : ℕ) {p : Option (Parsed W)}
      → size % typical_iec_chunk_bytes ≡ 0
      → size - needed_bytes source_cap ≡ n * typical_iec_chunk_bytes
      → parse_from scale f size (n * typical_iec_chunk_bytes) source_cap ≡ done p
      → has_rows p ≡ true
      → read_tail_intervals scale f size source_cap ≡ done p
  unfolding read_tail_intervals
  read_tail_intervals_aligned f size source_cap n aligned start parsed rows =
      let boundary : size
            - needed_bytes source_cap
            - (size - needed_bytes source_cap) % typical_iec_chunk_bytes
          ≡ n * typical_iec_chunk_bytes =
        omega arith in
      rw (aligned, boundary, parsed, rows)

  pub intervals-append :
      (xs ys : List Chunk) → intervals scale (xs ++ ys) ≡ intervals scale xs ++ intervals scale ys
  unfolding intervals
  intervals-append [] ys = refl
  intervals-append (x ∷ xs) ys =
      ap (◌++◌ (chunk_intervals scale x.header x.values)) (intervals-append xs ys)
      ∙ sym (
          append_assoc (chunk_intervals scale x.header x.values) (intervals scale xs)
            (intervals scale ys))

  pub length-intervals_typical :
      (cs : List Chunk) → All IsTypical cs → length (intervals scale cs) ≡ length cs * 10
  unfolding intervals chunk_intervals
  length-intervals_typical [] t = refl
  length-intervals_typical (c ∷ cs) (t, ts) = omega (
    arith,
    length-append (chunk_intervals scale c.header c.values) (intervals scale cs),
    length-intervals_from scale c.header c.values c.header.count 0,
    t.ten,
    length-intervals_typical cs ts,
  )

  keep_last-intervals :
      (k n : ℕ) (cs : List Chunk)
      → All IsTypical cs
      → k ≤ (length cs - n) * 10
      → keep_last k (intervals scale (drop n cs)) ≡ keep_last k (intervals scale cs)
  keep_last-intervals k n cs t h =
      let enough : k ≤ length (intervals scale (drop n cs)) = omega (
        arith,
        length-intervals_typical (drop n cs) (All-drop IsTypical n cs t),
        length-drop n cs,
      ) in
      sym (
        keep_last-append_right k (intervals scale (take n cs)) (intervals scale (drop n cs)) enough)
      ∙ ap (keep_last k) (
          sym (intervals-append (take n cs) (drop n cs))
          ∙ ap (intervals scale) (take-append-drop n cs))

  -- The view of an end of the file that is long enough, or of the whole file.
  tail_view-drop :
      (k n : ℕ) (cs : List Chunk)
      → All IsTypical cs
      → n < length cs
      → (n ≡ 0) ⊎ (k ≤ (length cs - n) * 10)
      → tail_view scale k (drop n cs) ≡ tail_view scale k cs
  tail_view-drop k n cs t h (inl e) = rw e
  tail_view-drop k n cs t h (inr enough) = rw (
    keep_last-intervals k n cs t enough,
    last_rate-drop n 0 0 cs h,
    last_layout-drop n legacy legacy cs h,
  )

  has_rows-tail_view :
      (k : ℕ) (cs : List Chunk)
      → All IsTypical cs
      → 0 < k
      → 0 < length cs
      → has_rows (tail_view scale k cs) ≡ true
  has_rows-tail_view k cs t h some_chunk =
      has_rows-walked _
      ∙ ap not (
          is_empty-keep_last k (intervals scale cs) h
          ∙ is_empty_of_pos (intervals scale cs) (omega (arith, length-intervals_typical cs t)))

  -- From the chunk at `n` on, `_parse_from` returns the view of the chunks behind it.
  parse_from-boundary :
      (k n : ℕ) (cs : List Chunk)
      → All IsTypical cs
      → 0 < k
      → n ≤ length cs
      → parse_from scale (written cs) (length (written cs)) (n * typical_iec_chunk_bytes) k
        ≡ done (tail_view scale k (drop n cs))
  parse_from-boundary k n cs t h fits =
      let front = take n cs in
      let split : written front ++ written (drop n cs) ≡ written cs =
        sym (written-append front (drop n cs)) ∙ ap written (take-append-drop n cs) in
      let front_bytes : length (written front) ≡ n * typical_iec_chunk_bytes =
        length-written_typical front (All-take IsTypical n cs t)
        ∙ ap (λ m. m * typical_iec_chunk_bytes) (omega (arith, length-take n cs)) in
      let here =
        parse_from-written scale (written front) (drop n cs) k h
          (All-IsSound (drop n cs) (All-drop IsTypical n cs t)) in
      subst
        (λ at.
          parse_from scale (written cs) (length (written cs)) at k
          ≡ done (tail_view scale k (drop n cs)))
        front_bytes
        (subst
          (λ f.
            parse_from scale f (length f) (length (written front)) k
            ≡ done (tail_view scale k (drop n cs)))
          split here)

  -- On a file of typical chunks, at least one, the tail read with a positive `source_cap` returns
  -- the last `source_cap` intervals of the whole file.
  pub read_tail_intervals-written :
      (cs : List Chunk) (source_cap : ℕ)
      → All IsTypical cs
      → 0 < length cs
      → 0 < source_cap
      → read_tail_intervals scale (written cs) (length (written cs)) source_cap
        ≡ done (tail_view scale source_cap cs)
  read_tail_intervals-written cs source_cap t some_chunk h =
      let m = (source_cap + typical_chunk_intervals - 1) / typical_chunk_intervals + 2 in
      let n = length cs - m in
      let size = length-written_typical cs t in
      let same =
        tail_view-drop source_cap n cs t (omega arith) (elim (Bool-cases (ltb m (length cs))) [
          | inl e ↦ inr (omega (arith, ltb→lt m (length cs) e))
          | inr e ↦ inl (ground arith)
        ]) in
      read_tail_intervals_aligned (written cs) (length (written cs)) source_cap n
        (omega (arith, size)) (omega (arith, size))
        (parse_from-boundary source_cap n cs t h (omega arith) ∙ ap done same)
        (has_rows-tail_view source_cap cs t h some_chunk)
