-- ===== src/History/Parse/Written.antt =====
-- What `_parse_from` returns for a file of written chunks.
use pika_pika.Prelude.{
  ℕ, zero, suc, ◌+◌, ◌<◌, ◌≡◌, refl, sym, ap, subst, ◌∙◌, Option, some, List, [], ◌∷◌, ◌++◌,
  append-nil, append_assoc, arith, length, length-append, All, done,
}
use pika_pika.Float.{Float}
use pika_pika.History.Format.{header_size, Interval, legacy, layout, Layout}
use pika_pika.History.Parse.{
  Found, chunk, too_short, next_chunk, Parsed, Walked, walked, parse_loop, parse_from,
}
use pika_pika.History.Rows.{keep_last, chunk_intervals, parse_chunk_payload-columns_of}
use pika_pika.History.Written.{
  Chunk, chunk_file, written, IsSound, next_chunk-written, length-chunk_file,
}
use pika_pika.History.Parse.Agree.{parsed_of, finish-parsed_of}

next_chunk-end :
    (f : List ℕ) (size at : ℕ) → size < at + header_size → next_chunk f size at ≡ too_short
unfolding next_chunk
next_chunk-end f size at h = ground arith

unfoldable pub last_rate : ℕ → List Chunk → ℕ
last_rate rate [] = rate
last_rate rate (c ∷ cs) = last_rate c.header.rate cs

unfoldable pub last_layout : Layout → List Chunk → Layout
last_layout l [] = l
last_layout l (c ∷ cs) = last_layout (layout c.header) cs

-- A walk that has met no chunk.
abbrev pub nothing : {W : Type 0} → Walked W
nothing = record { rows = []; sample_rate = 0; fmt = legacy }

module _ {W : Type 0} ⦃fl : Float W⦄ (scale : W) where
  -- All the intervals of some chunks, in the order of the file.
  unfoldable pub intervals : List Chunk → List (Interval W)
  intervals [] = []
  intervals (c ∷ cs) = chunk_intervals scale c.header c.values ++ intervals cs

  -- What a reader that has seen `w` has seen when it has read `cs` too.
  abbrev pub read_on : Walked W → List Chunk → Walked W
  read_on w cs = record {
    rows = w.rows ++ intervals cs;
    sample_rate = last_rate w.sample_rate cs;
    fmt = last_layout w.fmt cs;
  }

  -- The last `source_cap` intervals of some chunks with the last chunk's rate and layout: what the
  -- readers promise.
  abbrev pub tail_view : ℕ → List Chunk → Option (Parsed W)
  tail_view source_cap cs = walked (record {
    rows = keep_last source_cap (intervals cs);
    sample_rate = last_rate 0 cs;
    fmt = last_layout legacy cs;
  })

  parse_loop-written :
      (fuel : ℕ) (f before : List ℕ) (cs : List Chunk) (w : Walked W)
      → All IsSound cs
      → f ≡ before ++ written cs
      → length f < fuel + length before
      → parse_loop scale f (length f) fuel (length before) (parsed_of w)
        ≡ done (some (parsed_of (read_on w cs)))
  unfolding parse_loop intervals last_rate last_layout written
  parse_loop-written zero f before cs w sound e m =
      absurd (omega (arith, ap length e, length-append before (written cs)))
  parse_loop-written (suc fuel) f before [] w sound e m =
      let past : length f < length before + header_size =
        omega (arith, ap length e, length-append before []) in
      rw (next_chunk-end f (length f) (length before) past, parse_loop, append-nil w.rows)
  parse_loop-written (suc fuel) f before (c ∷ cs) w (s, sound) e m =
      let here =
        subst (λ t. next_chunk t (length t) (length before) ≡ found) (sym e)
          (next_chunk-written before (written cs) c s refl) in
      rw
        (
          here,
          parse_loop,
          parse_chunk_payload-columns_of scale c.header c.values w.rows,
          ← length-append before (chunk_file c),
          ← append_assoc w.rows (chunk_intervals scale c.header c.values) (intervals cs),
        )
        (parse_loop-written fuel f (before ++ chunk_file c) cs _ sound
          (e ∙ sym (append_assoc before (chunk_file c) (written cs)))
          (omega (arith, length-append before (chunk_file c), length-chunk_file c s)))
    where
      found : Found
      found = chunk c.header c.values (length before + length (chunk_file c))

  -- Let chunks with plausible headers and complete payloads stand behind some other bytes. From
  -- there on `_parse_from`, with a positive `source_cap`, gives the intervals of these chunks, the
  -- last `source_cap` of them, and `None` if there are none.
  pub parse_from-written :
      (before : List ℕ) (cs : List Chunk) (source_cap : ℕ)
      → 0 < source_cap
      → All IsSound cs
      → let f = before ++ written cs in
        parse_from scale f (length f) (length before) source_cap ≡ done (tail_view source_cap cs)
  unfolding parse_from
  parse_from-written before cs source_cap h sound =
      let f = before ++ written cs in
      rw (parse_loop-written (suc (length f)) f before cs nothing sound refl (omega arith))
        (ap done (finish-parsed_of source_cap (read_on nothing cs) h))
