-- ===== src/History/Window/Exact.antt =====
-- history_service.py: the loop of `_intervals_in_file` on the files that the datalogger writes.
use pika_pika.Prelude.{
  keep-append, keep_none, ℕ, zero, suc, ◌+◌, ◌*◌, ◌≤◌, ◌<◌, ◌≡◌, refl, sym, ap, subst, ◌∙◌, inl,
  inr, Bool, true, false, Bool-cases, List, [], ◌∷◌, ◌++◌, append-nil, append_assoc, arith, leb,
  length, length-append, All, All-weaken, keep, if◌then◌else◌, done,
}
use pika_pika.Prelude.Int.{ℤ, pos, ltb_ℤ, ◌<ℤ◌}
use pika_pika.Float.{Float}
use pika_pika.History.Format.{header_size, Interval, chunk_end, total_values}
use pika_pika.History.Rows.{chunk_intervals, parse_chunk_payload-columns_of}
use pika_pika.History.Written.{
  Chunk, chunk_file, written, IsSound, length-chunk_file, length-header-written,
  length-payload-written, header_at-written, payload-written, whole_chunk-written,
}
use pika_pika.History.Parse.Written.{intervals}
use pika_pika.History.Window.{
  in_window, Visit, past, earlier, use_chunk, visit, window_rows, window_loop,
}
use pika_pika.History.Window.Times.{InTime, zip_columns-columns_of, chunk_stamps, chunk_end-ge}

-- What the loop sees at a written chunk.
abbrev seen : ℤ → ℤ → Chunk → ℕ → Visit
seen start_ns end_ns c at =
    let next = at + (header_size + total_values c.header * 2) in
    if ltb_ℤ (pos (chunk_end c.header)) start_ns
    then earlier next
    else if ltb_ℤ end_ns (pos c.header.ts)
    then past
    else use_chunk next

abbrev pub inside : {W : Type 0} → ℤ → ℤ → Interval W → Bool
inside start_ns end_ns r = in_window start_ns end_ns r.stamp

module _ {W : Type 0} ⦃fl : Float W⦄ (scale : W) (start_ns end_ns : ℤ) where
  abbrev rows_of : Chunk → List (Interval W)
  rows_of c = chunk_intervals scale c.header c.values

  abbrev Between : Chunk → Interval W → Type 0
  Between c r = (c.header.ts ≤ r.stamp) × (r.stamp ≤ chunk_end c.header)

  -- A chunk that ends before the window has no row in it, nor has one that begins after it.
  keep_earlier :
      (c : Chunk)
      → pos (chunk_end c.header) <ℤ start_ns
      → keep (inside start_ns end_ns) (rows_of c) ≡ []
  keep_earlier c h = keep_none (inside start_ns end_ns) (rows_of c) (
      All-weaken (Between c) (λ r. (inside start_ns end_ns) r ≡ false) (rows_of c)
        (λ r b. ground arith) (chunk_stamps scale c.header c.values))

  keep_later :
      (c : Chunk) → end_ns <ℤ pos c.header.ts → keep (inside start_ns end_ns) (rows_of c) ≡ []
  keep_later c h = keep_none (inside start_ns end_ns) (rows_of c) (
      All-weaken (Between c) (λ r. (inside start_ns end_ns) r ≡ false) (rows_of c)
        (λ r b. ground arith) (chunk_stamps scale c.header c.values))

  pub keep-earlier :
      (cs : List Chunk)
      → All (λ c. pos (chunk_end c.header) <ℤ start_ns) cs
      → keep (inside start_ns end_ns) (intervals scale cs) ≡ []
  unfolding intervals
  keep-earlier [] h = refl
  keep-earlier (c ∷ cs) (h, hs) =
      keep-append (inside start_ns end_ns) (rows_of c) (intervals scale cs)
      ∙ rw (keep_earlier c h) (keep-earlier cs hs)

  keep-later :
      (cs : List Chunk)
      → All (λ c. end_ns <ℤ pos c.header.ts) cs
      → keep (inside start_ns end_ns) (intervals scale cs) ≡ []
  unfolding intervals
  keep-later [] h = refl
  keep-later (c ∷ cs) (h, hs) =
      keep-append (inside start_ns end_ns) (rows_of c) (intervals scale cs)
      ∙ rw (keep_later c h) (keep-later cs hs)

  -- At a written chunk the loop reads its rows, or sees that it lies outside the window.
  module _ (before rest : List ℕ) (c : Chunk) (sound : IsSound c) where
    abbrev file : List ℕ
    file = before ++ (chunk_file c ++ rest)

    window_rows-written :
        window_rows scale file (length file) start_ns end_ns (length before)
        ≡ keep (inside start_ns end_ns) (rows_of c)
    unfolding window_rows
    window_rows-written =
        rw
          (
            header_at-written before rest c sound,
            payload-written before rest c sound,
            parse_chunk_payload-columns_of scale c.header c.values [],
          )
          (ap (keep (inside start_ns end_ns)) (zip_columns-columns_of (rows_of c)))

    visit-written :
        visit file (length file) start_ns end_ns (length before)
        ≡ seen start_ns end_ns c (length before)
    unfolding visit
    visit-written =
        rw
          (
            length-header-written before rest c sound,
            whole_chunk-written before rest c sound,
            header_at-written before rest c sound,
            length-payload-written before rest c sound,
          )
          (ground arith)

  -- What `visit` and the rows are at a written chunk of a file `f`.
  visit-file :
      (f before rest : List ℕ) (c : Chunk)
      → IsSound c
      → f ≡ before ++ (chunk_file c ++ rest)
      → (visit f (length f) start_ns end_ns (length before)
          ≡ seen start_ns end_ns c (length before))
        × (window_rows scale f (length f) start_ns end_ns (length before)
            ≡ keep (inside start_ns end_ns) (rows_of c))
  visit-file f before rest c sound e =
      subst
        (λ t.
          (visit t (length t) start_ns end_ns (length before)
            ≡ seen start_ns end_ns c (length before))
          × (window_rows scale t (length t) start_ns end_ns (length before)
              ≡ keep (inside start_ns end_ns) (rows_of c)))
        (sym e) (visit-written before rest c sound, window_rows-written before rest c sound)

  -- From a chunk boundary on, the loop collects the rows of the window from all the chunks behind it.
  pub window_loop-written :
      (fuel : ℕ) (f before : List ℕ) (cs : List Chunk) (rows : List (Interval W))
      → All IsSound cs
      → InTime cs
      → f ≡ before ++ written cs
      → length f < fuel + length before
      → window_loop scale f (length f) start_ns end_ns fuel (length before) rows
        ≡ done (rows ++ keep (inside start_ns end_ns) (intervals scale cs))
  unfolding window_loop written intervals
  window_loop-written zero f before cs rows sound order e m =
      absurd (omega (arith, ap length e, length-append before (written cs)))
  window_loop-written (suc fuel) f before [] rows sound order e m =
      let past_end : leb (length before + header_size) (length f) ≡ false =
        ground (arith, ap length e, length-append before []) in
      rw (past_end, append-nil)
  window_loop-written (suc fuel) f before (c ∷ cs) rows (s, sound) (later, order) e m =
      let (v, r) = visit-file f before (written cs) c s e in
      let room : leb (length before + header_size) (length f) ≡ true = ground (
        arith,
        ap length e,
        length-append before (chunk_file c ++ written cs),
        length-append (chunk_file c) (written cs),
        length-chunk_file c s,
      ) in
      let split = keep-append (inside start_ns end_ns) (rows_of c) (intervals scale cs) in
      let next : length (before ++ chunk_file c)
          ≡ length before + (header_size + total_values c.header * 2) =
        omega (arith, length-append before (chunk_file c), length-chunk_file c s) in
      let onward = λ (some_rows : List (Interval W)).
        subst
          (λ at.
            window_loop scale f (length f) start_ns end_ns fuel at some_rows
            ≡ done (some_rows ++ keep (inside start_ns end_ns) (intervals scale cs)))
          next
          (window_loop-written fuel f (before ++ chunk_file c) cs some_rows sound order
            (e ∙ sym (append_assoc before (chunk_file c) (written cs))) (omega arith)) in
      elim (Bool-cases (ltb_ℤ (pos (chunk_end c.header)) start_ns)) [
        | inl early ↦
            rw (room, v, early, window_loop)
              (onward rows
                ∙ ap (λ k. done (rows ++ k))
                    (sym (split ∙ rw (keep_earlier c (ground arith)) refl)))
        | inr not_early ↦ elim (Bool-cases (ltb_ℤ end_ns (pos c.header.ts))) [
          | inl late ↦
              rw (room, v, not_early, late, window_loop)
                (ap done (sym (append-nil rows))
                  ∙ ap (λ k. done (rows ++ k))
                      (sym (
                        keep-later (c ∷ cs) (
                          ground arith,
                          All-weaken (λ d. chunk_end c.header < d.header.ts)
                              (λ d. end_ns <ℤ pos d.header.ts) cs
                              (λ d h. ground (arith, chunk_end-ge c.header)) later,
                        ))))
          | inr not_late ↦
              rw (room, v, not_early, not_late, window_loop, r)
                (onward (rows ++ keep (inside start_ns end_ns) (rows_of c))
                  ∙ ap done (
                      append_assoc rows (keep (inside start_ns end_ns) (rows_of c))
                        (keep (inside start_ns end_ns) (intervals scale cs))
                      ∙ ap (λ k. rows ++ k) (sym split)))
        ]
      ]
