-- ===== src/History/Window/Whole.antt =====
-- history_service.py: `_intervals_in_file`, its seek included, on the files that the datalogger writes.
use pika_pika.Prelude.{
  keep-append, ℕ, zero, suc, ◌+◌, ◌*◌, ◌/◌, ◌≤◌, ◌<◌, ◌≡◌, refl, sym, ap, subst, ◌∙◌, false, some,
  List, [], ◌∷◌, ◌++◌, append_assoc, arith, ltb, length, length-append, length-take, All, All-take,
  All-drop, All-get_or, All-take_of_get_or, keep, get_or, take, drop, take-append-drop, done,
  Returns-done,
}
use pika_pika.Prelude.Int.{ℤ, pos, ◌<ℤ◌}
use pika_pika.Float.{Float}
use pika_pika.History.Format.{header_size, typical_iec_chunk_bytes, chunk_end}
use pika_pika.History.Written.{Chunk, chunk_file, written, header_at-written}
use pika_pika.History.Parse.Written.{intervals}
use pika_pika.History.Parse.Tail.{
  IsTypical, All-IsSound, typical_bytes, length-written_typical, written-append, intervals-append,
}
use pika_pika.History.Seek.{header_at, seek_chunk_at_or_before}
use pika_pika.History.Seek.Bisect.{InOrder, IsStart, seek_chunk_at_or_before-IsStart}
use pika_pika.History.Window.{intervals_in_open_file, intervals_in_file, window_loop}
use pika_pika.History.Window.Times.{InTime, chunk_end-ge}
use pika_pika.History.Window.Exact.{inside, keep-earlier, window_loop-written}

header_at-index :
    (before : List ℕ) (cs : List Chunk) (i : ℕ) (d : Chunk)
    → All IsTypical cs
    → i < length cs
    → header_at (before ++ written cs) (length before + i * typical_iec_chunk_bytes)
      ≡ (get_or cs i d).header
unfolding written
header_at-index before [] i d t lt = absurd (omega arith)
header_at-index before (c ∷ cs) zero d (t, ts) lt =
    let e : length before + 0 * typical_iec_chunk_bytes ≡ length before = omega arith in
    ap (header_at (before ++ (chunk_file c ++ written cs))) e
    ∙ header_at-written before (written cs) c t.sound
header_at-index before (c ∷ cs) (suc i) d (t, ts) lt =
    let e : length before + suc i * typical_iec_chunk_bytes
        ≡ length (before ++ chunk_file c) + i * typical_iec_chunk_bytes =
      omega (arith, length-append before (chunk_file c), typical_bytes c t) in
    ap (header_at (before ++ (chunk_file c ++ written cs))) e
    ∙ ap (λ f. header_at f (length (before ++ chunk_file c) + i * typical_iec_chunk_bytes))
        (sym (append_assoc before (chunk_file c) (written cs)))
    ∙ header_at-index (before ++ chunk_file c) cs i d ts (omega arith)

end_of-written :
    (cs : List Chunk) (i : ℕ) (d : Chunk)
    → All IsTypical cs
    → i < length cs
    → chunk_end (header_at (written cs) (i * typical_iec_chunk_bytes))
      ≡ chunk_end (get_or cs i d).header
end_of-written cs i d t lt =
    let e : i * typical_iec_chunk_bytes ≡ length {A = ℕ} [] + i * typical_iec_chunk_bytes =
      omega arith in
    ap (λ at. chunk_end (header_at (written cs) at)) e
    ∙ ap chunk_end (header_at-index [] cs i d t lt)

-- The ends of chunks that are in time increase.
InTime-le :
    (cs : List Chunk) (i j : ℕ) (d : Chunk)
    → InTime cs
    → i ≤ j
    → j < length cs
    → chunk_end (get_or cs i d).header ≤ chunk_end (get_or cs j d).header
InTime-le [] i j d order le lt = absurd (omega arith)
InTime-le (c ∷ cs) zero zero d order le lt = omega arith
InTime-le (c ∷ cs) zero (suc j) d (later, order) le lt = omega (
  arith,
  All-get_or (λ e. chunk_end c.header < e.header.ts) cs j d later (omega arith),
  chunk_end-ge (get_or cs j d).header,
)
InTime-le (c ∷ cs) (suc i) zero d order le lt = absurd (omega arith)
InTime-le (c ∷ cs) (suc i) (suc j) d (later, order) le lt =
    InTime-le cs i j d order (omega arith) (omega arith)

InTime-drop : (n : ℕ) (cs : List Chunk) → InTime cs → InTime (drop n cs)
InTime-drop zero cs order = order
InTime-drop (suc n) [] order = order
InTime-drop (suc n) (c ∷ cs) (later, order) = InTime-drop n cs order

module _ (cs : List Chunk) (d : Chunk) (typical : All IsTypical cs) (order : InTime cs) where
  count_chunks : length (written cs) / typical_iec_chunk_bytes ≡ length cs
  count_chunks = omega (arith, length-written_typical cs typical)

  written-InOrder : InOrder (written cs) (length (written cs) / typical_iec_chunk_bytes)
  written-InOrder i j le lt =
      let lt' : j < length cs = omega (arith, count_chunks) in
      omega (
        arith,
        end_of-written cs i d typical (omega arith),
        end_of-written cs j d typical lt',
        InTime-le cs i j d order le lt',
      )

module _ {W : Type 0} ⦃fl : Float W⦄ (scale : W) (start_ns end_ns : ℤ) where
  -- From a place that `_seek_chunk_at_or_before` may return, the loop collects the whole window.
  window_loop-IsStart :
      (cs : List Chunk) (d : Chunk) (p : ℕ)
      → All IsTypical cs
      → InTime cs
      → IsStart (written cs) start_ns p
      → window_loop scale
          (written cs)
          (length (written cs))
          start_ns
          end_ns
          (suc (length (written cs)))
          p
          []
        ≡ done (keep (inside start_ns end_ns) (intervals scale cs))
  window_loop-IsStart cs d p typical order (aligned, fits, earlier) =
      let size = length-written_typical cs typical in
      let k = p / typical_iec_chunk_bytes in
      let front = take k cs in
      let k_le : k ≤ length cs = omega arith in
      let at : length (written front) ≡ p =
        length-written_typical front (All-take IsTypical k cs typical)
        ∙ omega (arith, length-take k cs) in
      let split : written cs ≡ written front ++ written (drop k cs) =
        ap written (sym (take-append-drop k cs)) ∙ written-append front (drop k cs) in
      let skipped : All (λ c. pos (chunk_end c.header) <ℤ start_ns) front =
        All-take_of_get_or (λ c. pos (chunk_end c.header) <ℤ start_ns) k cs d k_le
          (λ i lt.
            omega (arith, end_of-written cs i d typical (omega arith), earlier i (omega arith))) in
      let loop =
        window_loop-written scale start_ns end_ns (suc (length (written cs))) (written cs)
          (written front) (drop k cs) [] (All-IsSound (drop k cs) (All-drop IsTypical k cs typical))
          (InTime-drop k cs order) split (omega arith) in
      let all_rows : keep (inside start_ns end_ns) (intervals scale (drop k cs))
          ≡ keep (inside start_ns end_ns) (intervals scale cs) =
        sym (
          ap (keep (inside start_ns end_ns)) (
            ap (intervals scale) (sym (take-append-drop k cs))
            ∙ intervals-append scale front (drop k cs))
          ∙ keep-append (inside start_ns end_ns) (intervals scale front)
              (intervals scale (drop k cs))
          ∙ rw (keep-earlier scale start_ns end_ns front skipped)) in
      subst
        (λ q.
          window_loop scale (written cs) (length (written cs)) start_ns end_ns
            (suc (length (written cs))) q []
          ≡ done (keep (inside start_ns end_ns) (intervals scale cs)))
        at (loop ∙ ap done all_rows)

  intervals_in_file_empty :
      intervals_in_open_file scale (written []) (length (written [])) start_ns end_ns
      ≡ done (keep (inside start_ns end_ns) (intervals scale []))
  unfolding intervals_in_open_file written intervals
  intervals_in_file_empty = refl

  -- On a file of typical chunks, each of which ends before the next begins, `_intervals_in_file`
  -- returns exactly the intervals of the file whose times lie in the window, in the file's order.
  pub intervals_in_file-written :
      (cs : List Chunk)
      → All IsTypical cs
      → InTime cs
      → intervals_in_file scale start_ns end_ns (some (written cs))
        ≡ done (keep (inside start_ns end_ns) (intervals scale cs))
  unfolding intervals_in_file intervals_in_open_file
  intervals_in_file-written [] typical order = intervals_in_file_empty
  intervals_in_file-written (c ∷ cs) typical order =
      let size = length-written_typical (c ∷ cs) typical in
      let full : ltb (length (written (c ∷ cs))) header_size ≡ false = ground (arith, size) in
      let (p, found, start) =
        Returns-done
          (seek_chunk_at_or_before (written (c ∷ cs)) (length (written (c ∷ cs))) start_ns)
          (IsStart (written (c ∷ cs)) start_ns)
          (seek_chunk_at_or_before-IsStart (written (c ∷ cs)) start_ns (omega (arith, size))
            (written-InOrder (c ∷ cs) c typical order)) in
      rw (full, found) (window_loop-IsStart (c ∷ cs) c p typical order start)
