-- ===== src/Events/Window.antt =====
-- event_service.py: `events_between`.
use pika_pika.Prelude.{
  ℕ, ◌*◌, ◌-◌, ◌/◌, ◌≤◌, ◌≡◌, refl, sym, ap, ◌∙◌, inl, inr, true, false, Bool, Bool-cases, List, [],
  ◌∷◌, map, arith, length, drop, All, All-weaken, some, none, Option, keep, InOrder, by_key,
  All-sort_by, sort_by-InOrder, sort_by_in_order,
}
use pika_pika.Prelude.Int.{ℤ, pos, ◌≤ℤ◌, ltb_ℤ}
use pika_pika.Float.{Float}
use pika_pika.History.Window.{in_window}
use pika_pika.Events.{
  Settings, Event, event_of, v3, record_size, detect_index_format, read_loop, events_between,
}
use pika_pika.Events.Index.{Row, IsSound, index_file, length-index_file, event_of_row}
use pika_pika.Events.Listing.{detect_index_format-v3, read_loop-last}

module _ {A : Type 0} where
  All-keep : (p : A → Bool) (xs : List A) → All (λ x. p x ≡ true) (keep p xs)
  All-keep p [] = tt
  All-keep p (x ∷ xs) = elim (Bool-cases (p x)) [
    | inl e ↦ rw e (e, All-keep p xs)
    | inr e ↦ rw e (All-keep p xs)
  ]

  All-keep-weaken {κ} : (P : A → Type κ) (p : A → Bool) (xs : List A) → All P xs → All P (keep p xs)
  All-keep-weaken P p [] h = h
  All-keep-weaken P p (x ∷ xs) (h, hs) = elim (Bool-cases (p x)) [
    | inl e ↦ rw e (h, All-keep-weaken P p xs hs)
    | inr e ↦ rw e (All-keep-weaken P p xs hs)
  ]

  keep-InOrder :
      (key : A → ℕ) (p : A → Bool) (xs : List A) → InOrder key xs → InOrder key (keep p xs)
  keep-InOrder key p [] h = tt
  keep-InOrder key p (x ∷ xs) (low, h) = elim (Bool-cases (p x)) [
    | inl e ↦ rw e (All-keep-weaken (λ y. key x ≤ key y) p xs low, keep-InOrder key p xs h)
    | inr e ↦ rw e (keep-InOrder key p xs h)
  ]

  map-InOrder :
      {B : Type 0} (f : A → B) (key : A → ℕ) (key' : B → ℕ) (xs : List A)
      → ((x : A) → key' (f x) ≡ key x)
      → InOrder key xs
      → InOrder key' (map f xs)
  map-InOrder f key key' [] same h = tt
  map-InOrder f key key' (x ∷ xs) same (low, h) = (later xs low, map-InOrder f key key' xs same h)
    where
      later :
          (ys : List A) → All (λ y. key x ≤ key y) ys → All (λ y. key' (f x) ≤ key' y) (map f ys)
      later [] k = tt
      later (y ∷ ys) (k, ks) = (omega (arith, same x, same y), later ys ks)

module _ {W : Type 0} ⦃fl : Float W⦄ (s : Settings W) (waveforms : Option (List ℕ)) where
  -- `events_between` returns, from any index, events whose times lie in the window, in the order of
  -- their times.
  pub events_between-InWindow :
      (index : Option (List ℕ)) (start_ns end_ns : ℤ)
      → let found = events_between s waveforms index start_ns end_ns in
        InOrder (λ e. e.timestamp) found
        × All (λ e. (start_ns ≤ℤ pos e.timestamp) × (pos e.timestamp ≤ℤ end_ns)) found
  unfolding events_between
  events_between-InWindow none start_ns end_ns = (tt, tt)
  events_between-InWindow (some f) start_ns end_ns =
      let fmt = detect_index_format (length f) in
      let p = λ (e : Event W). in_window start_ns end_ns e.timestamp in
      let key = λ (e : Event W). e.timestamp in
      let read = read_loop s waveforms fmt f (length f / record_size fmt) 0 in
      elim (Bool-cases (ltb_ℤ end_ns start_ns)) [
        | inl e ↦ rw e (tt, tt)
        | inr e ↦ rw e (
          sort_by-InOrder key (keep p read),
          All-sort_by (λ e. (start_ns ≤ℤ pos e.timestamp) × (pos e.timestamp ≤ℤ end_ns))
              (by_key key) (keep p read)
              (All-weaken (λ e. p e ≡ true)
                (λ e. (start_ns ≤ℤ pos e.timestamp) × (pos e.timestamp ≤ℤ end_ns)) (keep p read)
                (λ e h. ground arith) (All-keep p read)),
        )
      ]

  -- On an index that holds the rows that were written, each of which fits its fields and none of
  -- which is older than an earlier one, `events_between` returns, for a window that is not empty,
  -- exactly the events of the rows whose times lie in the window.
  pub events_between-written :
      (rows : List Row) (start_ns end_ns : ℤ)
      → All IsSound rows
      → InOrder (λ r. r.timestamp_ns) rows
      → start_ns ≤ℤ end_ns
      → events_between s waveforms (some (index_file rows)) start_ns end_ns
        ≡ keep (λ e. in_window start_ns end_ns e.timestamp) (map (event_of_row s waveforms) rows)
  unfolding events_between event_of
  events_between-written rows start_ns end_ns sound order o =
      let n = length rows in
      let p = λ (e : Event W). in_window start_ns end_ns e.timestamp in
      let count : n * 51 / 51 ≡ n = omega arith in
      let forward : ltb_ℤ end_ns start_ns ≡ false = ground arith in
      let place : (n - n) * 51 ≡ 0 = omega arith in
      let none_cut : n - n ≡ 0 = omega arith in
      let all_read : read_loop s waveforms v3 (index_file rows) n 0
          ≡ map (event_of_row s waveforms) rows =
        ap (read_loop s waveforms v3 (index_file rows) n) (sym place)
        ∙ read_loop-last s waveforms rows n sound (omega arith)
        ∙ ap (λ k. map (event_of_row s waveforms) (drop k rows)) none_cut in
      rw (length-index_file rows, detect_index_format-v3 n, count, forward, all_read)
        (sort_by_in_order (λ e. e.timestamp) (keep p (map (event_of_row s waveforms) rows))
          (keep-InOrder (λ e. e.timestamp) p (map (event_of_row s waveforms) rows)
            (map-InOrder (event_of_row s waveforms) (λ r. r.timestamp_ns) (λ e. e.timestamp) rows
              (λ r. refl) order)))
