-- ===== src/Observations/Notes/Latest.antt =====
-- observation_service.py: a note that `create_note` stores, as `get_note` and `list_notes` show it.
use pika_pika.Prelude.{
  ℕ, suc, ◌-◌, ◌≡◌, refl, ap, ◌∙◌, false, Option, none, some, List, [], ◌∷◌, ◌++◌, map, reverse,
  arith, length, length-append, drop, drop-append_left, last_items, ◌==◌, done, Returns-done, ok,
}
use mathlib.Core.List.{reverse-append}
use pika_pika.Float.{Float}
use pika_pika.Text.{Text, same, same_refl}
use pika_pika.Observations.Note.{Entry}
use pika_pika.Observations.Correlate.{Sources, AreInWindow, Correlation, correlate}
use pika_pika.Observations.Correlate.Window.{correlate-IsWithin}
use pika_pika.Observations.Validate.{Body, Builtins, validate}
use pika_pika.Observations.Notes.{
  Note, Line, stored, blank, broken, Journal, found, created, notes_of, read_all, append,
  public_note, list_notes, find_note, correlated, with_correlation, get_note, stored_note,
  create_note,
}

reverse-snoc : {A : Type 0} (xs : List A) (x : A) → reverse (xs ++ (x ∷ [])) ≡ x ∷ reverse xs
reverse-snoc xs x = reverse-append xs (x ∷ [])

map-snoc :
    {A B : Type 0} (f : A → B) (xs : List A) (x : A)
    → map f (xs ++ (x ∷ [])) ≡ map f xs ++ (f x ∷ [])
map-snoc f [] x = refl
map-snoc f (y ∷ xs) x = ap (f y ∷◌) (map-snoc f xs x)

module _ {W : Type 0} where
  notes_of-snoc :
      (lines : List (Line W)) (n : Note W)
      → notes_of (lines ++ (stored n ∷ [])) ≡ notes_of lines ++ (n ∷ [])
  unfolding notes_of
  notes_of-snoc [] n = refl
  notes_of-snoc (blank ∷ lines) n = notes_of-snoc lines n
  notes_of-snoc (broken ∷ lines) n = notes_of-snoc lines n
  notes_of-snoc (stored m ∷ lines) n = ap (m ∷◌) (notes_of-snoc lines n)

  pub read_all-append :
      (j : Journal W) (n : Note W) → read_all (append j n) ≡ read_all j ++ (n ∷ [])
  unfolding read_all append notes_of
  read_all-append none n = refl
  read_all-append (some lines) n = notes_of-snoc lines n

  last_items-snoc :
      (k : ℕ) (notes : List (Note W)) (n : Note W)
      → last_items (suc (suc k)) (notes ++ (n ∷ [])) ≡ last_items (suc k) notes ++ (n ∷ [])
  last_items-snoc k notes n =
      let e : length (notes ++ (n ∷ [])) - suc (suc k) ≡ length notes - suc k =
        omega (arith, length-append notes (n ∷ [])) in
      let a : suc (suc k) == 0 ≡ false = ground arith in
      let b : suc k == 0 ≡ false = ground arith in
      rw (a, b)
        (ap (λ m. drop m (notes ++ (n ∷ []))) e
          ∙ drop-append_left (length notes - suc k) notes (n ∷ []) (omega arith))

  -- A note that is appended comes first in the list of at most `k + 2` notes, and the first `k + 1` of
  -- the list as it was before follow it.
  pub list_notes-append :
      (j : Journal W) (n : Note W) (k : ℕ)
      → list_notes (append j n) (suc (suc k)) ≡ public_note n ∷ list_notes j (suc k)
  unfolding list_notes
  list_notes-append j n k =
      ap (λ notes. reverse (map public_note (last_items (suc (suc k)) notes))) (read_all-append j n)
      ∙ ap (λ notes. reverse (map public_note notes)) (last_items-snoc k (read_all j) n)
      ∙ ap reverse (map-snoc public_note (last_items (suc k) (read_all j)) n)
      ∙ reverse-snoc (map public_note (last_items (suc k) (read_all j))) (public_note n)

module _ {W : Type 0} ⦃fl : Float W⦄ (s : Sources W) (laws : AreInWindow s) (py : Builtins W) where
  correlates : (e : Entry W) → (k : Correlation W) × (correlate s e false ≡ done (some k))
  correlates e =
      let (o, run, (k, same, within)) =
        Returns-done (correlate s e false) _ (correlate-IsWithin s laws e false) in
      (k, run ∙ ap done same)

  with_correlation_at :
      (n : Note W) (k : Correlation W)
      → correlate s n.entry false ≡ done (some k)
      → with_correlation s n ≡ done (some (correlated n k))
  unfolding with_correlation
  with_correlation_at n k e = rw e refl

  get_note-append :
      (j : Journal W) (n : Note W) (k : Correlation W)
      → correlate s n.entry false ≡ done (some k)
      → get_note s (append j n) n.id ≡ done (found (correlated n k))
  unfolding get_note find_note
  get_note-append j n k e =
      rw
        (
          get_note,
          read_all-append j n,
          reverse-snoc (read_all j) n,
          same_refl n.id,
          with_correlation_at n k e,
        )
        refl

  -- Let both searches of the services end, with what lies in the window, in order of time. If the body
  -- is valid, `create_note` ends without an exception, with a file to which the note is appended, and
  -- `get_note` on this file, with the id of the note, returns the stored note and the same correlation.
  pub create_note-get_note :
      (body : Option (Body W)) (j : Journal W) (now_ns : ℕ) (id : Text) (created_at_ns : ℕ)
      (e : Entry W)
      → validate py body now_ns ≡ ok e
      → let n : Note W = record {
        id = id;
        created_at_ns = created_at_ns;
        entry = e;
        digest = none;
      } in
        (k : Correlation W) × (create_note s py body j now_ns id created_at_ns
          ≡ ok (done (created (correlated n k) (append j (stored_note n k)))))
        × (get_note s (append j (stored_note n k)) id
            ≡ done (found (correlated (stored_note n k) k)))
  unfolding create_note stored_note
  create_note-get_note body j now_ns id created_at_ns e valid =
      let n : Note W = record {
        id = id;
        created_at_ns = created_at_ns;
        entry = e;
        digest = none;
      } in
      let (k, run) = correlates e in
      (k, rw (valid, with_correlation_at n k run) refl, get_note-append j (stored_note n k) k run)
