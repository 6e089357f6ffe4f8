-- ===== src/Observations/Notes/Reachable.antt =====
-- observation_service.py: the files of notes that the service can come to hold.
use pika_pika.Prelude.{
  ℕ, ◌≤◌, ◌≡◌, refl, subst, sym, ap, Option, none, some, List, [], ◌∷◌, ◌++◌, length, All,
  All-append, Run, done, out_of_fuel, ◌>>=◌, ok, Holds, Holds-and_then,
}
use pika_pika.Float.{Float}
use pika_pika.Text.{Text}
use pika_pika.Observations.Correlate.{Sources}
use pika_pika.Observations.Validate.{Body, Builtins, validate}
use pika_pika.Observations.Validate.Allowed.{
  LocationAllowed, PictureAllowed, IsAllowed, validate-IsAllowed,
}
use pika_pika.Observations.Notes.{
  Note, Line, stored, blank, broken, Journal, Correlated, Creation, created, notes_of, read_all,
  append, creation, with_correlation, stored_note, create_note,
}
use pika_pika.Observations.Notes.Latest.{read_all-append}

module _ {W : Type 0} ⦃fl : Float W⦄ where
  -- The limits of a stored note that do not depend on the clock.
  abbrev pub IsKept : Note W → Type 0
  IsKept n =
      (length n.entry.note ≤ 500)
      × LocationAllowed n.entry.pika_location
      × PictureAllowed n.entry.kind n.entry.picture

module _ {W : Type 0} ⦃fl : Float W⦄ (py : Builtins W) where
  -- One request, with the services as they are at its time, or a line that is no note: a write that
  -- was cut off, with what the next one wrote on the same line.
  pub data Step : Journal W → Journal W → Type 0 where
    request :
        (s : Sources W) (body : Option (Body W)) (j j' : Journal W) (now_ns : ℕ) (id : Text)
        (created_at_ns : ℕ) (c : Correlated W)
        → create_note s py body j now_ns id created_at_ns ≡ ok (done (created c j'))
        → Step j j'
    damage : (lines : List (Line W)) → Step (some lines) (some (lines ++ (broken ∷ [])))

  -- From no file on.
  pub data Reachable : Journal W → Type 0 where
    start : Reachable none
    next : (j j' : Journal W) → Reachable j → Step j j' → Reachable j'

  abbrev AllKept : Journal W → Type 0
  AllKept j = All IsKept (read_all j)

  -- The file that a request leaves.
  abbrev Leaves : Run (Creation W) → Type 0
  Leaves (done (created c j)) = AllKept j
  Leaves _ = Unit

  append-AllKept : (j : Journal W) (n : Note W) → AllKept j → IsKept n → AllKept (append j n)
  append-AllKept j n h k =
      subst (All IsKept) (sym (read_all-append j n))
        (All-append IsKept (read_all j) (n ∷ []) h (k, tt))

  creation-Leaves :
      (j : Journal W) (n : Note W) (run : Run (Option (Correlated W)))
      → AllKept j
      → IsKept n
      → Leaves (run >>= λ o. done (creation j n o))
  unfolding stored_note
  creation-Leaves j n out_of_fuel h k = tt
  creation-Leaves j n (done none) h k = tt
  creation-Leaves j n (done (some c)) h k = append-AllKept j (stored_note n c.correlation) h k

  create_note-Leaves :
      (s : Sources W) (body : Option (Body W)) (j : Journal W) (now_ns : ℕ) (id : Text)
      (created_at_ns : ℕ)
      → AllKept j
      → Holds (create_note s py body j now_ns id created_at_ns) Leaves
  unfolding create_note
  create_note-Leaves s body j now_ns id created_at_ns h =
      Holds-and_then (validate py body now_ns) _ (IsAllowed now_ns) Leaves
        (validate-IsAllowed py now_ns body)
        (λ e (timely, short, named, pictured).
          let n : Note W = record {
            id = id;
            created_at_ns = created_at_ns;
            entry = e;
            digest = none;
          } in
          creation-Leaves j n (with_correlation s n) h (short, named, pictured))

  notes_of-broken : (lines : List (Line W)) → notes_of (lines ++ (broken ∷ [])) ≡ notes_of lines
  unfolding notes_of
  notes_of-broken [] = refl
  notes_of-broken (blank ∷ lines) = notes_of-broken lines
  notes_of-broken (broken ∷ lines) = notes_of-broken lines
  notes_of-broken (stored m ∷ lines) = ap (m ∷◌) (notes_of-broken lines)

  Step-AllKept : (j j' : Journal W) → Step j j' → AllKept j → AllKept j'
  unfolding read_all
  Step-AllKept _ _ (request s body j j' now_ns id created_at_ns c e) h =
      subst (λ r. Holds r Leaves) e (create_note-Leaves s body j now_ns id created_at_ns h)
  Step-AllKept _ _ (damage lines) h = subst (All IsKept) (sym (notes_of-broken lines)) h

  -- However many requests came, with whatever bodies, and however many broken lines were left:
  -- each note that is read back has at most 500 characters of text and 1 to 80 of location, and the
  -- fields of a picture exactly if it is not on lights alone, with a same moment exactly for several sets
  -- and a rounded blank from 0.1 to 10 seconds.
  pub Reachable-IsKept : (j : Journal W) → Reachable j → All IsKept (read_all j)
  unfolding read_all
  Reachable-IsKept _ start = tt
  Reachable-IsKept _ (next j j' r step) = Step-AllKept j j' step (Reachable-IsKept j r)
