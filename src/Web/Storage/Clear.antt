-- ===== src/Web/Storage/Clear.antt =====
-- main.py: what "clear stored data" keeps and frees.
use pika_pika.Prelude.{
  ◌≡◌, refl, sym, ap, ◌∙◌, inl, inr, Bool, true, false, Bool-cases, not, ◌&&◌, Option, none, some,
  List, [], ◌∷◌, arith, keep, All, IsOneOf, sort_by, All-sort_by,
}
use pika_pika.Float.{Float}
use pika_pika.Text.{codes, same}
use pika_pika.Web.Storage.{
  Entry, Disk, is_stored_data_file, is_counted, text_lt, total_size, counted_of,
  get_storage_snapshot, cleared, clear_storage,
}

IsOneOf-keep :
    {A : Type 0} (p : A → Bool) (x : A) (xs : List A)
    → p x ≡ true
    → IsOneOf x xs
    → IsOneOf x (keep p xs)
IsOneOf-keep p x [] e h = absurd h
IsOneOf-keep p x (y ∷ ys) e (inl same) =
    let e' : p y ≡ true = ap p (sym same) ∙ e in rw e' (inl same)
IsOneOf-keep p x (y ∷ ys) e (inr h) = elim (Bool-cases (p y)) [
  | inl k ↦ rw k (inr (IsOneOf-keep p x ys e h))
  | inr k ↦ rw k (IsOneOf-keep p x ys e h)
]

keep_none : {A : Type 0} (p : A → Bool) (xs : List A) → All (λ x. p x ≡ false) xs → keep p xs ≡ []
keep_none p [] h = refl
keep_none p (x ∷ xs) (h, hs) = rw h (keep_none p xs hs)

All-keep-not :
    {A : Type 0} (p : A → Bool) (xs : List A) → All (λ x. p x ≡ false) (keep (λ x. not (p x)) xs)
All-keep-not p [] = tt
All-keep-not p (x ∷ xs) = elim (Bool-cases (p x)) [
  | inl e ↦ rw e (All-keep-not p xs)
  | inr e ↦ rw e (e, All-keep-not p xs)
]

-- Nothing that counts is left.
counted-cleared : (dir : Option (List Entry)) → counted_of (cleared dir) ≡ []
counted-cleared none = refl
counted-cleared (some es) =
    keep_none is_counted
      (sort_by (λ a b. text_lt a.name b.name) (keep (λ e. not (is_counted e)) es))
      (All-sort_by (λ e. is_counted e ≡ false) (λ a b. text_lt a.name b.name)
        (keep (λ e. not (is_counted e)) es) (All-keep-not is_counted es))

not_both : (b c : Bool) → c ≡ false → not (b && c) ≡ true
not_both true c e = rw e refl
not_both false c e = refl

notes_kept :
    (es : List Entry) (e : Entry)
    → e.name ≡ codes "observations.jsonl"
    → IsOneOf e es
    → IsOneOf e (keep (λ x. not (is_counted x)) es)
unfolding is_stored_data_file same
notes_kept es e name member =
    let kept : not (is_counted e) ≡ true =
      not_both e.regular (is_stored_data_file e.name) (ap is_stored_data_file name) in
    IsOneOf-keep (λ x. not (is_counted x)) e es kept member

module _ (W : Type 0) ⦃fl : Float W⦄ where
  snapshot-cleared :
      (dir : Option (List Entry)) (disk : Option Disk)
      → (get_storage_snapshot W (cleared dir) disk).bytes ≡ 0
  unfolding get_storage_snapshot total_size
  snapshot-cleared dir disk = ap total_size (counted-cleared dir)

  -- If the datalogger has written nothing by the second look at the directory, then clearing the
  -- stored data frees as many bytes as the snapshot before it counted and leaves a directory whose
  -- snapshot counts none. In any case a file with the name of the flicker notes stays.
  pub clear_storage-cleared :
      (es : List Entry) (started : Bool) (disk disk' : Option Disk)
      → let reply = clear_storage W (λ dir. dir) started (some es) disk disk' in
        (kept : List Entry) × (cleared (some es) ≡ some kept)
        × (reply.freed_bytes ≡ (get_storage_snapshot W (some es) disk).bytes)
        × (reply.storage.bytes ≡ 0)
        × ((e : Entry) → e.name ≡ codes "observations.jsonl" → IsOneOf e es → IsOneOf e kept)
  unfolding clear_storage
  clear_storage-cleared es started disk disk' =
      let gone = snapshot-cleared (some es) disk' in
      (keep (λ e. not (is_counted e)) es, refl, omega (arith, gone), gone, notes_kept es)
