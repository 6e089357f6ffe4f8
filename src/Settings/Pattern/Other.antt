-- ===== src/Settings/Pattern/Other.antt =====
-- Replacing the number of one key leaves the number that a search for another key finds.
use pika_pika.Prelude.{
  ℕ, ◌++◌, ◌==◌, ◌≡◌, refl, sym, ◌∙◌, ap, subst, ◌⊎◌, inl, inr, Bool, true, false, not, ◌&&◌,
  Option, none, some, [], ◌∷◌, if◌then◌else◌, arith, Option-cases, append_assoc,
}
use pika_pika.Text.{Text}
use pika_pika.Settings.Pattern.{Hit, is_digit, is_blank, run, behind, field, search_lines, cons_hit}
use pika_pika.Settings.Pattern.Before.{digits, differ, ends_differ, is_blanks, IsKey, behind-differ}
use pika_pika.Settings.Pattern.Field.{number_of, IsNumber, Consists, field-Consists, field-EndsIn}
use pika_pika.Settings.Pattern.Again.{find, Found, find-Found, find-cases}

-- The first character that is no blank exists, and is no digit.
unfoldable pub stops : Text → Bool
stops [] = false
stops (c ∷ p) = if is_blank c then stops p else not (is_digit c)

unfoldable pub is_one_line : Text → Bool
is_one_line [] = true
is_one_line (c ∷ s) = not (c == 10) && is_one_line s

behind-blanks :
    (p y t : Text) {v : Text × Text}
    → stops p ≡ true
    → is_blanks y ≡ true
    → digits t ≡ some v
    → behind p (y ++ t) ≡ none
unfolding stops behind is_blank is_digit run
behind-blanks [] y t h b n = absurd (cc)
behind-blanks (c ∷ p) [] [] h b n = absurd (cc)
behind-blanks (c ∷ p) [] (e ∷ t) h b n = ground arith
behind-blanks (c ∷ p) (e ∷ y) t {v = v} h b n = ground (arith, behind-blanks p y t {v = v})

field-behind : (key s : Text) → behind key s ≡ none → field key digits s ≡ none
unfolding field
field-behind key s e = rw (field, e) refl

number_of-cons_hit : (c : ℕ) (o : Option Hit) → number_of (cons_hit c o) ≡ number_of o
number_of-cons_hit c none = refl
number_of-cons_hit c (some h) = refl

-- What a search for the second key finds, past a place where it finds nothing.
module _ (key : Text) where
  abbrev pub read : Bool → Text → Option (Text × Bool)
  read start s = number_of (find key start s)

  read_on :
      (start : Bool) (c : ℕ) (s : Text)
      → (start ≡ false) ⊎ (field key digits (c ∷ s) ≡ none)
      → read start (c ∷ s) ≡ read (c == 10) s
  unfolding search_lines
  read_on false c s h = number_of-cons_hit c _
  read_on true c s (inl e) = absurd (cc)
  read_on true c s (inr e) = rw e (number_of-cons_hit c _)

  read_here :
      (c : ℕ) (s : Text) (m : Text × Bool)
      → number_of (field key digits (c ∷ s)) ≡ some m
      → read true (c ∷ s) ≡ some m
  unfolding search_lines
  read_here c s m e = elim (Option-cases (field key digits (c ∷ s))) [
    | inl f ↦ absurd (let e' = rw f at e in cc)
    | inr (h, f) ↦ rw f (rw f at e)
  ]

  read-run : (s m r : Text) → digits s ≡ some (m, r) → read false s ≡ read false r
  unfolding run is_digit
  read-run [] m r h = absurd (cc)
  read-run (c ∷ s) m r h =
      let no_newline : (c == 10) ≡ false = ground arith in
      let step = read_on false c s (inl refl) ∙ ap (λ start. read start s) no_newline in
      elim (Option-cases (digits s)) [
        | inl e ↦
            let h' = rw e at h in let at_end : s ≡ r = ground arith in step ∙ ap (read false) at_end
        | inr (v, e) ↦
            let h' = rw e at h in
            let at_end : v.1 ≡ r = ground arith in
            step ∙ read-run s v.0 v.1 e ∙ ap (read false) at_end
      ]

  read-line : (l t : Text) → is_one_line l ≡ true → read false (l ++ t) ≡ read false t
  unfolding is_one_line
  read-line [] t h = refl
  read-line (c ∷ l) t h =
      read_on false c (l ++ t) (inl refl)
      ∙ (let e : (c == 10) ≡ false = ground arith in rw e (read-line l t (ground arith)))

  read-blanks :
      (start : Bool) (y t m r : Text)
      → stops key ≡ true
      → is_blanks y ≡ true
      → digits t ≡ some (m, r)
      → read start (y ++ t) ≡ read false r
  unfolding run
  read-blanks start [] [] m r h b n = absurd (cc)
  read-blanks start [] (c ∷ t) m r h b n =
      read_on start c t (inr (field-behind key (c ∷ t) (behind-blanks key [] (c ∷ t) h refl n)))
      ∙ sym (read_on false c t (inl refl))
      ∙ read-run (c ∷ t) m r n
  read-blanks start (c ∷ y) t m r h b n =
      read_on start c (y ++ t)
        (inr (field-behind key (c ∷ (y ++ t)) (behind-blanks key (c ∷ y) t h b n)))
      ∙ read-blanks (c == 10) y t m r h (ground arith) n

-- What holds of a key, and of another one that begins with `b`.
pub record AreApart (key : Text) (b : ℕ) (p : Text) : Type 0 where
  pub is_key : IsKey key
  pub one_line : is_one_line key ≡ true
  pub ends : ends_differ key p ≡ true
  pub differs : differ (b ∷ p) key ≡ true
  pub stop : stops (b ∷ p) ≡ true

abbrev Keeps : Text → Bool → Hit → Type 0
Keeps other start h =
    (d : Text)
    → IsNumber d h.after
    → read other start (h.before ++ (d ++ h.after))
      ≡ read other start (h.before ++ (h.number ++ h.after))

module _ {b : ℕ} {p : Text} where
  past_key :
      (key y t m r : Text)
      → AreApart key b p
      → is_blanks y ≡ true
      → digits t ≡ some (m, r)
      → read (b ∷ p) true ((key ++ y) ++ t) ≡ read (b ∷ p) false r
  unfolding differ is_one_line
  past_key [] y t m r k h n = absurd (let e = k.differs in cc)
  past_key (c ∷ l) y t m r k h n =
      let line = k.one_line in
      let no_newline : (c == 10) ≡ false = ground arith in
      let whole = behind-differ (b ∷ p) (c ∷ l) (y ++ t) k.differs in
      rw (append_assoc l y t) (
        read_on (b ∷ p) true c (l ++ (y ++ t))
          (inr (field-behind (b ∷ p) (c ∷ (l ++ (y ++ t))) whole))
        ∙ ap (λ start. read (b ∷ p) start (l ++ (y ++ t))) no_newline
        ∙ read-line (b ∷ p) l (y ++ t) (ground arith)
        ∙ read-blanks (b ∷ p) false y t m r k.stop h n)

  at_once-Keeps :
      {key s : Text} {h : Hit} → AreApart key b p → Consists key s h → Keeps (b ∷ p) true h
  at_once-Keeps {key} {h = h} k c d n = rw c.before_eq (
      past_key key c.gap (d ++ h.after) d h.after k c.gap_blank n
      ∙ sym (past_key key c.gap (h.number ++ h.after) h.number h.after k c.gap_blank c.number_ends))

  further_on-Keeps :
      {key : Text} (start : Bool) (c : ℕ) (s : Text) (h : Hit)
      → AreApart key b p
      → Found key s h
      → Keeps (b ∷ p) (c == 10) h
      → Keeps (b ∷ p) start (record h { before = c ∷ h.before })
  unfolding search_lines
  further_on-Keeps false c s h k f ih d n =
      read_on (b ∷ p) false c (h.before ++ (d ++ h.after)) (inl refl)
      ∙ ih d n
      ∙ sym (read_on (b ∷ p) false c (h.before ++ (h.number ++ h.after)) (inl refl))
  further_on-Keeps true c s h k f ih d n = elim (field-EndsIn k.is_key b p c k.ends f.before_ends) [
    | inl settled ↦
        read_on (b ∷ p) true c (h.before ++ (d ++ h.after)) (inr (settled (d ++ h.after)))
        ∙ ih d n
        ∙ sym (
            read_on (b ∷ p) true c (h.before ++ (h.number ++ h.after))
              (inr (settled (h.number ++ h.after))))
    | inr (m, settled) ↦
        read_here (b ∷ p) c _ m (settled (d ++ h.after))
        ∙ sym (read_here (b ∷ p) c _ m (settled (h.number ++ h.after)))
  ]

  -- The second key's number is the same whatever number the first key has.
  pub find-Keeps :
      {key : Text} (start : Bool) (s : Text) {h : Hit}
      → AreApart key b p
      → find key start s ≡ some h
      → (d : Text) → IsNumber d h.after
      → read (b ∷ p) start (h.before ++ (d ++ h.after))
        ≡ read (b ∷ p) start (h.before ++ (h.number ++ h.after))
  unfolding search_lines
  find-Keeps false [] k e = absurd (cc)
  find-Keeps true [] k e = absurd (cc)
  find-Keeps {key} start (c ∷ s) k e = elim (find-cases key start c s e) [
    | inl (t, f) ↦ rw t (at_once-Keeps k (field-Consists key (c ∷ s) f))
    | inr (h', f, same, why) ↦ subst (Keeps (b ∷ p) start) (sym same) (
        further_on-Keeps start c s h' k (find-Found key (c == 10) s f) (find-Keeps (c == 10) s k f))
  ]
