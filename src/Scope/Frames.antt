-- ===== src/Scope/Frames.antt =====
-- Lists of frames, each of one sample per channel, and the samples that they lay out.
use pika_pika.Prelude.{
  ℕ, zero, suc, ◌+◌, ◌*◌, ◌<◌, ◌≡◌, refl, sym, ap, ap₂, ◌∙◌, List, [], ◌∷◌, ◌++◌, append_assoc,
  arith, length, take, drop, drop-append, drop-drop, get_or, All,
}
use pika_pika.Prelude.Int.{ℤ}

-- The samples of some frames, one frame after the other.
abbrev pub flatten : List (List ℤ) → List ℤ
flatten [] = []
flatten (x ∷ xs) = x ++ flatten xs

abbrev pub AllOfLength : ℕ → List (List ℤ) → Type 0
AllOfLength c = All (λ x. length x ≡ c)

pub drop-nil : (n : ℕ) → drop {A = ℤ} n [] ≡ []
drop-nil zero = refl
drop-nil (suc n) = refl

pub take-nil : (n : ℕ) → take {A = ℤ} n [] ≡ []
take-nil zero = refl
take-nil (suc n) = refl

pub take-append_more :
    (c n : ℕ) (x y : List ℤ) → length x ≡ c → take (c + n) (x ++ y) ≡ x ++ take n y
take-append_more zero n [] y h = let e : 0 + n ≡ n = omega arith in ap (λ k. take k y) e
take-append_more zero n (b ∷ x) y h = absurd (omega arith)
take-append_more (suc c) n [] y h = absurd (omega arith)
take-append_more (suc c) n (b ∷ x) y h =
    let e : suc c + n ≡ suc (c + n) = omega arith in
    ap (λ k. take k (b ∷ (x ++ y))) e ∙ ap (◌∷◌ b) (take-append_more c n x y (omega arith))

pub drop-flatten :
    (c n : ℕ) (xs : List (List ℤ))
    → AllOfLength c xs
    → drop (n * c) (flatten xs) ≡ flatten (drop n xs)
drop-flatten c zero xs h = let e : zero * c ≡ 0 = omega arith in ap (λ k. drop k (flatten xs)) e
drop-flatten c (suc n) [] h = drop-nil (suc n * c)
drop-flatten c (suc n) (x ∷ xs) (h, hs) =
    let e : suc n * c ≡ c + n * c = omega arith in
    ap (λ k. drop k (x ++ flatten xs)) e
    ∙ sym (drop-drop (n * c) c (x ++ flatten xs))
    ∙ ap (drop (n * c)) (drop-append c x (flatten xs) (sym h))
    ∙ drop-flatten c n xs hs

pub take-flatten :
    (c n : ℕ) (xs : List (List ℤ))
    → AllOfLength c xs
    → take (n * c) (flatten xs) ≡ flatten (take n xs)
take-flatten c zero xs h = let e : zero * c ≡ 0 = omega arith in ap (λ k. take k (flatten xs)) e
take-flatten c (suc n) [] h = take-nil (suc n * c)
take-flatten c (suc n) (x ∷ xs) (h, hs) =
    let e : suc n * c ≡ c + n * c = omega arith in
    ap (λ k. take k (x ++ flatten xs)) e
    ∙ take-append_more c (n * c) x (flatten xs) h
    ∙ ap (x ++◌) (take-flatten c n xs hs)

pub flatten-append : (xs ys : List (List ℤ)) → flatten (xs ++ ys) ≡ flatten xs ++ flatten ys
flatten-append [] ys = refl
flatten-append (x ∷ xs) ys =
    ap (x ++◌) (flatten-append xs ys) ∙ sym (append_assoc x (flatten xs) (flatten ys))

pub get_or-take : (n j : ℕ) (xs : List (List ℤ)) → j < n → get_or (take n xs) j [] ≡ get_or xs j []
get_or-take zero j xs h = absurd (omega arith)
get_or-take (suc n) j [] h = refl
get_or-take (suc n) zero (x ∷ xs) h = refl
get_or-take (suc n) (suc j) (x ∷ xs) h = get_or-take n j xs (omega arith)

pub get_or-drop : (n j : ℕ) (xs : List (List ℤ)) → get_or (drop n xs) j [] ≡ get_or xs (n + j) []
get_or-drop zero j xs = let e : j ≡ 0 + j = omega arith in ap (λ k. get_or xs k []) e
get_or-drop (suc n) j [] = refl
get_or-drop (suc n) j (x ∷ xs) =
    let e : suc (n + j) ≡ suc n + j = omega arith in
    get_or-drop n j xs ∙ ap (λ k. get_or (x ∷ xs) k []) e

pub get_or-append_left :
    (j : ℕ) (xs ys : List (List ℤ)) → j < length xs → get_or (xs ++ ys) j [] ≡ get_or xs j []
get_or-append_left j [] ys h = absurd (omega arith)
get_or-append_left zero (x ∷ xs) ys h = refl
get_or-append_left (suc j) (x ∷ xs) ys h = get_or-append_left j xs ys (omega arith)

pub get_or-append_right :
    (j : ℕ) (xs ys : List (List ℤ)) → get_or (xs ++ ys) (length xs + j) [] ≡ get_or ys j []
get_or-append_right j [] ys = let e : 0 + j ≡ j = omega arith in ap (λ k. get_or ys k []) e
get_or-append_right j (x ∷ xs) ys =
    let e : suc (length xs) + j ≡ suc (length xs + j) = omega arith in
    ap (λ k. get_or (x ∷ (xs ++ ys)) k []) e ∙ get_or-append_right j xs ys

-- Lists of one length that agree at each index are the same.
pub same_items :
    (xs ys : List (List ℤ))
    → length xs ≡ length ys
    → ((j : ℕ) → j < length xs → get_or xs j [] ≡ get_or ys j [])
    → xs ≡ ys
same_items [] [] e f = refl
same_items [] (y ∷ ys) e f = absurd (omega arith)
same_items (x ∷ xs) [] e f = absurd (omega arith)
same_items (x ∷ xs) (y ∷ ys) e f =
    ap₂ ◌∷◌ (f 0 (omega arith)) (same_items xs ys (omega arith) (λ j h. f (suc j) (omega arith)))
