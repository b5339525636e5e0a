-- ===== src/Crypto/DeviceId/Text.antt =====
-- ids.rs: identifiers read what they show.
use remote.Prelude.{
  take-eq_self, ◌-◌, false, subst, ℕ, zero, suc, List, [], ◌∷◌, ◌++◌, ◌≡◌, ◌+◌, ◌∙◌, ◌==◌, ◌||◌,
  sym, ap, refl, some, Result, ok, err, inl, inr, Bool-cases, Option-cases, All, length, take, drop,
  arith,
}
use remote.Crypto.DeviceId.{
  bad_character, IdError, IsSymbol, IsId, normalise, to_upper, parse_chars, parse, check_length,
  grouped, DeviceId,
}

normalise-IsSymbol : (up n : ℕ) → normalise up ≡ some n → IsSymbol n
unfolding normalise to_upper
normalise-IsSymbol up n h = ground arith

append_assoc : (xs ys zs : List ℕ) → (xs ++ ys) ++ zs ≡ xs ++ (ys ++ zs)
append_assoc [] ys zs = refl
append_assoc (x ∷ xs) ys zs = ap (◌∷◌ x) (append_assoc xs ys zs)

append_nil : (xs : List ℕ) → xs ++ [] ≡ xs
append_nil [] = refl
append_nil (x ∷ xs) = ap (◌∷◌ x) (append_nil xs)

dash : (rest out : List ℕ) → parse_chars (b'-' ∷ rest) out ≡ parse_chars rest out
unfolding parse_chars
dash rest out = refl

nothing_left : (out : List ℕ) → parse_chars [] out ≡ ok out
unfolding parse_chars
nothing_left out = refl

All-snoc : (xs : List ℕ) (x : ℕ) → All IsSymbol xs → IsSymbol x → All IsSymbol (xs ++ x ∷ [])
All-snoc [] x a s = (s, tt)
All-snoc (y ∷ ys) x a s = (a.0, All-snoc ys x a.1 s)

parse_chars-IsSymbol :
    (s out r : List ℕ) → All IsSymbol out → parse_chars s out ≡ ok r → All IsSymbol r
unfolding parse_chars
parse_chars-IsSymbol [] out r a h = let same : out ≡ r = cc in subst (All IsSymbol) same a
parse_chars-IsSymbol (ch ∷ rest) out r a h = elim (Bool-cases (ch == b'-' || ch == b' ')) [
  | inl skip ↦ parse_chars-IsSymbol rest out r a (rw skip at h)
  | inr keep ↦ elim (Option-cases (normalise (to_upper ch))) [
    | inl e ↦
        let refused : parse_chars (ch ∷ rest) out ≡ err (bad_character (to_upper ch)) =
          rw (keep, e, parse_chars) refl in
        absurd cc
    | inr (n, e) ↦
        let step : parse_chars (ch ∷ rest) out ≡ parse_chars rest (out ++ n ∷ []) =
          rw (keep, e, parse_chars) refl in
        parse_chars-IsSymbol rest (out ++ n ∷ []) r
          (All-snoc out n a (normalise-IsSymbol (to_upper ch) n e)) (sym step ∙ h)
  ]
]

check_length-ok :
    (r : Result IdError (List ℕ)) (id : DeviceId)
    → check_length r ≡ ok id
    → (r ≡ ok id) × (length id ≡ 12)
unfolding check_length
check_length-ok (err e) id h = absurd cc
check_length-ok (ok out) id h =
    let same : out ≡ id = ground arith in
    let twelve : length out ≡ 12 = ground arith in
    (ap ok same, subst (λ l. length l ≡ 12) same twelve)

-- What is parsed is an identifier: twelve characters of the alphabet.
pub parse-IsId : (s : List ℕ) (id : DeviceId) → parse s ≡ ok id → IsId id
unfolding parse
parse-IsId s id h =
    let (read, twelve) = check_length-ok (parse_chars s []) id h in
    record { twelve = twelve; symbols = parse_chars-IsSymbol s [] id tt read }

-- The parser reads a symbol as itself, and takes it for no separator.
normalise-IsSymbol_self : (ch : ℕ) → IsSymbol ch → normalise (to_upper ch) ≡ some ch
unfolding normalise to_upper
normalise-IsSymbol_self ch h = ground arith

IsSymbol-kept : (ch : ℕ) → IsSymbol ch → (ch == b'-' || ch == b' ') ≡ false
IsSymbol-kept ch h = ground arith

-- A run of symbols is read as itself.
parse_chars-append :
    (xs rest out : List ℕ)
    → All IsSymbol xs
    → parse_chars (xs ++ rest) out ≡ parse_chars rest (out ++ xs)
unfolding parse_chars
parse_chars-append [] rest out a = ap (parse_chars rest) (sym (append_nil out))
parse_chars-append (x ∷ xs) rest out a =
    let keep = IsSymbol-kept x a.0 in
    let step : parse_chars (x ∷ (xs ++ rest)) out ≡ parse_chars (xs ++ rest) (out ++ x ∷ []) =
      rw (keep, normalise-IsSymbol_self x a.0, parse_chars) refl in
    step
    ∙ parse_chars-append xs rest (out ++ x ∷ []) a.1
    ∙ ap (parse_chars rest) (append_assoc out (x ∷ []) xs)

All-take : (n : ℕ) (xs : List ℕ) → All IsSymbol xs → All IsSymbol (take n xs)
All-take zero xs a = tt
All-take (suc n) [] a = tt
All-take (suc n) (x ∷ xs) a = (a.0, All-take n xs a.1)

All-drop : (n : ℕ) (xs : List ℕ) → All IsSymbol xs → All IsSymbol (drop n xs)
All-drop zero xs a = a
All-drop (suc n) [] a = tt
All-drop (suc n) (x ∷ xs) a = All-drop n xs a.1

take-append-drop : (n : ℕ) (xs : List ℕ) → take n xs ++ drop n xs ≡ xs
take-append-drop zero xs = refl
take-append-drop (suc n) [] = refl
take-append-drop (suc n) (x ∷ xs) = ap (◌∷◌ x) (take-append-drop n xs)

drop-nil : (n : ℕ) → drop {A = ℕ} n [] ≡ []
drop-nil zero = refl
drop-nil (suc n) = refl

drop-drop : (m n k : ℕ) (xs : List ℕ) → k ≡ m + n → drop n (drop m xs) ≡ drop k xs
drop-drop zero n k xs e = ap (λ j. drop j xs) (omega arith)
drop-drop (suc m) n zero xs e = absurd (omega arith)
drop-drop (suc m) n (suc k) [] e = drop-nil n
drop-drop (suc m) n (suc k) (x ∷ xs) e = drop-drop m n k xs (omega arith)

length-drop : (n : ℕ) (xs : List ℕ) → length (drop n xs) ≡ length xs - n
length-drop zero xs = omega arith
length-drop (suc n) [] = omega arith
length-drop (suc n) (x ∷ xs) = omega (arith, length-drop n xs)

-- The three groups make up the identifier.
groups :
    (id : List ℕ) → length id ≡ 12 → (take 4 id ++ take 4 (drop 4 id)) ++ take 4 (drop 8 id) ≡ id
groups id h =
    let last : take 4 (drop 8 id) ≡ drop 8 id =
      take-eq_self 4 (drop 8 id) (omega (arith, length-drop 8 id)) in
    append_assoc (take 4 id) (take 4 (drop 4 id)) (take 4 (drop 8 id))
    ∙ ap (◌++◌ (take 4 id)) (
        ap (◌++◌ (take 4 (drop 4 id))) (last ∙ sym (drop-drop 4 4 8 id (omega arith)))
        ∙ take-append-drop 4 (drop 4 id))
    ∙ take-append-drop 4 id

-- The display form of an identifier, which is twelve digits and capital letters without I, L, O and
-- U, is read as that identifier.
pub parse-grouped : (id : DeviceId) → IsId id → parse (grouped id) ≡ ok id
unfolding parse grouped check_length
parse-grouped id h =
    let a = take 4 id in
    let b = take 4 (drop 4 id) in
    let e = take 4 (drop 8 id) in
    let first = All-take 4 id h.symbols in
    let second = All-take 4 (drop 4 id) (All-drop 4 id h.symbols) in
    let third = All-take 4 (drop 8 id) (All-drop 8 id h.symbols) in
    let read : parse_chars (a ++ b'-' ∷ (b ++ b'-' ∷ e)) [] ≡ ok id =
      parse_chars-append a (b'-' ∷ (b ++ b'-' ∷ e)) [] first
      ∙ dash (b ++ b'-' ∷ e) a
      ∙ parse_chars-append b (b'-' ∷ e) a second
      ∙ dash e (a ++ b)
      ∙ ap (λ z. parse_chars z (a ++ b)) (sym (append_nil e))
      ∙ parse_chars-append e [] (a ++ b) third
      ∙ nothing_left ((a ++ b) ++ e)
      ∙ ap ok (groups id h.twelve) in
    rw (read, check_length) (ground arith)
