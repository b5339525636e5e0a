-- ===== src/Proto/Reader.antt =====
-- control.rs, the errors and the bounds-checked reader. A reader is the list of the bytes that
-- are still to read: `&buf[pos..]` of the source, whose every read uses nothing else.
use remote.Prelude.{
  ℕ, ◌+◌, ◌-◌, ◌*◌, ◌≤◌, ◌≡◌, Bool, List, [], ◌∷◌, ◌++◌, String, Result, ok, err, ltb, ltb_of_le,
  length, drop, get_or, if◌then◌else◌, arith, take as take_list, length-append, take-length-append,
  take-eq_self, refl, drop-length-append,
}
use remote.Prelude.Int.{ℤ, pos, negsuc}

-- DecodeError.
pub data DecodeError : Type 0 where
  truncated : (need got : ℕ) → DecodeError
  bad_version : ℕ → DecodeError
  invalid_field : (field : String) (value : ℕ) → DecodeError
  length_cap : (field : String) (len max : ℕ) → DecodeError
  invalid_text : String → DecodeError

-- A computation of the source that takes `&mut Reader` and may fail.
abbrev pub Parser : Type 0 → Type 0
Parser A = List ℕ → Result DecodeError (A × List ℕ)

infixl 5 ◌>>=◌ ◌>>◌
abbrev pub ◌>>=◌ : {A B : Type 0} → Parser A → (A → Parser B) → Parser B
◌>>=◌ m f r = elim (m r) [ err e ↦ err e | ok (a, r') ↦ f a r' ]

abbrev pub ◌>>◌ : {A B : Type 0} → Parser A → Parser B → Parser B
m >> k = m >>= λ _. k

abbrev pub pure : {A : Type 0} → A → Parser A
pure a r = ok (a, r)

-- `?` on a result that reads nothing.
abbrev pub lift : {A : Type 0} → Result DecodeError A → Parser A
lift (ok a) r = ok (a, r)
lift (err e) r = err e

-- `if test { return Err(e) }`.
abbrev pub reject_if : Bool → DecodeError → Parser (Unit {0})
reject_if test e r = if test then err e else ok (tt, r)

pub remaining : List ℕ → ℕ
remaining r = length r

unfoldable pub take : ℕ → Parser (List ℕ)
unfolding remaining
take n r =
    if ltb (remaining r) n then err (truncated n (remaining r)) else ok (take_list n r, drop n r)

unfoldable pub u8 : Parser ℕ
u8 = do b ← take 1; pure (get_or b 0 0)

-- u16::from_be_bytes.
unfoldable pub u16 : Parser ℕ
u16 = do b ← take 2; pure (get_or b 0 0 * 256 + get_or b 1 0)

-- `as i16`: two's complement.
abbrev pub as_i16 : ℕ → ℤ
as_i16 v = if ltb v 32768 then pos v else negsuc (65535 - v)

unfoldable pub i16 : Parser ℤ
unfolding u16
i16 = do v ← u16; pure (as_i16 v)

-- u32::from_be_bytes.
unfoldable pub u32 : Parser ℕ
u32 = do
  b ← take 4
  pure (get_or b 0 0 * 16777216 + get_or b 1 0 * 65536 + get_or b 2 0 * 256 + get_or b 3 0)

unfoldable pub skip_reserved : ℕ → Parser (Unit {0})
skip_reserved n = do b ← take n; pure tt

take_ok : (n : ℕ) (r : List ℕ) → n ≤ length r → take n r ≡ ok (take_list n r, drop n r)
unfolding take
take_ok n r h = rw (ltb_of_le _ _ h)

-- Reading back what was written.
pub u8-cons : (a : ℕ) (r : List ℕ) → u8 (a ∷ r) ≡ ok (a, r)
unfolding u8
u8-cons a r = rw (take_ok 1 (a ∷ r) (omega arith), u8, ◌>>=◌)

pub u16-cons : (a b : ℕ) (r : List ℕ) → u16 (a ∷ b ∷ r) ≡ ok (a * 256 + b, r)
unfolding u16
u16-cons a b r = rw (take_ok 2 (a ∷ b ∷ r) (omega arith), u16, ◌>>=◌)

pub u32-cons :
    (a b c d : ℕ) (r : List ℕ)
    → u32 (a ∷ b ∷ c ∷ d ∷ r) ≡ ok (a * 16777216 + b * 65536 + c * 256 + d, r)
unfolding u32
u32-cons a b c d r = rw (take_ok 4 (a ∷ b ∷ c ∷ d ∷ r) (omega arith), u32, ◌>>=◌)

pub skip_reserved-cons : (a : ℕ) (r : List ℕ) → skip_reserved 1 (a ∷ r) ≡ ok (tt, r)
unfolding skip_reserved
skip_reserved-cons a r = rw (take_ok 1 (a ∷ r) (omega arith), skip_reserved, ◌>>=◌)

pub take-append : (xs ys : List ℕ) → take (length xs) (xs ++ ys) ≡ ok (xs, ys)
take-append xs ys = rw (
  take_ok (length xs) (xs ++ ys) (omega (arith, length-append xs ys)),
  take-length-append xs ys,
  drop-length-append xs ys,
)

drop-length : (xs : List ℕ) → drop (length xs) xs ≡ []
drop-length [] = refl
drop-length (x ∷ xs) = drop-length xs

pub take_all : (xs : List ℕ) → take (length xs) xs ≡ ok (xs, [])
take_all xs = rw (
  take_ok (length xs) xs (omega arith),
  take-eq_self (length xs) xs (omega arith),
  drop-length xs,
)
