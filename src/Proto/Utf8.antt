-- ===== src/Proto/Utf8.antt =====
-- What control.rs uses of Rust's strings: `str::from_utf8`, `chars`, `is_char_boundary`; and its
-- `truncate_utf8`. A string is the list of its bytes.
use remote.Prelude.{
  ℕ, zero, suc, ◌+◌, ◌-◌, ◌*◌, List, [], ◌∷◌, ◌++◌, Option, none, some, Bool, true, false, ◌&&◌,
  ◌||◌, not, ltb, leb, ◌==◌, if◌then◌else◌, length, take, get_or,
}
use mathlib.Core.Option

-- In a sequence: the continuation bytes due, the range of the next one, and the bits so far.
record Partial : Type 0 where
  due : ℕ
  lo : ℕ
  hi : ℕ
  bits : ℕ

abbrev start : Partial
start = record { due = 0; lo = 0; hi = 0; bits = 0 }

abbrev within : ℕ → ℕ → ℕ → Bool
within lo hi b = leb lo b && leb b hi

abbrev sequence : ℕ → ℕ → ℕ → ℕ → Option (Partial × List ℕ)
sequence due lo hi bits = some (record { due = due; lo = lo; hi = hi; bits = bits }, [])

-- The first byte of a character.
lead : ℕ → Option (Partial × List ℕ)
lead b =
    if ltb b 0x80
    then some (start, b ∷ [])
    else if within 0xC2 0xDF b
    then sequence 1 0x80 0xBF (b - 0xC0)
    else if b == 0xE0
    then sequence 2 0xA0 0xBF 0
    else if b == 0xED
    then sequence 2 0x80 0x9F 0xD
    else if within 0xE1 0xEF b
    then sequence 2 0x80 0xBF (b - 0xE0)
    else if b == 0xF0
    then sequence 3 0x90 0xBF 0
    else if within 0xF1 0xF3 b
    then sequence 3 0x80 0xBF (b - 0xF0)
    else if b == 0xF4
    then sequence 3 0x80 0x8F 4
    else none

continue : Partial → ℕ → Option (Partial × List ℕ)
continue p b =
    let bits = p.bits * 64 + (b - 0x80) in
    if not (within p.lo p.hi b)
    then none
    else if p.due == 1
    then some (start, bits ∷ [])
    else sequence (p.due - 1) 0x80 0xBF bits

scan : Partial → List ℕ → Option (List ℕ)
unfolding lead continue
scan p [] = if p.due == 0 then some [] else none
scan p (b ∷ r) = elim (if p.due == 0 then lead b else continue p b) [
  | none ↦ none
  | some (q, out) ↦ Option.map (λ cs. out ++ cs) (scan q r)
]

-- `str::from_utf8(s)` and its `chars()`: the code points, or nothing where `s` is not UTF-8.
unfoldable pub chars : List ℕ → Option (List ℕ)
unfolding scan
chars s = scan start s

-- `char::is_control`.
abbrev pub is_control : ℕ → Bool
is_control c = ltb c 0x20 || within 0x7F 0x9F c

-- `.chars().any(|c| c.is_control() && c != '\t' && c != '\n')`.
unfoldable pub has_forbidden : List ℕ → Bool
has_forbidden [] = false
has_forbidden (c ∷ cs) = (is_control c && not (c == 9) && not (c == 10)) || has_forbidden cs

is_char_boundary : List ℕ → ℕ → Bool
is_char_boundary s i =
    if i == 0
    then true
    else if leb (length s) i
    then i == length s
    else not (within 0x80 0xBF (get_or s i 0))

-- `while end > 0 && !s.is_char_boundary(end) { end -= 1; }`.
back_up : List ℕ → ℕ → ℕ
unfolding is_char_boundary
back_up s zero = zero
back_up s (suc e) = elim (is_char_boundary s (suc e)) [ true ↦ suc e | false ↦ back_up s e ]

unfoldable pub truncate_utf8 : List ℕ → ℕ → List ℕ
unfolding back_up
truncate_utf8 s max_bytes = if leb (length s) max_bytes then s else take (back_up s max_bytes) s
