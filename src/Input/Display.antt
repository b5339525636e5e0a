-- ===== src/Input/Display.antt =====
-- crates/rda-input/src/lib.rs, `DisplayGeometry`: normalised coordinates to those of a display.
use remote.Prelude.{
  ℕ, ◌+◌, ◌-◌, ◌*◌, ◌/◌, ◌%◌, List, [], ◌∷◌, Option, none, some, ltb, ◌==◌, if◌then◌else◌,
}
use remote.Prelude.Int.{ℤ, pos, negsuc}

pub record DisplayGeometry : Type 0 where
  pub id : ℕ
  pub x : ℤ
  pub y : ℤ
  pub width : ℕ
  pub height : ℕ

-- `as i32` of a u64.
abbrev pub as_i32 : ℕ → ℤ
as_i32 n =
    let low = n % 4294967296 in if ltb low 2147483648 then pos low else negsuc (4294967295 - low)

-- i32 `saturating_add`.
unfoldable pub saturating_add : ℤ → ℤ → ℤ
saturating_add (pos a) (pos b) = if ltb (a + b) 2147483648 then pos (a + b) else pos 2147483647
saturating_add (pos a) (negsuc b) = if ltb b a then pos (a - b - 1) else negsuc (b - a)
saturating_add (negsuc a) (pos b) = if ltb a b then pos (b - a - 1) else negsuc (a - b)
saturating_add (negsuc a) (negsuc b) =
    if ltb (a + b + 1) 2147483648 then negsuc (a + b + 1) else negsuc 2147483647

-- `(u64::from(norm) * saturating_sub(size, 1)) / 65535`.
unfoldable pub scaled : ℕ → ℕ → ℕ
scaled norm size = norm * (size - 1) / 65535

unfoldable pub denormalise : DisplayGeometry → ℕ → ℕ → ℤ × ℤ
denormalise d x_norm y_norm = (
  saturating_add d.x (as_i32 (scaled x_norm d.width)),
  saturating_add d.y (as_i32 (scaled y_norm d.height)),
)

-- `self.displays.iter().find(|d| d.id == id)`.
unfoldable pub find_display : List DisplayGeometry → ℕ → Option DisplayGeometry
find_display [] id = none
find_display (d ∷ ds) id = let rest = find_display ds id in if d.id == id then some d else rest
