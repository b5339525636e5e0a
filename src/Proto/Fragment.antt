-- ===== src/Proto/Fragment.antt =====
-- control.rs, `Payload::fragment_video`: a video frame cut into fragments.
use remote.Prelude.{ℕ, zero, suc, ◌+◌, ◌%◌, List, [], ◌∷◌, length, take, drop}
use remote.Proto.Payload.{Payload, max_video_fragment}

-- Rust's `slice::chunks`. Each round takes an item at least, so as many rounds as items are enough.
unfoldable pub chunks : ℕ → ℕ → List ℕ → List (List ℕ)
chunks zero size bytes = []
chunks (suc fuel) size [] = []
chunks (suc fuel) size (b ∷ bytes) =
    take size (b ∷ bytes) ∷ chunks fuel size (drop size (b ∷ bytes))

-- The chunks of `fragment_video`: an empty frame has one, which is empty.
unfoldable pub split : List ℕ → List (List ℕ)
split [] = [] ∷ []
split (b ∷ bytes) = chunks (length (b ∷ bytes)) max_video_fragment (b ∷ bytes)

-- `enumerate().map(..)`, from index `i` on.
unfoldable pub number : ℕ → ℕ → ℕ → ℕ → ℕ → ℕ → List (List ℕ) → List Payload
number frame_id kind layer pts_us count i [] = []
number frame_id kind layer pts_us count i (c ∷ cs) =
    Payload.video_frame frame_id (i % 65536) count kind layer pts_us c
    ∷ number frame_id kind layer pts_us count (i + 1) cs

unfoldable pub fragment_video : ℕ → ℕ → ℕ → ℕ → List ℕ → List Payload
fragment_video frame_id kind layer pts_us bytes =
    let parts = split bytes in number frame_id kind layer pts_us (length parts % 65536) 0 parts
