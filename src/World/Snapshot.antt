-- ===== src/World/Snapshot.antt =====
-- The tiles around an observer, `Game::getWorldState` (src/game/Game.cpp). The buffer holds
-- `slots` tiles behind its header; `none` is a write behind its end.
use proj8315server.Base.{
  ℕ, ◌+◌, Bool, false, ◌&&◌, Option, none, some, List, length, set, replicate, ltb, ℤ, pos, negsuc,
  ◌-ℤ◌, if◌then◌else◌, ◌>>=◌,
}
use proj8315server.World.{World, tile_index, load}
use proj8315server.World.Loops.{for_range, rounds}

-- The message: the coordinates that were asked for, and the tiles row by row.
pub record Snapshot : Type 0 where
  pub center_x : ℤ
  pub center_z : ℤ
  pub observed : List ℕ

abbrev pub below_width : World → ℤ → Bool
below_width g (pos i) = ltb i g.world_width
below_width g (negsuc i) = false

-- The buffer, and the slot at the write position.
abbrev pub Buffer : Type 0
Buffer = List ℕ × ℕ

-- The body of the inner loop: a tile of the world is copied, and the position moves on.
unfoldable pub copy_tile : World → ℤ → ℤ → Buffer → Option Buffer
copy_tile g z x (buf, at) =
    if below_width g x && below_width g z
    then (load g.tiles (tile_index g.world_width x z) >>= λ t.
        if ltb at (length buf) then some (set buf at t, at + 1) else none)
    else some (buf, at + 1)

unfoldable pub copy_rows : World → ℤ → ℤ → ℤ → Buffer → Option Buffer
copy_rows g x z r =
    for_range (z -ℤ r) (rounds r) (λ j. for_range (x -ℤ r) (rounds r) (copy_tile g j))

unfoldable pub get_world_state : ℕ → World → ℤ → ℤ → ℤ → Option Snapshot
get_world_state slots g x z r = copy_rows g x z r (replicate slots 0, 0) >>= λ out.
    some (record { center_x = x; center_z = z; observed = out.0 })
