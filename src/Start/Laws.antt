-- ===== src/Start/Laws.antt =====
-- Laws of the constructor of Game: src/game/Game.cpp.
use proj8315server.Base.{
  ℕ, zero, suc, ◌+◌, ◌*◌, ◌≤◌, ◌<◌, ◌≡◌, refl, ap, ◌∙◌, ◌⊎◌, inl, inr, false, none, some, List, [],
  map, length, length-replicate, get_elem?-replicate, All, ◌==◌, pos, ◌-ℤ◌, String, arith,
}
use proj8315server.World.{World}
use proj8315server.World.Loops.{Returns, Returns->>=, Returns-some, Returns-weaken}
use proj8315server.World.Frames.{IsSafe}
use proj8315server.World.Spawning.{KeptSafe}
use proj8315server.World.Spawn.{spawn_object_named}
use proj8315server.Common.{Common}
use proj8315server.Database.{Rows, QueryResult, ok}
use proj8315server.Library.{
  Loading, info_of, to_byte, entry_at, entries_from, get_array, load_obj_info_db, action_slot,
}
use proj8315server.Generation.{Gen, Random}
use proj8315server.Generation.Temperature.{distance}
use proj8315server.Generation.Temperature.Scores.{exact}
use proj8315server.Generation.Environment.{is_water}
use proj8315server.Generation.Environment.Planting.{spawn_object_named-IsSafe}
use proj8315server.Generation.Composition.{generate_world}
use proj8315server.Generation.Composition.Laws.{GenLaws, generate_world-IsSafe}
use proj8315server.Generation.Composition.Null.{generate_world-Refines}
use proj8315server.Start.{
  empty_world, game_plan, spawn_test_units, load_factions, ensure_neutral, NewGame, new_game,
}

entries_from-speeds :
    (L : Loading) (rows : Rows) (slots : List (List String)) (i n m : ℕ)
    → ((j : ℕ) → j < m → to_byte (rows.int_at j 4) < 3)
    → i + n ≤ m
    → All (λ e. e.speed < 3) (map info_of (entries_from L rows slots i n))
unfolding entries_from entry_at
entries_from-speeds L rows slots i zero m slow le = tt
entries_from-speeds L rows slots i (suc n) m slow le = (
  slow i (omega (arith, le)),
  entries_from-speeds L rows slots (i + 1) n m slow (omega (arith, le)),
)

length-entries_from :
    (L : Loading) (rows : Rows) (slots : List (List String)) (i n : ℕ)
    → length (map info_of (entries_from L rows slots i n)) ≡ n
unfolding entries_from
length-entries_from L rows slots i zero = refl
length-entries_from L rows slots i (suc n) = ap suc (length-entries_from L rows slots (i + 1) n)

near_rows : (w y : ℕ) → w ≤ exact → y < w → distance (pos y -ℤ pos 128) ≤ exact
unfolding distance ◌-ℤ◌
near_rows w y le lt = ground (arith, le, lt)

-- The answer to the query for the objects: rows, at least one, whose speeds are known to the movement.
pub record IsStocked (q : QueryResult) : Type 0 where
  pub succeeded : q.status ≡ ok
  pub rows : 0 < q.result.size
  pub slow : (i : ℕ) → i < q.result.size → to_byte (q.result.int_at i 4) < 3

module _ (G : Gen) (L : Loading) where
  empty_world-IsSafe :
      (w : ℕ) (q : QueryResult) → 0 < w → IsStocked q → IsSafe (empty_world G L w q)
  unfolding empty_world load_obj_info_db
  empty_world-IsSafe w q wide stocked =
      let N = record L { env = G.env } in
      let rows = q.result in
      let slots = get_array N (action_slot N) 0 rows.size in
      rw (stocked.succeeded, empty_world)
        (record {
          ready = record {
            size = length-replicate (w * w) 0;
            wide = wide;
            typed = rw (length-entries_from N rows slots 0 rows.size) (stocked.rows);
            speeds =
                entries_from-speeds N rows slots 0 rows.size rows.size stocked.slow (omega arith);
          };
          placed = tt;
        })

module _ (G : Gen) where
  spawn_test_units-IsSafe :
      (n w : ℕ) (g : World) (r : Random) (units : List ℕ)
      → IsSafe g
      → 0 < w
      → Returns (λ t. KeptSafe g t.0) (spawn_test_units G n w g r units)
  unfolding spawn_test_units
  spawn_test_units-IsSafe zero w g r units safe wide = (safe, refl)
  spawn_test_units-IsSafe (suc n) w g r units safe wide =
      let divisible : (w == 0) ≡ false = ground arith in
      rw (divisible, spawn_test_units)
        (Returns->>= {T = World × Random × List ℕ} (λ s. KeptSafe g s.0) (λ t. KeptSafe g t.0)
          (spawn_object_named G.env g (pos _) (pos _) "Unit Test" "Neutral") _
          (spawn_object_named-IsSafe G g safe _ _ "Unit Test" "Neutral")
          (λ s kept.
            Returns-weaken (λ t. KeptSafe s.0 t.0) (λ t. KeptSafe g t.0) _
              (spawn_test_units-IsSafe n w s.0 _ _ kept.0 wide) (λ t h. (h.0, h.1 ∙ kept.1))))

-- The constructor of Game, where the answer to the query for the objects is stocked, the parameters
-- keep the laws of `GenLaws`, a tile of 0 is not water, the width is from 64 to 2^24 and
-- the fuel is enough: either the generators fault, called without a neutral faction, or it ends
-- without a fault in a safe world of the width.
pub new_game-IsSafe :
    (C : Common) (G : Gen) (L : Loading) (flood_fuel wave_fuel w : ℕ)
    (objects_result factions_result : QueryResult)
    → GenLaws G
    → IsStocked objects_result
    → is_water G 0 ≡ false
    → 64 ≤ w
    → w ≤ exact
    → 255 * (5 * (w * w) + 2) + 5 * (w * w) + 1 < flood_fuel
    → w * w + 1 < wave_fuel
    → (generate_world G (game_plan flood_fuel wave_fuel) none (empty_world G L w objects_result)
        ≡ none)
      ⊎ ((n : NewGame C) × (new_game C G L flood_fuel wave_fuel w objects_result factions_result
            ≡ some (some n))
          × IsSafe n.world
          × (n.world.world_width ≡ w))
unfolding new_game empty_world
new_game-IsSafe C G L flood_fuel wave_fuel w objects_result factions_result laws stocked dry wide
      near enough enough' =
    let plan = game_plan flood_fuel wave_fuel in
    let start = empty_world G L w objects_result in
    let (h, r, made, kept) =
      generate_world-IsSafe G plan "Neutral" start laws
        (empty_world-IsSafe G L w objects_result (omega (arith, wide)) stocked) wide (omega arith)
        (λ i t at. rw (get_elem?-replicate (w * w) 0 i t at) dry) (λ y lt. near_rows w y near lt)
        enough enough' in
    elim (generate_world-Refines G plan "Neutral" start) [
      | inl e ↦ inl e
      | inr e ↦
          let (t, spawned, safe) =
            Returns-some (λ t. KeptSafe h t.0) (spawn_test_units G 1000 w h r [])
              (spawn_test_units-IsSafe G 1000 w h r [] kept.0 (omega (arith, wide))) in
          let n : NewGame C = record {
            world = t.0;
            random = t.1;
            factions =
                ensure_neutral C
                  (load_factions C factions_result.result 0 factions_result.result.size []);
            test_units = t.2;
          } in
          inr (n, rw (e ∙ made, spawned, new_game) refl, safe.0, safe.1 ∙ kept.1)
    ]
