-- ===== src/World/Spawning/Cases.antt =====
-- What a spawn by type can come to: src/game/objects/ObjectManager.cpp.
use proj8315server.Base.{
  ℕ, ◌≡◌, sym, ◌∙◌, ◌⊎◌, inl, inr, Bool, true, false, Option, some, get_elem?, get_elem?-some, ◌==◌,
  ==_iff, Bool-cases, Option-cases, ℤ, pos, bit_or, String,
}
use proj8315server.World.{Env, ObjectInfo, World, area, tile_index, checked}
use proj8315server.World.Spawn.{spawn_object}
use proj8315server.World.Safety.{checked-some}
use proj8315server.World.Frames.{IsSafe}
use proj8315server.World.Spawning.{spawned, spawn_object_raw-free, taken, outside, spawn_object-raw}

-- The world after a spawn of a type at a place: a new object on a tile that held no thing.
abbrev pub IsSpawned : Env → World → ℤ → ℤ → ℕ → String → World → Type 0
IsSpawned E g x z type_id faction h =
    (info : ObjectInfo) × (get_elem? g.object_info type_id ≡ some info)
    × ((i : ℕ) × (t : ℕ) × (tile_index g.world_width x z ≡ pos i)
        × (get_elem? g.tiles i ≡ some t)
        × (E.thingid t ≡ 0)
        × (h ≡ spawned E g i x z (bit_or t info.initial_state) faction))

-- A spawn that ends without a fault changes nothing or makes one object.
pub spawn_object-cases :
    (E : Env) (g : World) (x z : ℤ) (type_id : ℕ) (faction : String) (h : World) (b : Bool)
    → IsSafe g
    → spawn_object E g x z type_id faction ≡ some (h, b)
    → (h ≡ g) ⊎ IsSpawned E g x z type_id faction h
spawn_object-cases E g x z type_id faction h b safe e =
    elim (spawn_object-raw E g x z type_id faction h b e) [
      | inl same ↦ let eq : h ≡ g = cc in inl eq
      | inr (info, found, run) ↦
          elim (Option-cases (checked (area g) (tile_index g.world_width x z))) [
            | inl off ↦
                let same : ◌≡◌ {A = Option (World × Bool)} (some (g, false)) (some (h, b)) =
                  sym (outside E g x z info.initial_state faction safe.ready.size off) ∙ run in
                let eq : h ≡ g = cc in inl eq
            | inr (i, on) ↦
                let at = checked-some (area g) (tile_index g.world_width x z) i on in
                let t = get_elem?-some g.tiles i (rw safe.ready.size at.1) in
                elim (Bool-cases (E.thingid t.0 == 0)) [
                  | inr full ↦
                      let same : ◌≡◌ {A = Option (World × Bool)} (some (g, false)) (some (h, b)) =
                        sym (
                          taken E g x z info.initial_state faction safe.ready.size i t.0 at.0 at.1
                            t.1 full)
                        ∙ run in
                      let eq : h ≡ g = cc in inl eq
                  | inl free ↦
                      let empty = (==_iff (E.thingid t.0) 0).0 free in
                      let same : ◌≡◌ {A = Option (World × Bool)}
                          (some (spawned E g i x z (bit_or t.0 info.initial_state) faction, true))
                          (some (h, b)) =
                        sym (
                          spawn_object_raw-free E g x z info.initial_state faction safe.ready.size i
                            t.0 at.0 at.1 t.1 empty)
                        ∙ run in
                      let eq : h ≡ spawned E g i x z (bit_or t.0 info.initial_state) faction = cc in
                      inr (info, found, (i, t.0, at.0, t.1, empty, eq))
                ]
          ]
    ]
