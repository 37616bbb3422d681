-- ===== src/Generation/Environment/Planting.antt =====
-- Laws of planting and of sets of tiles: src/game/world/EnvironmentGenerator.cpp.
use proj8315server.Base.{
  ℕ, ◌/◌, ◌%◌, ◌<◌, ◌≡◌, refl, sym, ◌∙◌, ◌⊎◌, inl, inr, Bool, true, false, ◌||◌, some, List, [],
  ◌∷◌, ◌==◌, ==_iff, leb, length, length-set, set, get_elem?-some, lt→ltb, Bool-cases, Option-cases,
  pos, if◌then◌else◌, ◌>>=◌, String, arith,
}
use proj8315server.World.{World, ObjectInfo, area, get_obj_info_named, find_named, write_tile}
use proj8315server.World.Loops.{Returns, Returns->>=}
use proj8315server.World.Spawn.{spawn_object_named, spawn_object_raw}
use proj8315server.World.Frames.{IsSafe}
use proj8315server.World.Spawning.{KeptSafe, spawn_object_raw-IsSafe}
use proj8315server.Generation.{Gen, Random, draw}
use proj8315server.Generation.Environment.{
  has, insert, insert_all, erase_all, plant_name, attempt_plant_environment_object,
}

pub has-insert : (i v : ℕ) (us : List ℕ) → has i (insert v us) ≡ true → (i ≡ v) ⊎ (has i us ≡ true)
has-insert i v us h = elim (Bool-cases (has v us)) [
  | inl e ↦ inr (rw e at h)
  | inr e ↦
      let other : (v == i || has i us) ≡ true = rw e at h in
      elim (Bool-cases (v == i)) [
        | inl f ↦ inl (sym ((==_iff v i).0 f))
        | inr f ↦ inr (rw f at other)
      ]
]

pub insert-has : (i v : ℕ) (us : List ℕ) → (i ≡ v) ⊎ (has i us ≡ true) → has i (insert v us) ≡ true
insert-has i v us (inl e) = elim (Bool-cases (has v us)) [
  | inl f ↦ rw (e, f) f
  | inr f ↦ rw (e, f, (==_iff v v).1 refl)
]
insert-has i v us (inr h) = elim (Bool-cases (has v us)) [
  | inl f ↦ rw f h
  | inr f ↦ rw (f, h) (ground arith)
]

pub has-insert_all :
    (i : ℕ) (vs us : List ℕ)
    → has i (insert_all vs us) ≡ true
    → (has i vs ≡ true) ⊎ (has i us ≡ true)
has-insert_all i [] us h = inr h
has-insert_all i (v ∷ vs) us h = elim (has-insert_all i vs (insert v us) h) [
  | inl e ↦ inl (ground (arith, e))
  | inr e ↦ elim (has-insert i v us e) [
    | inl f ↦ inl (ground (arith, ==_iff v i, f))
    | inr f ↦ inr f
  ]
]

pub has-erase_all :
    (i : ℕ) (vs us : List ℕ)
    → has i (erase_all vs us) ≡ true
    → (has i us ≡ true) × (has i vs ≡ false)
has-erase_all i vs [] h = absurd cc
has-erase_all i vs (u ∷ us) h = elim (Bool-cases (has u vs)) [
  | inl e ↦ let r = has-erase_all i vs us (rw e at h) in (ground (arith, r.0), r.1)
  | inr e ↦
      let other : (u == i || has i (erase_all vs us)) ≡ true = rw e at h in
      elim (Bool-cases (u == i)) [
        | inl f ↦ (rw f refl, rw (← (==_iff u i).0 f) e)
        | inr f ↦ let r = has-erase_all i vs us (rw f at other) in (ground (arith, r.0), r.1)
      ]
]

-- A write of a tile keeps a world safe.
pub write_tile-IsSafe :
    (g : World) (i v : ℕ)
    → IsSafe g
    → i < area g
    → (h : World) × (write_tile g (pos i) v ≡ some h) × KeptSafe g h
write_tile-IsSafe g i v safe lt =
    let r = safe.ready in
    (
      record g { tiles = set g.tiles i v },
      rw (lt→ltb i (length g.tiles) (rw r.size lt)) refl,
      (
        record {
          ready = record {
            size = length-set g.tiles i v ∙ r.size;
            wide = r.wide;
            typed = r.typed;
            speeds = r.speeds;
          };
          placed = safe.placed;
        },
        refl,
      ),
    )

module _ (G : Gen) (g : World) (safe : IsSafe g) where
  pub spawn_object_named-IsSafe :
      (x y : ℕ) (name faction : String)
      → Returns (λ r. KeptSafe g r.0) (spawn_object_named G.env g (pos x) (pos y) name faction)
  unfolding spawn_object_named get_obj_info_named
  spawn_object_named-IsSafe x y name faction = elim (Option-cases (find_named name g.object_info)) [
    | inr (info, e) ↦ rw (e, spawn_object_named, get_obj_info_named) (chosen info)
    | inl e ↦
        let info = get_elem?-some g.object_info 0 safe.ready.typed in
        rw (e, spawn_object_named, get_obj_info_named, info.1) (chosen info.0)
  ]
    where
      chosen :
          (info : ObjectInfo)
          → Returns {S = World × Bool}
              (λ r. KeptSafe g r.0)
              (if info.initial_state == 0
                then some (g, false)
                else spawn_object_raw G.env g (pos x) (pos y) info.initial_state faction)
      chosen info = elim (Bool-cases (info.initial_state == 0)) [
        | inl e ↦ rw e (safe, refl)
        | inr e ↦
            rw e (spawn_object_raw-IsSafe G.env g (pos x) (pos y) faction safe info.initial_state)
      ]

  abbrev pub KeptPair {ℓ} : {A : Type ℓ} → World × A → Type 0
  KeptPair p = KeptSafe g p.0

  pub attempt_plant-IsSafe :
      (faction : String) (temperature w i : ℕ) (r : Random)
      → Returns KeptPair (attempt_plant_environment_object G (some faction) temperature w i g r)
  unfolding attempt_plant_environment_object
  attempt_plant-IsSafe faction temperature w i r = planted (leb 16 ((draw G r).0 % 20))
    where
      name : String
      name = (plant_name G temperature (draw G r).1).0

      r2 : Random
      r2 = (plant_name G temperature (draw G r).1).1

      planted :
          (b : Bool)
          → Returns KeptPair (
              if b
              then (spawn_object_named G.env g (pos (i % w)) (pos (i / w)) name faction >>= λ s.
                  some (s.0, r2))
              else some (g, r2))
      planted false = (safe, refl)
      planted true =
          Returns->>= KeptPair KeptPair
            (spawn_object_named G.env g (pos (i % w)) (pos (i / w)) name faction) _
            (spawn_object_named-IsSafe (i % w) (i / w) name faction) (λ s h. h)
