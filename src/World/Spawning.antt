-- ===== src/World/Spawning.antt =====
-- Laws of spawning: src/game/objects/ObjectManager.cpp.
pub mod Cases
use proj8315server.Base.{
  ℕ, length-append, ◌+◌, zero, suc, ◌≤◌, ◌<◌, ◌≡◌, ◌≢◌, refl, sym, ◌∙◌, ◌⊎◌, inl, inr, Bool, true,
  false, Option, none, some, List, [], ◌∷◌, ◌++◌, length, get_elem?, set, length-set, All-append,
  get_elem?-some, lt→ltb, ◌==◌, ==_iff, Bool-cases, Option-cases, ℤ, pos, bit_or, String, arith,
}
use proj8315server.World.{
  Env, ObjectInfo, World, area, tile_index, index_fits, checked, new_obj, get_tile_state_at,
  set_tile_state_at,
}
use proj8315server.World.Loops.{Returns}
use proj8315server.World.Spawn.{occupy, place_object, spawn_object_raw, spawn_object}
use proj8315server.World.Safety.{checked-some}
use proj8315server.World.Frames.{IsPlaced, IsSafe}

-- A safe world of the same width.
abbrev pub KeptSafe : World → World → Type 0
KeptSafe g h = IsSafe h × (h.world_width ≡ g.world_width)

-- The world after a spawn on tile i, whose state becomes `state`.
abbrev pub spawned : Env → World → ℕ → ℤ → ℤ → ℕ → String → World
spawned E g i x z state faction = record g {
  tiles = set g.tiles i state;
  objects = g.objects ++ new_obj E x z state faction ∷ [];
}

pub checked-pos : (n i : ℕ) → i < n → checked n (pos i) ≡ some i
checked-pos n i h = rw (lt→ltb i n h)

module _ (E : Env) (g : World) (x z : ℤ) (initial : ℕ) (faction : String)
    (size : length g.tiles ≡ area g) where
  occupy_lem :
      (i state : ℕ)
      → tile_index g.world_width x z ≡ pos i
      → i < area g
      → occupy E g x z state faction ≡ some (spawned E g i x z state faction, true)
  unfolding occupy set_tile_state_at
  occupy_lem i state e h =
      rw (e, lt→ltb i (area g) h, lt→ltb i (length g.tiles) (rw size h), set_tile_state_at)

  read_state :
      (i t : ℕ)
      → tile_index g.world_width x z ≡ pos i
      → i < area g
      → get_elem? g.tiles i ≡ some t
      → get_tile_state_at g (tile_index g.world_width x z) ≡ some t
  unfolding get_tile_state_at
  read_state i t e h found = rw (e, lt→ltb i (area g) h, get_tile_state_at) found

  in_world :
      (i : ℕ)
      → tile_index g.world_width x z ≡ pos i
      → i < area g
      → checked (area g) (tile_index g.world_width x z) ≡ some i
  in_world i e h = rw (e, lt→ltb i (area g) h)

  -- Where the tile array has its size, spawning on a free tile succeeds: the tile gets the object's initial state on top
  -- of its own, the object is appended, and nothing else of the world changes.
  pub spawn_object_raw-free :
      (i t : ℕ)
      → tile_index g.world_width x z ≡ pos i
      → i < area g
      → get_elem? g.tiles i ≡ some t
      → E.thingid t ≡ 0
      → spawn_object_raw E g x z initial faction
        ≡ some (spawned E g i x z (bit_or t initial) faction, true)
  unfolding spawn_object_raw place_object
  spawn_object_raw-free i t e h found free =
      rw
        (
          in_world i e h,
          read_state i t e h found,
          (==_iff (E.thingid t) 0).1 free,
          spawn_object_raw,
          place_object,
        )
        (occupy_lem i (bit_or t initial) e h)

  pub taken :
      (i t : ℕ)
      → tile_index g.world_width x z ≡ pos i
      → i < area g
      → get_elem? g.tiles i ≡ some t
      → (E.thingid t == 0) ≡ false
      → spawn_object_raw E g x z initial faction ≡ some (g, false)
  unfolding spawn_object_raw place_object
  taken i t e h found full =
      rw (in_world i e h, read_state i t e h found, full, spawn_object_raw, place_object)

  pub outside :
      checked (area g) (tile_index g.world_width x z) ≡ none
      → spawn_object_raw E g x z initial faction ≡ some (g, false)
  unfolding spawn_object_raw
  outside e = rw (e, spawn_object_raw)

module _ (E : Env) (g : World) (x z : ℤ) (faction : String) (safe : IsSafe g) where
  spawned-IsSafe :
      (i state : ℕ)
      → tile_index g.world_width x z ≡ pos i
      → i < area g
      → KeptSafe g (spawned E g i x z state faction)
  unfolding new_obj
  spawned-IsSafe i state e h = (
    record {
      ready = record {
        size = length-set g.tiles i state ∙ safe.ready.size;
        wide = safe.ready.wide;
        typed = safe.ready.typed;
        speeds = safe.ready.speeds;
      };
      placed =
          All-append (IsPlaced g.world_width) g.objects _ safe.placed
            (record { place = (i, e, h); orders = tt }, tt);
    },
    refl,
  )

  pub spawn_object_raw-IsSafe :
      (initial : ℕ) → Returns (λ r. KeptSafe g r.0) (spawn_object_raw E g x z initial faction)
  spawn_object_raw-IsSafe initial =
      elim (Option-cases (checked (area g) (tile_index g.world_width x z))) [
        | inl e ↦ rw (outside E g x z initial faction safe.ready.size e) (safe, refl)
        | inr (i, e) ↦
            let at = checked-some (area g) (tile_index g.world_width x z) i e in
            let t = get_elem?-some g.tiles i (rw safe.ready.size at.1) in
            elim (Bool-cases (E.thingid t.0 == 0)) [
              | inl free ↦
                  rw
                    (spawn_object_raw-free E g x z initial faction safe.ready.size i t.0 at.0 at.1
                      t.1 ((==_iff (E.thingid t.0) 0).0 free))
                    (spawned-IsSafe i _ at.0 at.1)
              | inr full ↦
                  rw (taken E g x z initial faction safe.ready.size i t.0 at.0 at.1 t.1 full)
                    (safe, refl)
            ]
      ]

  spawn_object_raw-grows :
      (initial : ℕ)
      → Returns
          (λ r. r.1 ≡ true → length r.0.objects ≡ length g.objects + 1)
          (spawn_object_raw E g x z initial faction)
  spawn_object_raw-grows initial =
      elim (Option-cases (checked (area g) (tile_index g.world_width x z))) [
        | inl e ↦ rw (outside E g x z initial faction safe.ready.size e) (λ b. cc)
        | inr (i, e) ↦
            let at = checked-some (area g) (tile_index g.world_width x z) i e in
            let t = get_elem?-some g.tiles i (rw safe.ready.size at.1) in
            elim (Bool-cases (E.thingid t.0 == 0)) [
              | inl free ↦
                  rw
                    (spawn_object_raw-free E g x z initial faction safe.ready.size i t.0 at.0 at.1
                      t.1 ((==_iff (E.thingid t.0) 0).0 free))
                    (λ b. length-append g.objects _)
              | inr full ↦
                  rw (taken E g x z initial faction safe.ready.size i t.0 at.0 at.1 t.1 full)
                    (λ b. cc)
            ]
      ]

-- In a safe world, spawning any type that the object library has, at any coordinates whose index is
-- computed without an overflow, on the map or not, ends without a fault in a safe world.
pub spawn_object-IsSafe :
    (E : Env) (g : World) (x z : ℤ) (type_id : ℕ) (faction : String)
    → IsSafe g
    → type_id < length g.object_info
    → index_fits g.world_width x z ≡ true
    → (h : World) × (b : Bool) × (spawn_object E g x z type_id faction ≡ some (h, b)) × IsSafe h
unfolding spawn_object
spawn_object-IsSafe E g x z type_id faction safe known fits = elim (Bool-cases (type_id == 0)) [
  | inl e ↦ (g, false, rw (e, spawn_object), safe)
  | inr e ↦
      let t = get_elem?-some g.object_info type_id known in
      let initial = t.0.initial_state in
      let run =
        returned (spawn_object_raw E g x z initial faction)
          (spawn_object_raw-IsSafe E g x z faction safe initial) in
      (run.0, run.1, rw (e, t.1, fits, spawn_object) run.2, run.3)
]
  where
    returned :
        (o : Option (World × Bool))
        → Returns (λ r. KeptSafe g r.0) o
        → (h : World) × (b : Bool) × (o ≡ some (h, b)) × IsSafe h
    returned none h = absurd h
    returned (some (h, b)) k = (h, b, refl, k.0)

-- A spawn that ends without a fault is refused for type 0, or is a spawn of a known type's state.
pub spawn_object-raw :
    (E : Env) (g : World) (x z : ℤ) (type_id : ℕ) (faction : String) (h : World) (b : Bool)
    → spawn_object E g x z type_id faction ≡ some (h, b)
    → ◌≡◌ {A = Option (World × Bool)} (some (g, false)) (some (h, b))
      ⊎ ((info : ObjectInfo) × (get_elem? g.object_info type_id ≡ some info)
          × (spawn_object_raw E g x z info.initial_state faction ≡ some (h, b)))
unfolding spawn_object
spawn_object-raw E g x z type_id faction h b e = elim (Bool-cases (type_id == 0)) [
  | inl e0 ↦ inl (rw (e0, spawn_object) at e)
  | inr e0 ↦ elim (Option-cases (get_elem? g.object_info type_id)) [
    | inl beyond ↦ absurd (no h b (rw (e0, beyond, spawn_object) at e))
    | inr (t, found) ↦ elim (Bool-cases (index_fits g.world_width x z)) [
      | inl fits ↦ inr (t, found, rw (e0, found, fits, spawn_object) at e)
      | inr beyond ↦ absurd (no h b (rw (e0, found, beyond, spawn_object) at e))
    ]
  ]
]
  where
    no : (h : World) (b : Bool) → ◌≡◌ {A = Option (World × Bool)} none (some (h, b)) → ⊥
    no h b e = cc

-- A spawn that ends without a fault leaves a safe world safe, whatever the type.
pub spawn_object-Holds :
    (E : Env) (g : World) (x z : ℤ) (type_id : ℕ) (faction : String) (h : World) (b : Bool)
    → spawn_object E g x z type_id faction ≡ some (h, b)
    → IsSafe g
    → IsSafe h
spawn_object-Holds E g x z type_id faction h b e safe =
    elim (spawn_object-raw E g x z type_id faction h b e) [
      | inl same ↦ let eq : g ≡ h = cc in rw (← eq) safe
      | inr (t, found, run) ↦
          let good : Returns {S = World × Bool} (λ r. KeptSafe g r.0) (some (h, b)) =
            rw run at (spawn_object_raw-IsSafe E g x z faction safe t.initial_state) in
          good.0
    ]

-- A spawn that succeeds adds one object.
pub spawn_object-grows :
    (E : Env) (g : World) (x z : ℤ) (type_id : ℕ) (faction : String) (h : World)
    → IsSafe g
    → spawn_object E g x z type_id faction ≡ some (h, true)
    → length h.objects ≡ length g.objects + 1
spawn_object-grows E g x z type_id faction h safe e =
    elim (spawn_object-raw E g x z type_id faction h true e) [
      | inl same ↦ let no : false ≡ true = cc in cc
      | inr (t, found, run) ↦
          let more : Returns {S = World × Bool}
              (λ r. r.1 ≡ true → length r.0.objects ≡ length g.objects + 1) (some (h, true)) =
            rw run at (spawn_object_raw-grows E g x z faction safe t.initial_state) in
          more refl
    ]

get_elem?-none : (ts : List ObjectInfo) (i : ℕ) → length ts ≤ i → get_elem? ts i ≡ none
get_elem?-none [] i h = refl
get_elem?-none (t ∷ ts) zero h = absurd (omega arith)
get_elem?-none (t ∷ ts) (suc i) h = get_elem?-none ts i (omega arith)

-- A type number that is not 0 and not below the size of the object library is a fault: the
-- library is read behind its end, at any place and in any world.
spawn_object-unknown :
    (E : Env) (g : World) (x z : ℤ) (type_id : ℕ) (faction : String)
    → type_id ≢ 0
    → length g.object_info ≤ type_id
    → spawn_object E g x z type_id faction ≡ none
unfolding spawn_object
spawn_object-unknown E g x z type_id faction given beyond =
    let other : (type_id == 0) ≡ false = ground arith in
    rw (other, get_elem?-none g.object_info type_id beyond, spawn_object)
