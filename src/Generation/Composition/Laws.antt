-- ===== src/Generation/Composition/Laws.antt =====
-- Laws of a new world: src/game/world/WorldGenerator.cpp.
use native.Mathlib.Nat.{mod-lt}
use proj8315server.Base.{
  ℕ, zero, suc, ◌+◌, ◌*◌, ◌≤◌, ◌<◌, ◌≡◌, ◌≢◌, refl, sym, ap, ◌∙◌, inl, inr, Bool, true, false,
  Option, none, some, List, [], length, get_elem?, All, ◌==◌, ==_iff, lt→ltb, pos, ◌-ℤ◌, ◌>>=◌,
  String, Dict, arith, Pointwise, Pointwise-back, length-Pointwise,
}
use proj8315server.World.{World, area}
use proj8315server.World.Loops.{Returns, Returns->>=, Returns-some}
use proj8315server.World.Frames.{IsSafe}
use proj8315server.World.Spawning.{KeptSafe}
use proj8315server.Water.{Node, on_map, generate_world_waters, number_eq}
use proj8315server.Water.Pools.{generate_world_waters-ends}
use proj8315server.Water.Sizes.{Pooled, generate_world_waters-Pooled}
use proj8315server.Generation.{Gen, Random, draw, srand, rock, water, dirt, dunes}
use proj8315server.Generation.Elevation.Laws.{Raised, generate_world_elevation-Raised}
use proj8315server.Generation.Cliffs.Laws.{GroundLaws, Weathered, generate_world_cliffs-Weathered}
use proj8315server.Generation.Temperature.{distance}
use proj8315server.Generation.Temperature.Scores.{exact, FloatLaws}
use proj8315server.Generation.Temperature.Laws.{
  ClimateLaws, Heated, generate_temperature_effect-Heated,
}
use proj8315server.Generation.Environment.{is_water}
use proj8315server.Generation.Environment.Laws.{WalkLaw, generate_environment-IsSafe}
use proj8315server.Generation.Composition.{Plan, draw_starts, finish_world, generate_world}

-- The laws of the generators together, and that water is not what they put in its place.
pub record GenLaws (G : Gen) : Type 0 where
  pub ground : GroundLaws G
  pub climate : ClimateLaws G
  pub floats : FloatLaws G
  pub walk : WalkLaw G
  pub not_rock : G.ground rock ≢ G.ground water
  pub not_dirt : G.ground dirt ≢ G.ground water
  pub not_dunes : G.ground dunes ≢ G.ground water

draw_starts-Returns :
    (G : Gen) (w n : ℕ) (r : Random)
    → 0 < w
    → Returns (λ s. All (λ n. on_map w n ≡ true) s.0) (draw_starts G w n r)
unfolding draw_starts
draw_starts-Returns G w zero r wide = tt
draw_starts-Returns G w (suc n) r wide =
    let divisible : (w == 0) ≡ false = ground arith in
    let there = lt→ltb _ w (mod-lt (draw G r).0 wide) in
    let there' = lt→ltb _ w (mod-lt (draw G (draw G r).1).0 wide) in
    rw (divisible, draw_starts)
      (Returns->>= (λ s. All (λ n. on_map w n ≡ true) s.0) (λ s. All (λ n. on_map w n ≡ true) s.0)
        (draw_starts G w n (draw G (draw G r).1).1) _
        (draw_starts-Returns G w n (draw G (draw G r).1).1 wide)
        (λ s h. (rw (there, there') refl, h)))

-- Sizes stay those of the water where no tile turns to water.
Pooled-Pointwise :
    (is_water : ℕ → Bool) (R : ℕ → ℕ → Type 0) (ts us : List ℕ) (sizes : Dict ℕ ℕ)
    → ((a b : ℕ) → R a b → is_water b ≡ true → is_water a ≡ true)
    → Pointwise R ts us
    → Pooled is_water ts sizes
    → Pooled is_water us sizes
Pooled-Pointwise is_water R ts us sizes keeps h k i t at wet =
    let (a, before, r) = Pointwise-back R ts us i t at h in k i a before (keeps a t r wet)

module _ (G : Gen) (laws : GenLaws G) where
  wet-Raised : (a b : ℕ) → Raised G a b → is_water G b ≡ true → is_water G a ≡ true
  wet-Raised a b (h, e) wet =
      let same : G.terrtype b ≡ G.terrtype a = ap G.terrtype e ∙ laws.ground.raised a h in
      rw (← same) wet

  wet-Weathered : (a b : ℕ) → Weathered G a b → is_water G b ≡ true → is_water G a ≡ true
  wet-Weathered a b (inl e) wet = rw (← e) wet
  wet-Weathered a b (inr (inl e)) wet =
      absurd (laws.not_rock (sym e ∙ (==_iff (G.terrtype b) (G.ground water)).0 wet))
  wet-Weathered a b (inr (inr e)) wet =
      absurd (laws.not_dirt (sym e ∙ (==_iff (G.terrtype b) (G.ground water)).0 wet))

  wet-Heated : (a b : ℕ) → Heated G a b → is_water G b ≡ true → is_water G a ≡ true
  wet-Heated a b h wet = elim h.1 [
    | inl e ↦ rw (← e) wet
    | inr d ↦ absurd (laws.not_dunes (sym d.0 ∙ (==_iff (G.terrtype b) (G.ground water)).0 wet))
  ]

  module _ (p : Plan) (faction : String) where
    -- A world is complete, and safe, and as wide as before.
    abbrev Complete : World → Option (World × Random) → Type 0
    Complete g o = Returns {S = World × Random} (λ s. KeptSafe g s.0) o

    finish_world-Complete :
        (g : World) (ts : List ℕ) (sizes : Dict ℕ ℕ) (r : Random)
        → IsSafe g
        → length ts ≡ area g
        → Pooled (is_water G) ts sizes
        → ((y : ℕ) → y < g.world_width → distance (pos y -ℤ p.equator) ≤ exact)
        → area g + 1 < p.wave_fuel
        → Returns (Complete g) (finish_world G p (some faction) g ts sizes r)
    unfolding finish_world
    finish_world-Complete g ts sizes r safe size pooled near enough =
        let (l, e, sized, weathered) =
          generate_world_cliffs-Weathered G g.world_width 4 ts r laws.ground size in
        let (vs, f, heated) =
          generate_temperature_effect-Heated G g.world_width p.equator l.0 laws.floats laws.climate
            sized near in
        let ready = safe.ready in
        let long : length vs ≡ area g = length-Pointwise (Heated G) l.0 vs heated ∙ sized in
        let safe' : IsSafe (record g { tiles = vs }) = record {
          ready = record {
            size = long;
            wide = ready.wide;
            typed = ready.typed;
            speeds = ready.speeds;
          };
          placed = safe.placed;
        } in
        let wet = Pooled-Pointwise (is_water G) (Heated G) l.0 vs sizes wet-Heated heated (
          Pooled-Pointwise (is_water G) (Weathered G) ts l.0 sizes wet-Weathered weathered
            pooled) in
        let (h, r', done, kept) =
          generate_environment-IsSafe G g.world_width p.wave_fuel faction p.manager sizes
            (record g { tiles = vs }) l.1 laws.walk safe' refl wet enough in
        rw (e, f, done, finish_world) kept

    make_waters :
        (g : World) (ts : List ℕ) (starts : List Node) (r : Random)
        → IsSafe g
        → length ts ≡ area g
        → Pooled (is_water G) ts []
        → All (λ n. on_map g.world_width n ≡ true) starts
        → ((y : ℕ) → y < g.world_width → distance (pos y -ℤ p.equator) ≤ exact)
        → 255 * (5 * area g + 2) + 5 * area g + 1 < p.flood_fuel
        → area g + 1 < p.wave_fuel
        → Returns (Complete g) (
            generate_world_waters G.env (G.ground water) g.world_width p.flood_fuel starts ts []
            >>= λ made. elim made [
              | none ↦ some none
              | some (us, sizes) ↦ finish_world G p (some faction) g us sizes r
            ])
    make_waters g ts starts r safe size dry there near enough enough' =
        let (us, sizes, e, sized) =
          generate_world_waters-ends G.env (G.ground water) g.world_width p.flood_fuel starts ts []
            laws.climate.low there size enough in
        let pooled =
          generate_world_waters-Pooled G.env (is_water G) (G.ground water) g.world_width
            p.flood_fuel starts ts us [] sizes dry e in
        rw e (finish_world-Complete g us sizes r safe sized pooled near enough')

    generate_world-Complete :
        (g : World)
        → IsSafe g
        → 64 ≤ g.world_width
        → 0 < p.max
        → ((i t : ℕ) → get_elem? g.tiles i ≡ some t → is_water G t ≡ false)
        → ((y : ℕ) → y < g.world_width → distance (pos y -ℤ p.equator) ≤ exact)
        → 255 * (5 * area g + 2) + 5 * area g + 1 < p.flood_fuel
        → area g + 1 < p.wave_fuel
        → Returns (Complete g) (generate_world G p (some faction) g)
    unfolding generate_world
    generate_world-Complete g safe wide high dry near enough enough' =
        let (ts, r0, e, raised) =
          generate_world_elevation-Raised G g.world_width p.max p.seed g.tiles wide high
            safe.ready.size in
        let sized : length ts ≡ area g =
          length-Pointwise (Raised G) g.tiles ts raised ∙ safe.ready.size in
        let unwatered : Pooled (is_water G) g.tiles [] =
          λ i t at wet. absurd (ground (arith, wet, dry i t at)) in
        let still_dry =
          Pooled-Pointwise (is_water G) (Raised G) g.tiles ts [] wet-Raised raised unwatered in
        rw (e, generate_world)
          (Returns->>= (λ s. All (λ n. on_map g.world_width n ≡ true) s.0) (Complete g)
            (draw_starts G g.world_width 2048 (srand 666)) _
            (draw_starts-Returns G g.world_width 2048 (srand 666) (omega (arith, wide)))
            (λ s there. make_waters g ts s.0 s.1 safe sized still_dry there near enough enough'))

-- Where the parameters keep the laws of `GenLaws`, in a safe world without water, at least 64 wide and
-- with no row further than 2^24 from the equator, with a maximum elevation above 0, a neutral faction
-- and enough fuel for the pools and the waves, making the world ends without a fault,
-- in a safe world of the same width.
pub generate_world-IsSafe :
    (G : Gen) (p : Plan) (faction : String) (g : World)
    → GenLaws G
    → IsSafe g
    → 64 ≤ g.world_width
    → 0 < p.max
    → ((i t : ℕ) → get_elem? g.tiles i ≡ some t → is_water G t ≡ false)
    → ((y : ℕ) → y < g.world_width → distance (pos y -ℤ p.equator) ≤ exact)
    → 255 * (5 * area g + 2) + 5 * area g + 1 < p.flood_fuel
    → area g + 1 < p.wave_fuel
    → (h : World) × (r : Random) × (generate_world G p (some faction) g ≡ some (some (h, r)))
      × KeptSafe g h
generate_world-IsSafe G p faction g laws safe wide high dry near enough enough' =
    let (o, e, done) =
      Returns-some (Complete G laws p faction g) _
        (generate_world-Complete G laws p faction g safe wide high dry near enough enough') in
    let (s, f, kept) = Returns-some {S = World × Random} (λ s. KeptSafe g s.0) o done in
    (s.0, s.1, e ∙ ap some f, kept)
