-- ===== src/World/Areas.antt =====
-- Laws of the area write of an administrator: src/game/Game.cpp.
use proj8315server.Base.{
  ℕ, zero, suc, ◌+◌, ◌*◌, ◌^◌, ◌≤◌, ◌<◌, ◌≡◌, refl, sym, subst, ◌∙◌, true, ◌&&◌, Option, none, some,
  List, length, length-set, get_elem?-some, lt→ltb, Bool-cases, Option-cases, inl, inr, ℤ, pos,
  negsuc, pos_part, neg_part, ◌+ℤ◌, ◌-ℤ◌, ◌*ℤ◌, arith,
}
use native.Mathlib.Nat.{mul-le-mul_right}
use proj8315server.World.{Env, World, area, tile_index, is_int, index_fits, checked}
use proj8315server.World.Loops.{for_range, Returns, Returns->>=, Returns-some}
use proj8315server.World.Terrain.{shape_tile, shape_at, bounds_fit, shape_area, set_tile_area}
use proj8315server.World.Safety.{checked-some}
use proj8315server.World.Frames.{IsSafe}

-- How far an integer is from 0.
abbrev pub magnitude : ℤ → ℕ
magnitude (pos n) = n
magnitude (negsuc n) = suc n

magnitude-is_int : (i : ℤ) → magnitude i < 2 ^ 31 → is_int i ≡ true
magnitude-is_int (pos n) h = lt→ltb n (2 ^ 31) h
magnitude-is_int (negsuc n) h = lt→ltb n (2 ^ 31) (omega arith)

magnitude-plus : (i j : ℤ) → magnitude (i +ℤ j) ≤ magnitude i + magnitude j
unfolding ◌+ℤ◌
magnitude-plus (pos m) (pos n) = ground arith
magnitude-plus (pos m) (negsuc n) = ground arith
magnitude-plus (negsuc m) (pos n) = ground arith
magnitude-plus (negsuc m) (negsuc n) = ground arith

magnitude-minus : (i : ℤ) (n : ℕ) → magnitude (i -ℤ pos n) ≤ magnitude i + n
unfolding ◌-ℤ◌
magnitude-minus (pos m) n = ground arith
magnitude-minus (negsuc m) n = ground arith

magnitude-times : (i : ℤ) (n : ℕ) → magnitude (i *ℤ n) ≤ magnitude i * n
unfolding ◌*ℤ◌
magnitude-times (pos m) n = ground arith
magnitude-times (negsuc m) n = ground arith

-- The index of a place whose parts are both within 2^30 is computed without an overflow.
near-index_fits :
    (w : ℕ) (x z : ℤ) → magnitude x < 2 ^ 30 → magnitude z * w ≤ 2 ^ 30 → index_fits w x z ≡ true
unfolding index_fits tile_index
near-index_fits w x z hx hz =
    let t = magnitude-times z w in
    let s = magnitude-plus x (z *ℤ w) in
    rw
      (
        magnitude-is_int (z *ℤ w) (omega (arith, t)),
        magnitude-is_int (x +ℤ z *ℤ w) (omega (arith, t, s)),
      )
      refl

-- At a place with n rounds to go, all of them within b of 0.
abbrev Ahead : ℕ → ℕ → ℤ → Type 0
Ahead b n i = (neg_part i ≤ b) × (pos_part i + n ≤ b + 1 + neg_part i)

Ahead-magnitude : (b n : ℕ) (i : ℤ) → Ahead b (suc n) i → magnitude i ≤ b
Ahead-magnitude b n (pos m) h = omega (arith, h.1)
Ahead-magnitude b n (negsuc m) h = omega (arith, h.0)

Ahead-next : (b n : ℕ) (i : ℤ) → Ahead b (suc n) i → Ahead b n (i +ℤ pos 1)
unfolding ◌+ℤ◌
Ahead-next b n (pos m) h = ground (arith, h.0, h.1)
Ahead-next b n (negsuc m) h = ground (arith, h.0, h.1)

Ahead-first : (r : ℕ) (c : ℤ) → Ahead (magnitude c + r) (r + r + 1) (c -ℤ pos r)
unfolding ◌-ℤ◌
Ahead-first r (pos m) = ground arith
Ahead-first r (negsuc m) = ground arith

-- The rule of a loop whose rounds are all within b of 0.
for_range-Ahead :
    {S : Type 0} (P : S → Type 0) (b : ℕ) (body : ℤ → S → Option S)
    → ((i : ℤ) (s : S) → magnitude i ≤ b → P s → Returns P (body i s))
    → (n : ℕ) (i : ℤ) (s : S) → Ahead b n i
    → P s
    → Returns P (for_range i n body s)
unfolding for_range
for_range-Ahead P b body keep zero i s a h = h
for_range-Ahead P b body keep (suc n) i s a h =
    Returns->>= P P (body i s) _ (keep i s (Ahead-magnitude b n i a) h)
      (λ t k. for_range-Ahead P b body keep n (i +ℤ pos 1) t (Ahead-next b n i a) k)

module _ (E : Env) (g : World) (f : ℕ → ℕ) where
  abbrev Sized : List ℕ → Type 0
  Sized ts = length ts ≡ area g

  shape_at-Sized :
      (z x : ℤ) (ts : List ℕ)
      → index_fits g.world_width x z ≡ true
      → Sized ts
      → Returns Sized (shape_at E g f z x ts)
  unfolding shape_at
  shape_at-Sized z x ts fits h =
      elim (Option-cases (checked (area g) (tile_index g.world_width x z))) [
        | inl e ↦ rw (fits, e, shape_at) h
        | inr (i, e) ↦
            let at = checked-some (area g) (tile_index g.world_width x z) i e in
            let there : i < length ts = rw h at.1 in
            let t = get_elem?-some ts i there in
            rw (fits, e, shape_at, t.1, lt→ltb i (length ts) there) (length-set ts i _ ∙ h)
      ]

  bounds_fit-near : (r : ℕ) (c : ℤ) → magnitude c + r < 2 ^ 30 → bounds_fit r c ≡ true
  bounds_fit-near r c h =
      let low = magnitude-minus c r in
      let high = magnitude-plus c (pos (r + 1)) in
      rw
        (
          magnitude-is_int (c -ℤ pos r) (omega (arith, low)),
          magnitude-is_int (c +ℤ pos (r + 1)) (omega (arith, high)),
        )
        refl

  shape_area-Sized :
      (radius : ℕ) (x z : ℤ)
      → magnitude x + radius < 2 ^ 30
      → magnitude z + radius < 2 ^ 30
      → (magnitude z + radius) * g.world_width ≤ 2 ^ 30
      → Sized g.tiles
      → Returns Sized (shape_area E g radius x z f)
  unfolding shape_area
  shape_area-Sized radius x z hx hz hw h =
      rw (bounds_fit-near radius x hx, bounds_fit-near radius z hz)
        (for_range-Ahead Sized (magnitude z + radius) _
          (λ j ts near k.
            for_range-Ahead Sized (magnitude x + radius) (shape_at E g f j)
              (λ i us close l.
                shape_at-Sized j i us
                  (near-index_fits g.world_width i j (omega (arith, close))
                    (omega (arith, mul-le-mul_right g.world_width near, hw)))
                  l)
              _ _ ts (Ahead-first radius x) k)
          _ _ g.tiles (Ahead-first radius z) h)

-- In a safe world, where the centre's x and z and the radius, and its z times the width, are within
-- 2^30, the area write of an administrator ends without a fault or an overflow for any values, on the
-- map or not, and the world after it is safe, with the same objects and object library.
pub set_tile_area-IsSafe :
    (E : Env) (g : World) (radius : ℕ) (x z : ℤ) (elevation temperature terrain_type : ℕ)
    → IsSafe g
    → magnitude x + radius < 2 ^ 30
    → magnitude z + radius < 2 ^ 30
    → (magnitude z + radius) * g.world_width ≤ 2 ^ 30
    → (h : World) × (set_tile_area E g radius x z elevation temperature terrain_type ≡ some h)
      × IsSafe h
      × (h.objects ≡ g.objects)
      × (h.object_info ≡ g.object_info)
unfolding set_tile_area
set_tile_area-IsSafe E g radius x z elevation temperature terrain_type safe hx hz hw =
    let f = shape_tile E elevation temperature terrain_type in
    let r = safe.ready in
    let (ts, e, sized) =
      Returns-some _ (shape_area E g radius x z f)
        (shape_area-Sized E g f radius x z hx hz hw r.size) in
    (
      record g { tiles = ts },
      rw (e, set_tile_area),
      record {
        ready = record { size = sized; wide = r.wide; typed = r.typed; speeds = r.speeds };
        placed = safe.placed;
      },
      refl,
      refl,
    )

for_range-Holds :
    {S : Type 0} (P : S → Type 0) (body : ℤ → S → Option S)
    → ((i : ℤ) (s t : S) → body i s ≡ some t → P s → P t)
    → (n : ℕ) (i : ℤ) (s t : S) → for_range i n body s ≡ some t
    → P s
    → P t
unfolding for_range
for_range-Holds P body keep zero i s t e h = let eq : s ≡ t = cc in subst P eq h
for_range-Holds P body keep (suc n) i s t e h = elim (Option-cases (body i s)) [
  | inl f ↦ let gone : none ≡ some t = rw f at e in cc
  | inr (u, f) ↦ for_range-Holds P body keep n (i +ℤ pos 1) u t (rw f at e) (keep i s u f h)
]

module _ (E : Env) (g : World) (f : ℕ → ℕ) where
  shape_at-Holds :
      (z x : ℤ) (ts us : List ℕ) → shape_at E g f z x ts ≡ some us → Sized E g f ts → Sized E g f us
  unfolding shape_at
  shape_at-Holds z x ts us e h = elim (Bool-cases (index_fits g.world_width x z)) [
    | inr over ↦ let gone : none ≡ some us = rw (over, shape_at) at e in cc
    | inl fits ↦
        let (vs, run, sized) =
          Returns-some _ (shape_at E g f z x ts) (shape_at-Sized E g f z x ts fits h) in
        let same : some vs ≡ some us = sym run ∙ e in let eq : vs ≡ us = cc in rw (← eq) sized
  ]

  shape_area-Holds :
      (radius : ℕ) (x z : ℤ) (ts : List ℕ)
      → shape_area E g radius x z f ≡ some ts
      → Sized E g f g.tiles
      → Sized E g f ts
  unfolding shape_area
  shape_area-Holds radius x z ts e h =
      elim (Bool-cases (bounds_fit radius x && bounds_fit radius z)) [
        | inr over ↦ let gone : none ≡ some ts = rw (over, shape_area) at e in cc
        | inl fits ↦
            for_range-Holds (Sized E g f) _
              (λ j us vs run k.
                for_range-Holds (Sized E g f) (shape_at E g f j) (shape_at-Holds j) _ _ us vs run k)
              _ _ g.tiles ts (rw (fits, shape_area) at e) h
      ]

-- An area write that ends without a fault leaves a safe world safe, for any centre.
pub set_tile_area-Holds :
    (E : Env) (g : World) (radius : ℕ) (x z : ℤ) (elevation temperature terrain_type : ℕ)
    (h : World)
    → set_tile_area E g radius x z elevation temperature terrain_type ≡ some h
    → IsSafe g
    → IsSafe h
unfolding set_tile_area
set_tile_area-Holds E g radius x z elevation temperature terrain_type h e safe =
    let f = shape_tile E elevation temperature terrain_type in
    let r = safe.ready in
    elim (Option-cases (shape_area E g radius x z f)) [
      | inl lost ↦ let gone : none ≡ some h = rw (lost, set_tile_area) at e in cc
      | inr (ts, run) ↦
          let same : some (record g { tiles = ts }) ≡ some h = rw (run, set_tile_area) at e in
          let eq : record g { tiles = ts } ≡ h = cc in
          rw (← eq) (record {
            ready = record {
              size = shape_area-Holds E g f radius x z ts run r.size;
              wide = r.wide;
              typed = r.typed;
              speeds = r.speeds;
            };
            placed = safe.placed;
          })
    ]
