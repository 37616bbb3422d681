-- ===== src/Tests/Layouts.antt =====
-- A tile layout and numbers for the generators, which keep the laws that these rely on.
use native.Mathlib.Nat.{div-le_self}
use proj8315server.Base.{
  ℕ, ◌+◌, ◌-◌, ◌*◌, ◌/◌, ◌%◌, ◌≤◌, ◌<◌, refl, inl, inr, ◌==◌, ltb, if◌then◌else◌, Bool-cases,
  ==_iff, ℤ, pos, negsuc, arith,
}
use proj8315server.World.{
  Dir, dir_n, dir_ne, dir_e, dir_se, dir_s, dir_sw, dir_w, dir_nw, float_half,
}
use proj8315server.Generation.{
  Gen, Ground, Warmth, dirt, fertile, rock, water, dunes, freezing, cold, chilly, mild, warm, hot,
  burning,
}
use proj8315server.Generation.Cliffs.Laws.{GroundLaws}
use proj8315server.Generation.Temperature.Scores.{FloatLaws, Within}
use proj8315server.Generation.Temperature.Laws.{ClimateLaws}
use proj8315server.Generation.Composition.Laws.{GenLaws}
use proj8315server.Tests.Samples.{sample_env, dir_number}

abbrev pub ground_number : Ground → ℕ
ground_number dirt = 0
ground_number fertile = 1
ground_number rock = 2
ground_number water = 3
ground_number dunes = 4

abbrev pub warmth_number : Warmth → ℕ
warmth_number freezing = 0
warmth_number cold = 1
warmth_number chilly = 2
warmth_number mild = 3
warmth_number warm = 4
warmth_number hot = 5
warmth_number burning = 6

abbrev pub int_part : ℤ → ℕ
int_part (pos n) = n
int_part (negsuc n) = 0

-- From the lowest bits on: five for the elevation and three each for the ground and the temperature.
-- Floats are whole numbers.
abbrev pub sample_gen : Gen
sample_gen = record {
  env = record sample_env {
    thingid = λ t. t / 2048;
    terrelevation = λ t. t % 32;
    set_terrelevation = λ t v. t / 32 * 32 + v % 32;
    set_temperature = λ t v. t / 2048 * 2048 + v % 8 * 256 + t % 256;
    set_terrtype = λ t v. t / 256 * 256 + v % 8 * 32 + t % 32;
  };
  terrtype = λ t. t / 32 % 8;
  temperature = λ t. t / 256 % 8;
  ground = ground_number;
  warmth = warmth_number;
  rand = λ s k. (s + k * 7) % 32768;
  of_int = int_part;
  add = λ x y. x + y;
  sub = λ x y. x - y;
  mul = λ x y. if y == float_half then x / 2 else x * y;
  div = λ x y. x / y;
  less = ltb;
  to_int = pos;
  round_byte = λ x m. x * m % 256;
  floor = λ x. x;
  walk = λ us. us;
}

ground_small : (g : Ground) → ground_number g < 8
ground_small dirt = omega arith
ground_small fertile = omega arith
ground_small rock = omega arith
ground_small water = omega arith
ground_small dunes = omega arith

warmth_small : (h : Warmth) → warmth_number h < 8
warmth_small freezing = omega arith
warmth_small cold = omega arith
warmth_small chilly = omega arith
warmth_small mild = omega arith
warmth_small warm = omega arith
warmth_small hot = omega arith
warmth_small burning = omega arith

dir_small : (d : Dir) → dir_number d < 8
dir_small dir_n = omega arith
dir_small dir_ne = omega arith
dir_small dir_e = omega arith
dir_small dir_se = omega arith
dir_small dir_s = omega arith
dir_small dir_sw = omega arith
dir_small dir_w = omega arith
dir_small dir_nw = omega arith

pub sample-compass : (d : Dir) → sample_gen.env.dir_value d < 8
sample-compass = dir_small

pub sample-GroundLaws : GroundLaws sample_gen
sample-GroundLaws = record {
  compass = dir_small;
  typed = λ u g. omega (arith, ground_small g);
  raised = λ u h. omega arith;
}

pub sample-ClimateLaws : ClimateLaws sample_gen
sample-ClimateLaws = record {
  low = λ u. omega arith;
  warmed = λ u h. omega (arith, warmth_small h);
  grounded = λ u h. omega arith;
  covered = λ u g. omega arith;
  turned = λ u g. omega (arith, ground_small g);
}

within : (m x : ℕ) → x ≤ m → Within sample_gen m x
within m x h = (
  ground arith,
  elim (Bool-cases (x == m)) [ inl e ↦ inr ((==_iff x m).0 e) | inr e ↦ inl (ground arith) ],
)

le-Within : (m x : ℕ) → Within sample_gen m x → x ≤ m
le-Within m x (low, inl h) = ground arith
le-Within m x (low, inr h) = omega (arith, h)

pub sample-FloatLaws : FloatLaws sample_gen
sample-FloatLaws = record {
  made = λ n le. within n n (omega arith);
  divided =
      λ m x d le above le' h. within m (x / d) (omega (arith, div-le_self x d, le-Within m x h));
  capped = λ m n x le h small. within n x (ground arith);
  added =
      λ m n x y le h k. within (m + n) (x + y) (omega (arith, le-Within m x h, le-Within n y k));
  halved = λ m x le h. within m (x / 2) (omega (arith, le-Within m x h));
  truncated = λ m x le h. (x, refl, le-Within m x h);
}

pub sample-GenLaws : GenLaws sample_gen
sample-GenLaws = record {
  ground = sample-GroundLaws;
  climate = sample-ClimateLaws;
  floats = sample-FloatLaws;
  walk = λ i us. refl;
  not_rock = omega arith;
  not_dirt = omega arith;
  not_dunes = omega arith;
}
