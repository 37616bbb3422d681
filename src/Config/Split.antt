-- ===== src/Config/Split.antt =====
-- Laws of the split of lines: src/utils/StringUtil.cpp and Server::readConfigFile (src/Server.cpp).
use proj8315server.Base.{
  ℕ, zero, suc, ◌+◌, ◌<◌, ◌≡◌, refl, sym, ap, ◌∙◌, ◌≢◌, ◌⊎◌, inl, inr, false, Option, none, some,
  List, [], ◌∷◌, ◌++◌, length, length-append, ◌==◌, Option-cases, if◌then◌else◌, All, Bool-cases,
  arith, Dict, put, find, find-put, text_eq,
}
use mathlib.Core.List.{append_assoc, append-nil}
use proj8315server.Config.{
  Text, strip, push_front, find_delim, last_piece, split_loop, split, equals_sign, config_line,
  read_config,
}

strip-append : (d s r : Text) → strip d s ≡ some r → s ≡ d ++ r
unfolding strip
strip-append [] s r h = ground arith
strip-append (d ∷ ds) [] r h = cc
strip-append (d ∷ ds) (c ∷ s) r h = ground (arith, strip-append ds s r)

strip-prefix : (d s r t : Text) → strip d s ≡ some r → strip d (s ++ t) ≡ some (r ++ t)
unfolding strip
strip-prefix [] s r t h = ap (λ u. some (u ++ t)) (ground arith)
strip-prefix (d ∷ ds) [] r t h = cc
strip-prefix (d ∷ ds) (c ∷ s) r t h = elim (Bool-cases (d == c)) [
  | inl e ↦ rw (e, strip) (strip-prefix ds s r t (rw (e, strip) at h))
  | inr e ↦ let gone : none ≡ some r = rw (e, strip) at h in cc
]

later_delim :
    (d : Text) (c : ℕ) (s b a : Text)
    → ((b' a' : Text) → find_delim d s ≡ some (b', a') → s ≡ b' ++ (d ++ a'))
    → (o : Option (Text × Text)) → find_delim d s ≡ o
    → push_front c o ≡ some (b, a)
    → c ∷ s ≡ b ++ (d ++ a)
later_delim d c s b a ih none e k = cc
later_delim d c s b a ih (some (b', a')) e k =
    let same : (c ∷ b' ≡ b) × (a' ≡ a) = ground arith in
    rw (← same.0, ← same.1) (ap (λ t. c ∷ t) (ih b' a' e))

-- Where the delimiter is found, the text is what stands before it, the delimiter and the rest.
find_delim-append : (d s b a : Text) → find_delim d s ≡ some (b, a) → s ≡ b ++ (d ++ a)
unfolding find_delim strip
find_delim-append [] [] b a h = ground arith
find_delim-append (x ∷ d) [] b a h = cc
find_delim-append d (c ∷ s) b a h = elim (Option-cases (strip d (c ∷ s))) [
  | inl e ↦
      later_delim d c s b a (find_delim-append d s) (find_delim d s) refl (rw (e, find_delim) at h)
  | inr (r, e) ↦
      let same : (b ≡ []) × (r ≡ a) = ground (arith, rw (e, find_delim) at h) in
      rw (same.0, ← same.1) (strip-append d (c ∷ s) r e)
]

push_front-some :
    (c : ℕ) (o : Option (Text × Text)) (b a : Text)
    → push_front c o ≡ some (b, a)
    → (b' : Text) × (o ≡ some (b', a)) × (b ≡ c ∷ b')
push_front-some c none b a h = cc
push_front-some c (some (b', a')) b a h =
    let rest : a' ≡ a = ground arith in
    let all : c ∷ b' ≡ b = ground arith in (b', ap (λ t. some (b', t)) rest, sym all)

-- The delimiter is found at its first place: what stands before it holds none.
find_delim-first : (d s b a : Text) → d ≢ [] → find_delim d s ≡ some (b, a) → find_delim d b ≡ none
unfolding find_delim strip
find_delim-first [] s b a h e = absurd (h refl)
find_delim-first (x ∷ d) [] b a h e = cc
find_delim-first (x ∷ d) (c ∷ s) b a h e = elim (Option-cases (strip (x ∷ d) (c ∷ s))) [
  | inr (r, f) ↦ let same : [] ≡ b = ground (arith, rw (f, find_delim) at e) in rw (← same) refl
  | inl f ↦
      let (b', g, eq) = push_front-some c (find_delim (x ∷ d) s) b a (rw (f, find_delim) at e) in
      let before = find_delim-first (x ∷ d) s b' a h g in
      let whole = find_delim-append (x ∷ d) s b' a g in
      rw eq (elim (Option-cases (strip (x ∷ d) (c ∷ b'))) [
        | inl k ↦ rw (k, find_delim, before) refl
        | inr (r, k) ↦
            let found = strip-prefix (x ∷ d) (c ∷ b') r ((x ∷ d) ++ a) k in
            let gone : none ≡ some (r ++ ((x ∷ d) ++ a)) =
              sym f ∙ ap (λ t. strip (x ∷ d) (c ∷ t)) whole ∙ found in
            cc
      ])
]

-- A piece of the loop's result: the text before the delimiter, then what the rest splits into.
abbrev pub join : Text → List Text → Text
join d [] = []
join d (p ∷ []) = p
join d (p ∷ (q ∷ ps)) = p ++ (d ++ join d (q ∷ ps))

-- The pieces, joined, are the text, but for a delimiter at its end.
abbrev pub Rejoins : Text → Text → List Text → Type 0
Rejoins d s [] = s ≡ []
Rejoins d s (p ∷ ps) = (s ≡ join d (p ∷ ps)) ⊎ (s ≡ join d (p ∷ ps) ++ d)

-- No piece holds the delimiter.
abbrev pub Undivided : Text → List Text → Type 0
Undivided d ps = All (λ p. find_delim d p ≡ none) ps

Rejoins-cons :
    (d s b a : Text) (ps : List Text) → s ≡ b ++ (d ++ a) → Rejoins d a ps → Rejoins d s (b ∷ ps)
Rejoins-cons d s b a [] e r = inr (rw (e, r, append-nil d))
Rejoins-cons d s b a (q ∷ ps) e (inl r) = inl (rw (e, r))
Rejoins-cons d s b a (q ∷ ps) e (inr r) = inr (rw (e, r) (simp append_assoc))

shorter : (d s b a : Text) → d ≢ [] → s ≡ b ++ (d ++ a) → length a < length s
shorter [] s b a h e = absurd (h refl)
shorter (x ∷ d) s b a h e = rw (e, length-append, length-append) (omega arith)

Rejoins-last : (d s : Text) → Rejoins d s (last_piece s)
Rejoins-last d [] = refl
Rejoins-last d (c ∷ s) = inl refl

Undivided-last : (d s : Text) → find_delim d s ≡ none → Undivided d (last_piece s)
Undivided-last d [] e = tt
Undivided-last d (c ∷ s) e = (e, tt)

split_loop-some :
    (fuel : ℕ) (d s : Text)
    → d ≢ []
    → length s < fuel
    → (ps : List Text) × (split_loop fuel d s ≡ some ps) × Rejoins d s ps × Undivided d ps
unfolding split_loop
split_loop-some zero d s h lt = absurd (omega arith)
split_loop-some (suc fuel) d s h lt = elim (Option-cases (find_delim d s)) [
  | inl e ↦ (last_piece s, rw (e, split_loop), Rejoins-last d s, Undivided-last d s e)
  | inr ((b, a), e) ↦
      let cut = find_delim-append d s b a e in
      let (ps, e', r, whole) = split_loop-some fuel d a h (omega (arith, shorter d s b a h cut)) in
      (
        b ∷ ps,
        rw (e, split_loop, e'),
        Rejoins-cons d s b a ps cut r,
        (find_delim-first d s b a h e, whole),
      )
]

-- For a delimiter that is not empty `split` ends, no piece holds the delimiter, and the pieces joined
-- by it are the text again, but for one delimiter at its very end, which leaves no piece behind it.
pub split-Rejoins :
    (s d : Text)
    → d ≢ []
    → (ps : List Text) × (split s d ≡ some ps) × Rejoins d s ps × Undivided d ps
unfolding split
split-Rejoins s d h = split_loop-some (suc (length s)) d s h (omega arith)

-- An empty delimiter is found again at the same place: no fuel is enough.
split_loop_stuck : (fuel : ℕ) (s : Text) → split_loop fuel [] s ≡ none
unfolding split_loop find_delim strip
split_loop_stuck zero s = refl
split_loop_stuck (suc fuel) [] = rw (split_loop_stuck fuel [])
split_loop_stuck (suc fuel) (c ∷ s) = rw (split_loop_stuck fuel (c ∷ s))

-- A text without an equals sign.
abbrev pub Plain : Text → Type 0
Plain [] = Unit
Plain (c ∷ s) = ((b'=' == c) ≡ false) × Plain s

find_equals-none : (s : Text) → Plain s → find_delim equals_sign s ≡ none
unfolding find_delim strip
find_equals-none [] h = refl
find_equals-none (c ∷ s) h = ground (arith, find_equals-none s h.1)

find_equals : (k v : Text) → Plain k → find_delim equals_sign (k ++ b'=' ∷ v) ≡ some (k, v)
unfolding find_delim strip
find_equals [] v h = refl
find_equals (c ∷ k) v h = ground (arith, find_equals k v h.1)

two_rounds :
    (fuel : ℕ) (k v : Text)
    → Plain k
    → Plain v
    → split_loop (suc (suc fuel)) equals_sign (k ++ b'=' ∷ v) ≡ some (k ∷ last_piece v)
unfolding split_loop
two_rounds fuel k v hk hv = rw (find_equals k v hk, split_loop, find_equals-none v hv, split_loop)

split_equals :
    (k v : Text) → Plain k → Plain v → split (k ++ b'=' ∷ v) equals_sign ≡ some (k ∷ last_piece v)
unfolding split
split_equals k v hk hv =
    ap (λ n. split_loop n equals_sign (k ++ b'=' ∷ v)) rounds
    ∙ two_rounds (length k + length v) k v hk hv
  where
    rounds : suc (length (k ++ b'=' ∷ v)) ≡ suc (suc (length k + length v))
    rounds = omega (arith, length-append {0} k (b'=' ∷ v))

-- A line of a key, an equals sign and a value, of which the key and the value hold no equals sign
-- and are not empty: after reading it the key has this value, and any other key what it had.
read_config_line :
    (c x : ℕ) (k v j : Text) (config : Dict Text Text)
    → Plain (c ∷ k)
    → Plain (x ∷ v)
    → (after : Dict Text Text) × (read_config (((c ∷ k) ++ b'=' ∷ (x ∷ v)) ∷ []) config
        ≡ some after)
      × (find j after ≡ (if text_eq.beq (c ∷ k) j then some (x ∷ v) else find j config))
unfolding read_config config_line
read_config_line c x k v j config hk hv = (
  put (c ∷ k) (x ∷ v) config,
  rw (split_equals (c ∷ k) (x ∷ v) hk hv, read_config),
  find-put (c ∷ k) j (x ∷ v) config,
)

-- A line without an equals sign, empty or not, changes nothing, wherever it stands in the file.
read_config-Plain :
    (line : Text) (lines : List Text) (config : Dict Text Text)
    → Plain line
    → read_config (line ∷ lines) config ≡ read_config lines config
unfolding read_config split split_loop config_line find_delim strip
read_config-Plain [] lines config h = refl
read_config-Plain (c ∷ s) lines config h = rw (find_equals-none (c ∷ s) h, read_config, split)
