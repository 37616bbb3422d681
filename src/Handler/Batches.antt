-- ===== src/Handler/Batches.antt =====
-- The loop over the messages of one read: src/MessageHandler.cpp.
use proj8315server.Base.{
  ℕ, zero, suc, ◌+◌, ◌≤◌, ◌<◌, ◌≡◌, refl, ap, false, Option, none, some, List, [], ◌∷◌, length,
  drop, ltb, leb, lt→ltb, Bool-cases, Option-cases, inl, inr, ℤ, arith,
}
use proj8315server.Common.{Common}
use proj8315server.Session.{Client, Sys}
use proj8315server.Messages.{Reply}
use proj8315server.Handler.{
  Loop, finished, out_of_fuel, kinds, int32_at, find_kind, process_message, message_at,
  handle_batch, handle_rest, join_replies,
}

int32_at-short : (b : List ℕ) → length b < 4 → int32_at b ≡ none
unfolding int32_at
int32_at-short [] h = refl
int32_at-short (p ∷ []) h = refl
int32_at-short (p ∷ (q ∷ [])) h = refl
int32_at-short (p ∷ (q ∷ (r ∷ []))) h = refl
int32_at-short (p ∷ (q ∷ (r ∷ (v ∷ b)))) h = absurd (omega arith)

drop-short : (k : ℕ) (b : List ℕ) → length b < k + 4 → length (drop k b) < 4
drop-short zero b h = h
drop-short (suc k) [] h = omega arith
drop-short (suc k) (x ∷ b) h = drop-short k b (omega arith)

module _ (C : Common) where
  sized_message :
      (buf : List ℕ) (offset size : ℕ) (m : C.Msg)
      → ((t : ℤ) → 0 < C.message_size t)
      → message_at C buf offset ≡ some (size, m)
      → 0 < size
  unfolding message_at
  sized_message buf offset size m sized e = elim (Option-cases (int32_at (drop offset buf))) [
    | inl f ↦
        let gone : ◌≡◌ {A = Option (ℕ × C.Msg)} none (some (size, m)) = rw (f, message_at) at e in
        cc
    | inr (t, f) ↦ elim (Bool-cases (leb (C.message_size t) (length (drop offset buf)))) [
      | inr long ↦
          let gone : ◌≡◌ {A = Option (ℕ × C.Msg)} none (some (size, m)) =
            rw (f, long, message_at) at e in
          cc
      | inl fits ↦
          let text = C.make_message (drop offset buf) (C.message_size t) in
          let all : ◌≡◌ {A = Option (ℕ × C.Msg)} (some (C.message_size t, text)) (some (size, m)) =
            rw (f, fits, message_at) at e in
          let same : C.message_size t ≡ size = cc in rw (← same) (sized t)
    ]
  ]

  -- A fault, or a result that did not lack fuel.
  abbrev pub IsOver : Option (Loop (List (Reply C)) × Sys C) → Type 0
  IsOver none = Unit
  IsOver (some (finished rs, s)) = Unit
  IsOver (some (out_of_fuel, s)) = ⊥

  rest-IsOver :
      (next : Sys C → Option (Loop (List (Reply C)) × Sys C)) (o : Option (Reply C × Sys C))
      → ((t : Sys C) → IsOver (next t))
      → IsOver (handle_rest C next o)
  unfolding handle_rest join_replies
  rest-IsOver next none h = tt
  rest-IsOver next (some (r, t)) h = joined (next t) (h t)
    where
      joined : (o : Option (Loop (List (Reply C)) × Sys C)) → IsOver o → IsOver (join_replies C r o)
      joined none k = tt
      joined (some (finished rs, u)) k = tt
      joined (some (out_of_fuel, u)) k = k

  rest-same :
      (next more : Sys C → Option (Loop (List (Reply C)) × Sys C)) (o : Option (Reply C × Sys C))
      → ((t : Sys C) → more t ≡ next t)
      → handle_rest C more o ≡ handle_rest C next o
  unfolding handle_rest
  rest-same next more none h = refl
  rest-same next more (some (r, t)) h = ap (join_replies C r) (h t)

-- If every kind of message has a size above 0, the loop over a read of n bytes from an offset on
-- ends, for any messages and any state: with more fuel than n - offset it does not run out of it,
-- and all such amounts of fuel give the same result.
pub handle_batch-ends :
    (C : Common) (c : Client) (fuel more : ℕ) (buf : List ℕ) (n offset : ℕ) (s : Sys C)
    → ((t : ℤ) → 0 < C.message_size t)
    → n ≤ offset + fuel
    → n ≤ offset + more
    → IsOver C (handle_batch C (suc fuel) c buf n offset s)
      × (handle_batch C (suc more) c buf n offset s ≡ handle_batch C (suc fuel) c buf n offset s)
unfolding handle_batch
handle_batch-ends C c zero more buf n offset s sized lt gt =
    let done : ltb offset n ≡ false = ground arith in rw (done, handle_batch) (tt, refl)
handle_batch-ends C c (suc fuel) zero buf n offset s sized lt gt =
    let done : ltb offset n ≡ false = ground arith in rw (done, handle_batch) (tt, refl)
handle_batch-ends C c (suc fuel) (suc more) buf n offset s sized lt gt =
    elim (Bool-cases (ltb offset n)) [
      | inr e ↦ rw (e, handle_batch) (tt, refl)
      | inl e ↦ elim (Option-cases (message_at C buf offset)) [
        | inl f ↦ rw (e, f, handle_batch) (tt, refl)
        | inr ((size, m), f) ↦
            let further = sized_message C buf offset size m sized f in
            let ends = λ (t : Sys C).
              handle_batch-ends C c fuel more buf n (offset + size) t sized (omega arith)
                (omega arith) in
            rw (e, f, handle_batch)
              (
                rest-IsOver C _ (process_message C c m s) (λ t. (ends t).0),
                rest-same C _ _ (process_message C c m s) (λ t. (ends t).1),
              )
      ]
    ]

-- A message that has no handler and whose size is 0 is read for ever: no fuel is enough.
pub handle_batch-stuck :
    (C : Common) (c : Client) (fuel : ℕ) (buf : List ℕ) (n offset : ℕ) (m : C.Msg) (s : Sys C)
    → offset < n
    → message_at C buf offset ≡ some (0, m)
    → find_kind C (C.msg_type m) kinds ≡ none
    → handle_batch C fuel c buf n offset s ≡ some (out_of_fuel, s)
unfolding handle_batch process_message handle_rest join_replies
handle_batch-stuck C c zero buf n offset m s lt at unknown = refl
handle_batch-stuck C c (suc fuel) buf n offset m s lt at unknown =
    let same : offset + 0 ≡ offset = omega arith in
    rw (
      lt→ltb offset n lt,
      at,
      handle_batch,
      unknown,
      process_message,
      same,
      handle_batch-stuck C c fuel buf n offset m s lt at unknown,
      handle_rest,
      join_replies,
    )

-- A message whose type field reaches behind the buffer is a fault, at any offset within the read.
handle_batch-overread :
    (C : Common) (c : Client) (fuel : ℕ) (buf : List ℕ) (n offset : ℕ) (s : Sys C)
    → offset < n
    → length buf < offset + 4
    → handle_batch C (suc fuel) c buf n offset s ≡ none
unfolding handle_batch message_at
handle_batch-overread C c fuel buf n offset s lt short = rw (
  lt→ltb offset n lt,
  int32_at-short (drop offset buf) (drop-short offset buf short),
  handle_batch,
  message_at,
)
