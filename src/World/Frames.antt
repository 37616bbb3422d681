-- ===== src/World/Frames.antt =====
-- Frames of the game and well-formed worlds: src/game/objects/ObjectManager.cpp, src/game/Game.cpp.
use proj8315server.Base.{
  ℕ, zero, suc, ◌+◌, ◌*◌, ==_iff, ◌<◌, ◌≡◌, refl, sym, ap, ◌∙◌, subst, some, List, [], ◌∷◌, length,
  get_elem?, set, length-set, List-cases, inl, inr, get_elem?-some, All, All-append, All-get_elem?,
  All-set, ◌==◌, ltb, Bool-cases, ◌>>=◌, arith,
}
use proj8315server.World.{Dir, Env, Obj, World, add_action}
use proj8315server.World.Loops.{Returns, Returns->>=, Returns-some}
use proj8315server.World.Actions.{Status, pending, success, failure, Outcome}
use proj8315server.World.Update.{
  Action, idle, move, move_vertical, actions_mapping, pop, settle, replace_object, run_action,
  with_action, current_action, update_object, same_length, update_from, update, order_object,
  order_objects, order_at, game_frame,
}
use proj8315server.World.Safety.{
  InWorld, SameFrame, IsReady, Acted, idle_action-Acted, move_action-Acted,
  move_vertical_action-Acted,
}

-- An object that stands on a tile of the world, with orders for actions 0 to 10.
pub record IsPlaced (w : ℕ) (o : Obj) : Type 0 where
  pub place : InWorld w o.x o.z
  pub orders : All (λ a. a < 11) o.action_queue

pub record IsSafe (g : World) : Type 0 where
  pub ready : IsReady g
  pub placed : All (IsPlaced g.world_width) g.objects

-- Every action that a queue of a safe world can name leaves the other objects alone.
data IsLocal : Action → Type 0 where
  local_idle : IsLocal idle
  local_move : (d : Dir) → IsLocal (move d)
  local_vertical : (d : Dir) → IsLocal (move_vertical d)

mapping-IsLocal :
    (a : ℕ) → a < 11 → (b : Action) × (get_elem? actions_mapping a ≡ some b) × IsLocal b
mapping-IsLocal zero h = (idle, refl, local_idle)
mapping-IsLocal (suc zero) h = (_, refl, local_move _)
mapping-IsLocal (suc (suc zero)) h = (_, refl, local_move _)
mapping-IsLocal (suc (suc (suc zero))) h = (_, refl, local_move _)
mapping-IsLocal (suc (suc (suc (suc zero)))) h = (_, refl, local_move _)
mapping-IsLocal (suc (suc (suc (suc (suc zero))))) h = (_, refl, local_move _)
mapping-IsLocal (suc (suc (suc (suc (suc (suc zero)))))) h = (_, refl, local_move _)
mapping-IsLocal (suc (suc (suc (suc (suc (suc (suc zero))))))) h = (_, refl, local_move _)
mapping-IsLocal (suc (suc (suc (suc (suc (suc (suc (suc zero)))))))) h = (_, refl, local_move _)
mapping-IsLocal (suc (suc (suc (suc (suc (suc (suc (suc (suc zero))))))))) h =
    (_, refl, local_vertical _)
mapping-IsLocal (suc (suc (suc (suc (suc (suc (suc (suc (suc (suc zero)))))))))) h =
    (_, refl, local_vertical _)
mapping-IsLocal (suc (suc (suc (suc (suc (suc (suc (suc (suc (suc (suc a))))))))))) h =
    absurd (omega arith)

pop-All : (q : List ℕ) → All (λ a. a < 11) q → All (λ a. a < 11) (pop q)
pop-All [] h = h
pop-All (a ∷ q) h = h.1

SameFrame-IsReady : {g h : World} → SameFrame g h → IsReady g → IsReady h
SameFrame-IsReady {g} {h} f r = record {
  size = f.size ∙ r.size ∙ sym (ap (λ w. w * w) f.width);
  wide = rw f.width r.wide;
  typed = rw f.types r.typed;
  speeds = rw f.types r.speeds;
}

module _ (E : Env) (idle_known : E.action_idle < 11) where
  with_action-IsPlaced :
      (w : ℕ) (o : Obj)
      → IsPlaced w o
      → IsPlaced w (with_action E o)
        × ((a : Action) × (current_action E (with_action E o) ≡ some a) × IsLocal a)
  unfolding with_action add_action
  with_action-IsPlaced w o p = elim (List-cases o.action_queue) [
    | inl e ↦
        let first = mapping-IsLocal E.action_idle idle_known in
        rw (e, with_action, add_action)
          (
            record { place = p.place; orders = rw e (idle_known, tt) },
            (first.0, rw e first.1, first.2),
          )
    | inr (a, q, e) ↦
        let orders : All (λ b. b < 11) (a ∷ q) = subst (All (λ b. b < 11)) e p.orders in
        let first = mapping-IsLocal a orders.0 in
        rw (e, with_action)
          (record { place = p.place; orders = rw e orders }, (first.0, rw e first.1, first.2))
  ]

  run_action-Acted :
      (a : Action) (o : Obj) (g : World)
      → IsLocal a
      → IsReady g
      → InWorld g.world_width o.x o.z
      → Returns (Acted o g) (run_action E a o g)
  unfolding run_action
  run_action-Acted a o g local_idle r p = idle_action-Acted E o g r p
  run_action-Acted a o g (local_move d) r p = move_action-Acted E o g r p (E.dir_value d)
  run_action-Acted a o g (local_vertical d) r p =
      move_vertical_action-Acted E o g r p (E.dir_value d)

  settle-IsPlaced :
      (s : Status) (o o' : Obj) (w : ℕ)
      → InWorld w o'.x o'.z
      → o'.action_queue ≡ o.action_queue
      → IsPlaced w o
      → IsPlaced w (settle s o')
  settle-IsPlaced pending o o' w p q h = record { place = p; orders = rw q h.orders }
  settle-IsPlaced success o o' w p q h = record {
    place = p;
    orders = pop-All o'.action_queue (rw q h.orders);
  }
  settle-IsPlaced failure o o' w p q h = record {
    place = p;
    orders = pop-All o'.action_queue (rw q h.orders);
  }

  replace-IsSafe :
      (i : ℕ) (g : World) (o : Obj) (r : Outcome)
      → IsSafe g
      → IsPlaced g.world_width o
      → Acted o g r
      → IsSafe (replace_object r.world i (settle r.status r.obj))
        × (length (set r.world.objects i (settle r.status r.obj)) ≡ length g.objects)
  replace-IsSafe i g o r safe p a =
      let f = a.frame in
      let now = SameFrame-IsReady f safe.ready in
      let kept = settle-IsPlaced r.status o r.obj g.world_width a.place a.queue p in
      (
        record {
          ready = record {
            size = now.size;
            wide = now.wide;
            typed = now.typed;
            speeds = now.speeds;
          };
          placed =
              rw (f.width, f.objs)
                (All-set (IsPlaced g.world_width) g.objects i _ safe.placed kept);
        },
        length-set r.world.objects i _ ∙ ap length f.objs,
      )

  pub update_object-Returns :
      (i : ℕ) (g : World)
      → i < length g.objects
      → IsSafe g
      → Returns (λ h. IsSafe h × (length h.objects ≡ length g.objects)) (update_object E i g)
  unfolding update_object
  update_object-Returns i g lt safe =
      let found = get_elem?-some g.objects i lt in
      let p = All-get_elem? (IsPlaced g.world_width) g.objects i found.0 safe.placed found.1 in
      let (p', (a, e, l)) = with_action-IsPlaced g.world_width found.0 p in
      rw (found.1, e)
        (Returns->>= (Acted (with_action E found.0) g)
          (λ h. IsSafe h × (length h.objects ≡ length g.objects))
          (run_action E a (with_action E found.0) g)
          (λ r. some (replace_object r.world i (settle r.status r.obj)))
          (run_action-Acted a (with_action E found.0) g l safe.ready p'.place)
          (λ r acted. replace-IsSafe i g (with_action E found.0) r safe p' acted))

  -- The state between two rounds of the loop over m objects.
  abbrev Between : ℕ → World → Type 0
  Between m g = IsSafe g × (length g.objects ≡ m)

  update_from-Returns :
      (n i m : ℕ) (g : World) → i + n ≡ m → Between m g → Returns (Between m) (update_from E n i g)
  unfolding update_from
  update_from-Returns zero i m g e b = b
  update_from-Returns (suc n) i m g e b =
      Returns->>= (λ h. Between (length g.objects) h) (Between m) (update_object E i g)
        (λ h. same_length E g h >>= λ k. update_from E n (i + 1) k)
        (update_object-Returns i g (omega (arith, b.1)) b.0)
        λ h s.
          rw (s.1, (==_iff (length g.objects) (length g.objects)).1 refl)
            (update_from-Returns n (i + 1) m h (omega arith) (s.0, s.1 ∙ b.1))

  update-Returns : (g : World) → IsSafe g → Returns (Between (length g.objects)) (update E g)
  unfolding update
  update-Returns g safe = update_from-Returns (length g.objects) 0 _ g (omega arith) (safe, refl)

  order_object-IsPlaced : (w r : ℕ) (o : Obj) → IsPlaced w o → IsPlaced w (order_object r o)
  unfolding order_object add_action
  order_object-IsPlaced w r o p = elim (Bool-cases (o.obj_type == 4)) [
    | inl e ↦ rw e (elim (Bool-cases (ltb (length o.action_queue) 2)) [
      | inl f ↦ rw f (record {
        place = p.place;
        orders = All-append (λ a. a < 11) o.action_queue _ p.orders (omega arith, tt);
      })
      | inr f ↦ rw f p
    ])
    | inr e ↦ rw e p
  ]

  order_objects-IsPlaced :
      (w : ℕ) (rand : ℕ → ℕ) (i : ℕ) (os : List Obj)
      → All (IsPlaced w) os
      → All (IsPlaced w) (order_objects rand i os) × (length (order_objects rand i os) ≡ length os)
  unfolding order_objects
  order_objects-IsPlaced w rand i [] h = (tt, refl)
  order_objects-IsPlaced w rand i (o ∷ os) h =
      let rest = order_objects-IsPlaced w rand (i + 1) os h.1 in
      ((order_object-IsPlaced w (rand i) o h.0, rest.0), ap suc rest.1)

-- A safe world is safe after the order of one object, with as many objects.
pub order_at-Returns :
    (E : Env) (rand : ℕ → ℕ) (i : ℕ) (g : World)
    → E.action_idle < 11
    → i < length g.objects
    → IsSafe g
    → Returns (λ h. IsSafe h × (length h.objects ≡ length g.objects)) (order_at rand i g)
unfolding order_at
order_at-Returns E rand i g idle_known lt safe =
    let found = get_elem?-some g.objects i lt in
    let p = All-get_elem? (IsPlaced g.world_width) g.objects i found.0 safe.placed found.1 in
    let r = safe.ready in
    rw (found.1, order_at)
      (
        record {
          ready = record { size = r.size; wide = r.wide; typed = r.typed; speeds = r.speeds };
          placed =
              All-set (IsPlaced g.world_width) g.objects i _ safe.placed
                (order_object-IsPlaced E idle_known g.world_width (rand i) found.0 p);
        },
        length-set g.objects i _,
      )

-- A safe world is safe after the random orders, with as many objects.
pub order_objects-IsSafe :
    (E : Env) (rand : ℕ → ℕ) (g : World)
    → E.action_idle < 11
    → IsSafe g
    → IsSafe (record g { objects = order_objects rand 0 g.objects })
      × (length (order_objects rand 0 g.objects) ≡ length g.objects)
order_objects-IsSafe E rand g idle_known safe =
    let (orders, size) =
      order_objects-IsPlaced E idle_known g.world_width rand 0 g.objects safe.placed in
    let r = safe.ready in
    (
      record {
        ready = record { size = r.size; wide = r.wide; typed = r.typed; speeds = r.speeds };
        placed = orders;
      },
      size,
    )

-- In a safe world, with the library's idle action among the first eleven, a frame of the game ends
-- without a fault: no array access is outside its array, no action number is unknown and the
-- object list does not grow while it is walked. The world after it is safe, and has as many objects.
pub game_frame-IsSafe :
    (E : Env) (rand : ℕ → ℕ) (elapsed : ℕ) (g : World)
    → E.action_idle < 11
    → IsSafe g
    → (h : World) × (game_frame E rand elapsed g ≡ some h)
      × IsSafe h
      × (length h.objects ≡ length g.objects)
unfolding game_frame
game_frame-IsSafe E rand elapsed g idle_known safe =
    let (ordered, size) = order_objects-IsSafe E rand g idle_known safe in
    let start : World = record g { objects = order_objects rand 0 g.objects } in
    let run = Returns-some _ (update E start) (update-Returns E idle_known start ordered) in
    let t = run.2.0.ready in
    (
      record run.0 { delta_time = elapsed },
      rw run.1,
      record {
        ready = record { size = t.size; wide = t.wide; typed = t.typed; speeds = t.speeds };
        placed = run.2.0.placed;
      },
      run.2.1 ∙ size,
    )
