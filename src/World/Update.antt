-- ===== src/World/Update.antt =====
-- One frame: `ObjectManager::updateFunc`, called by `StateUpdater::update`, and the loop body of
-- `Game::run` (src/game/objects/ObjectManager.cpp, src/game/StateUpdater.cpp, src/game/Game.cpp).
use proj8315server.Base.{
  ℕ, zero, suc, ◌+◌, ◌%◌, Option, none, some, List, [], ◌∷◌, length, get_elem?, set, ◌==◌, ltb,
  if◌then◌else◌, ◌>>=◌,
}
use proj8315server.World.{
  Env, Obj, World, Dir, dir_n, dir_ne, dir_e, dir_se, dir_s, dir_sw, dir_w, dir_nw, add_action,
}
use proj8315server.World.Actions.{
  Status, pending, success, failure, Run, idle_action, move_action, move_vertical_action,
  class_action0,
}

-- The entries of `_actionsMapping`.
pub data Action : Type 0 where
  idle : Action
  move move_vertical : Dir → Action
  class0 : Action

abbrev pub actions_mapping : List Action
actions_mapping =
    idle
    ∷ move dir_n
    ∷ move dir_ne
    ∷ move dir_e
    ∷ move dir_se
    ∷ move dir_s
    ∷ move dir_sw
    ∷ move dir_w
    ∷ move dir_nw
    ∷ move_vertical dir_n
    ∷ move_vertical dir_s
    ∷ class0
    ∷ []

-- `queue.pop()` of a queue that is not empty.
abbrev pub pop : List ℕ → List ℕ
pop [] = []
pop (a ∷ q) = q

-- A finished action, done or failed, leaves the queue.
abbrev pub settle : Status → Obj → Obj
settle pending o = o
settle success o = record o { action_queue = pop o.action_queue }
settle failure o = record o { action_queue = pop o.action_queue }

abbrev pub replace_object : World → ℕ → Obj → World
replace_object g i o = record g { objects = set g.objects i o }

module _ (E : Env) where
  unfoldable pub run_action : Action → Run
  run_action idle = idle_action E
  run_action (move d) = move_action E (E.dir_value d)
  run_action (move_vertical d) = move_vertical_action E (E.dir_value d)
  run_action class0 = class_action0 E

  -- An object without actions gets the idle action.
  unfoldable pub with_action : Obj → Obj
  with_action o = elim o.action_queue [ [] ↦ add_action o E.action_idle | _ ∷ _ ↦ o ]

  abbrev pub current_action : Obj → Option Action
  current_action o = elim o.action_queue [ [] ↦ none | a ∷ _ ↦ get_elem? actions_mapping a ]

  -- The body of the loop, on object i; an action number without an entry is a fault.
  unfoldable pub update_object : ℕ → World → Option World
  update_object i g = do
    o ← get_elem? g.objects i
    let o' = with_action o
    a ← current_action o'
    r ← run_action a o' g
    some (replace_object r.world i (settle r.status r.obj))

  -- A new object appended while `_allObjects` is walked invalidates the iterators: a fault.
  abbrev pub same_length : World → World → Option World
  same_length g g' = if length g'.objects == length g.objects then some g' else none

  unfoldable pub update_from : ℕ → ℕ → World → Option World
  update_from zero i g = some g
  update_from (suc n) i g =
      update_object i g >>= λ g'. same_length g g' >>= λ g''. update_from n (i + 1) g''

  unfoldable pub update : World → Option World
  update g = update_from (length g.objects) 0 g

-- The random orders of `Game::run`, for objects of type 4 with fewer than two actions queued;
-- `rand i` is what `std::rand` returns for object i.
unfoldable pub order_object : ℕ → Obj → Obj
order_object rand o =
    if o.obj_type == 4
    then (if ltb (length o.action_queue) 2 then add_action o (rand % 8 + 1) else o)
    else o

unfoldable pub order_objects : (ℕ → ℕ) → ℕ → List Obj → List Obj
order_objects rand i [] = []
order_objects rand i (o ∷ os) = order_object (rand i) o ∷ order_objects rand (i + 1) os

-- The order of one object, as a step of the loop.
unfoldable pub order_at : (ℕ → ℕ) → ℕ → World → Option World
order_at rand i g =
    get_elem? g.objects i >>= λ o. some (replace_object g i (order_object (rand i) o))

-- A round of the loop of `Game::run`; `elapsed` is the time that it took.
unfoldable pub game_frame : Env → (ℕ → ℕ) → ℕ → World → Option World
game_frame E rand elapsed g =
    update E (record g { objects = order_objects rand 0 g.objects }) >>= λ g'.
    some (record g' { delta_time = elapsed })
