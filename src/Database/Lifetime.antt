-- ===== src/Database/Lifetime.antt =====
-- Sequences of calls on the connection: src/DatabaseManager.cpp.
use proj8315server.Base.{◌≡◌, refl, Option, none, some, List, [], ◌∷◌, ◌++◌, map, ◌>>=◌}
use proj8315server.Database.{
  Transaction, Pointer, null_pointer, connected, dangling, Opening, opened, not_open, threw,
  connect, disconnect, exec_query,
}

-- The calls that the program can make, and a run of them.
pub data Call : Type 0 where
  connects : Opening → Call
  disconnects : Call
  queries : Transaction → Call

abbrev pub step : Call → Pointer → Option Pointer
step (connects how) p = some (connect how p).0
step disconnects p = disconnect p
step (queries t) p = exec_query p t >>= λ _. some p

unfoldable pub run : List Call → Pointer → Option Pointer
run [] p = some p
run (c ∷ cs) p = step c p >>= λ q. run cs q

connects_dangling : (how : Opening) → (connect how dangling).0 ≡ dangling
unfolding connect
connects_dangling opened = refl
connects_dangling not_open = refl
connects_dangling threw = refl

queries_fault : (t : Transaction) (cs : List Call) → run (queries t ∷ cs) dangling ≡ none
unfolding run exec_query
queries_fault t cs = refl

-- Once a connection was deleted, by `disconnect` or by a construction that did not open it, no
-- attempt to connect mends the pointer: after any attempts the next query is a fault.
pub deleted_faults :
    (hows : List Opening) (t : Transaction)
    → (run (disconnects ∷ map connects hows ++ queries t ∷ []) connected ≡ none)
      × (run (connects not_open ∷ map connects hows ++ queries t ∷ []) null_pointer ≡ none)
unfolding run disconnect connect
deleted_faults hows t = (lost hows t, lost hows t)
  where
    lost :
        (hs : List Opening) (u : Transaction)
        → run (map connects hs ++ queries u ∷ []) dangling ≡ none
    lost [] u = queries_fault u []
    lost (h ∷ hs) u = rw (connects_dangling h) (lost hs u)
