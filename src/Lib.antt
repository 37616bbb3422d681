-- ===== src/Lib.antt =====
-- Proj8315Server, a game server in C++: clients connect, log in against a PostgreSQL database,
-- found factions and watch the tiles of a square world on which objects act frame by frame.
--
-- The program has a main thread and four that loop. The game thread runs `Game::run`, one frame after
-- another: the objects get orders and `ObjectManager::updateFunc` runs the current action of each.
-- The message thread reads what each client sent, splits it into messages and calls the handler of
-- each (src/MessageHandler.cpp, src/msgs/); handlers change the server's map of users, the factions,
-- the world and the database. Two more threads send every client the tiles around its user, and the
-- factions that changed. The main thread accepts new clients by `Server::run`.
--
-- The files, with what they model (paths are from the root of the repository):
--   World: src/game/Game.h, the tile array and object library of src/game/Game.cpp, and
--   src/game/objects/Object.h.
--   World/Loops: counted loops over `int`, with a rule for invariants.
--   World/Spawn: spawning and access of src/game/objects/ObjectManager.cpp.
--   World/Actions: src/game/objects/Action.h and src/game/objects/actions/.
--   World/Update: ObjectManager::updateFunc, StateUpdater::update and a round of Game::run.
--   World/Terrain, World/Snapshot: Game::setTileState with a radius and Game::getWorldState.
--   Database: src/DatabaseManager.h and src/DatabaseManager.cpp.
--   Config: src/utils/StringUtil.cpp, Server::readConfigFile and the port in Server's constructor.
--   Common: what is taken from the submodule Proj8315Common and from libpqxx.
--   Session: src/Client.h, src/Client.cpp and the methods of src/Server.cpp on clients and users.
--   Messages: the replies; Messages/Factions: the factions of src/game/Game.cpp; Messages/General,
--   Messages/Admin, Messages/WorldState: the handlers of src/msgs/.
--   Handler: src/MessageHandler.cpp, one round of each of its loops.
--   Water: src/game/world/WaterGenerator.cpp; Water/Flood, Pools, Sizes: its proofs.
--   Generation: what the generators take from outside. Generation/Grid: their loops over the map.
--   Generation/Elevation: src/utils/Algorithm.cpp and the heights of
--   src/game/world/ElevationGenerator.cpp; Generation/Ramps, Generation/Cliffs: its ramps and cliffs.
--   Generation/Temperature: src/game/world/TemperatureGenerator.cpp.
--   Generation/Environment (shores, plants) and Generation/Environment/Growth (waves):
--   src/game/world/EnvironmentGenerator.cpp. Generation/Composition: src/game/world/WorldGenerator.cpp.
--   Library: src/game/objects/Object.cpp and QueryResult::getArray; Start: the constructor of Game.
--   World/Safety, Frames, Spawning (with Cases), Moves, Areas, Observing, Edges, Session/Users, Logins,
--   Seats, Shutdown, Messages/Invariants, Permissions, Updates, Handler/Sessions, Batches, Rounds,
--   Config/Split, Database/Lifetime, and in Generation the files Laws, Bounds, Planting, Shores,
--   Weights, Waves, Arrays, Perlin, Scores and Null, Library/Files, Start/Laws,
--   BitShit/Laws, BitShit/Extract, Memory/Laws, ByteBuffer/Laws, Response/Laws: proofs.
--   BitShit: src/BitShit.hpp, its bits as functions of the position.
--   Memory: blocks of bytes; ByteBuffer: src/ByteBuffer.h, src/ByteBuffer.cpp; Response:
--   src/Responses.h, src/Responses.cpp.
--   Program: src/Main.cpp, the threads of src/Server.cpp and the loops of src/game/Game.cpp and
--   src/MessageHandler.cpp; Program/Steps: interleavings; Program/Sound, Interleavings, Joins, Launch,
--   Races: its proofs.
--   Tests: concrete runs. Base: shared names, lists, integers, maps and effects.
--
-- State and faults. `World` holds what the game thread works on, `Sys` all that a handler can
-- change; a method is a function from the state to `Option` of a result and a state, where `none`
-- is undefined behaviour: an access outside an array, a use of a deleted connection, a vector that
-- grows while it is walked. An object refers to its faction by name.
--
-- The generators. `Gen` holds the enumerators of Tile.h, the `float` operations, `std::rand` as a
-- function of the seed and the number of the call, and the order in which an `std::unordered_set` is
-- walked. The faction of the plants is an option, whose `none` is the null pointer that
-- `accessFaction` answers; what the null pointer does is a fault where a plant is spawned.
--
-- Numbers. A tile is a natural number below 2^64 that only the parameters of `Env` take apart.
-- `int` coordinates are integers. Where they come from a client's request, in the spawn by type and
-- in the area write, a signed overflow, which C++ leaves undefined, is a fault (`index_fits`,
-- `bounds_fit`). Elsewhere they are unbounded, and what is stated is about runs without an overflow:
-- a square around an observer, the places of objects and the loops of the generators over the map.
-- Floats are bit patterns with their operations as parameters.
--
-- Parameters. The submodule's directory is empty in the repository, so the layout of a tile, User,
-- Faction, Message, its requests and get_message_size enter by the records `Env` and `Common`, and
-- so does the answer of the database to a text of SQL. Laws on them are named hypotheses.
--
-- Fuel. `split_loop` has one round more than the text has characters, which is enough for a
-- delimiter that is not empty. `handle_batch` and `generate_water_area` take their fuel as an
-- argument: a round of the first moves on by the size of a message, and a round of the second goes
-- down, visits a tile or drops one from the stack. `spread` takes its fuel as an argument too: a wave
-- that finds tiles for the next has given a weight to a tile that had none, so w * w + 2 waves are enough
-- for a width w.
--
-- Threads. `Program` puts the loops together: a `Machine` has the shared state and the place where
-- each thread stands, `step` is a step of the thread that is chosen, with what comes in from outside,
-- and `Reach` is any number of steps in any order. One step is the handling of one message, the order
-- or the update of one object of a frame, the send to one client of a broadcast, the look at the clients
-- for a new connection, its entry into the map, or one join; between two steps any other thread may go.
-- `Server::run` looks at the clients without the mutex and enters the connection with it; the other
-- methods of Server hold a mutex to their end. A handler that makes several such calls is still one step, and so are the reads and writes of tiles in one step.
--
-- Bytes. `Memory` holds the blocks of `new[]`; a byte that was never written is told from one that
-- was. An `int` in memory has its lowest byte first.
--
-- Not modelled: the sockets of Server's constructor and logging (src/Debug.cpp).
pub mod Base
pub mod World
pub mod Database
pub mod Memory
pub mod ByteBuffer
pub mod Response
pub mod BitShit
pub mod Config
pub mod Common
pub mod Session
pub mod Messages
pub mod Handler
pub mod Water
pub mod Generation
pub mod Library
pub mod Start
pub mod Program
pub mod Tests
