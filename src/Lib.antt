-- ===== src/Lib.antt =====
-- HydraSAT splits the space of assignments of a propositional formula into cubes, hands the cubes
-- to workers, and adds up what they count. This library models the part that makes the cubes.
--
-- Cli models cube_gen_cli/cube_gen_cli.cpp, the stand-alone generator:
--   Cli.Lit         struct Lit, and what literals, clauses and cubes mean under an assignment;
--   Cli.Propagator  class Propagator. The record has the fields m_n, m_clauses, m_assign, m_trail,
--                   m_qhead, m_unsat and m_watches; each method is a function of the state:
--                   restart, value, uncheckedEnqueue, propagate, propagateLit, cancelUntilPos. The
--                   loops of propagateLit are `scan` (over a clause), `visit` (what a round does)
--                   and `watch_loop` (over a watch list). The child modules hold the invariant,
--                   soundness as a relation of small steps, the watch lists, the rounds and the way back;
--   Cli.Queue       struct Cube and PriorityQueue, a list of cubes with the lightest first;
--   Cli.Double      the doubles of the scores, as an interface;
--   Cli.Heuristic   class BranchingCubeHeuristic as a record of the method `next` and its laws;
--                   Cli.Heuristic.Jwts is JWTSBranchingCubeHeuristic, Cli.Heuristic.Choice fills
--                   the record with it, and Cli.Heuristic.Marks is about its buffer;
--   Cli.Parser      struct Formula and parseCNF;
--   Cli.Scores      cacheScores and getPartialOrderScores of class CubeGenerator;
--   Cli.MinDegree   class PartialOrderHeuristicMinDegree, up to the normalization of the levels;
--   Cli.Order       class PartialOrderHeuristic: its normalization, getLevel and the factory;
--   Cli.Generator   class CubeGenerator: initPropagator and initQueue are `init_gen`, createCubes is
--                   `create_cubes`, and generate is `generate`;
--   Cli.Ranking     the scores and the order of the variables that main writes;
--   Cli.Main        the command line, and main with its exit codes. toJSON is in Driver.Json.
-- The generator asks the heuristic for a variable, and drives the propagator: fill it with the
-- lightest cube, propagate, branch, take the branch back, branch again.
--
-- Formula models cube_generator/src/formula:
--   Formula.ProblemTypes  struct Lit of ProblemTypes.hpp, Formula.Rewrite its two rewrite functions,
--                         and Formula.Models what its literals mean;
--   Formula.WeightedCnf   class WeightedCNF of WeightedCNF.hpp, over an interface of the numbers that
--                         it is a template of. Formula.Conditioned is about getConditionedFormula
--                         and getUnsatProblem, Formula.Weights about computeWeightUnitFree and
--                         displayStat, Formula.Serialized about serializeWeightedLits;
--   Formula.Display       what the classes print, as texts;
--   Formula.Floats        getWeightsInFloat;
--   Formula.Uniform       a formula with one weight for all literals, which both readers make.
--
-- Dimacs models the reader cube_generator/src/formula/ParserDimacs.cpp, which makes a WeightedCNF:
--   Dimacs.Clause  the sort of a clause, and the loop of parse_DIMACS_main that compacts it.
--                  Dimacs.Clause.Refined has the function on lists that it is measured by, and
--                  Dimacs.Clause.Meaning what the clauses say;
--   Dimacs.Reader  parse_DIMACS_main and parserDIMACS, over the class BufferRead of d4 as an interface. An
--                  exit, a failing assert and an exception are results. Dimacs.Reader.Lines is about the
--                  header and the comments, Dimacs.Reader.Progress and Dimacs.Reader.Fuel about
--                  the end of the loops, and Dimacs.Reader.Total about a whole call. Dimacs.Reader.Printed
--                  and Dimacs.Reader.RoundTrip are about a file of words with space between them.
--
-- Options models cube_generator/src/option: Options.Tables the enumerations with their words and getEnumValue,
-- Options.Records the classes Option, OptionCubeGenerator and OptionCounter with what they print, and
-- Options.Parse `Option::parse`, whose exceptions are results. Options.Parse.RoundTrip, Options.Parse.Bounds
-- and Options.Parse.Errors are about what it returns.
--
-- TreeDecomp models cube_generator/partialOrderHeuristic, the levels of the variables of a tree decomposition.
-- The threads of the constructor are the list of their results, in the order in which they get the
-- lock: TreeDecomp.Merge is about that order. In the source runFlowCutter is a stub; TreeDecomp.Degrees and
-- TreeDecomp.Levels are about the degrees that then make the levels, and TreeDecomp.Computed about
-- getPartialOrderComputed of CubeGeneratorCLI, which Pool takes its order from.
--
-- D4Heuristic models cube_generator/src/branchingHeuristic: the class D4BranchingCubeHeuristic, whose state is
-- the manager of d4 and the marks m_isMarked, and the factory. D4Heuristic.Marks and D4Heuristic.Next
-- are about `next`.
--
-- Driver models cube_generator/main.cpp, the program around CubeGeneratorCLI: Driver.Parse parseDIMACS,
-- Driver.Json emitJSON and the toJSON of cube_gen_cli, and Driver.Args main and its command line.
--
-- Pool models cube_generator/CubeGeneratorCLI.cpp, the generator whose cubes worker threads check:
--   Pool.Queue     its struct Cube and PriorityQueue;
--   Pool.Splitter  createCubes, initPropagator and initQueue, over interfaces of the propagator of
--                  the bipe library and of a heuristic with a state;
--   Pool.System    the state that the threads share, and the steps of the main thread (generate,
--                  submitSATCheck, collectResults) and of a worker (workerLoop) between the points
--                  where another thread can come in. A run is a sequence of steps of any threads;
--   Pool.Setup     what generate makes before its loop: D4BranchingCubeHeuristic, the partial order of
--                  TreeDecomp, the solvers of the workers, and the pool;
--   Pool.Counted is about m_inFlight, Pool.Cubes and Pool.Safe about what holds of every cube, and Pool.Measure,
--   Pool.Custody and Pool.Kept about where the cubes are. Pool.Lawful has the laws of the propagator of bipe, Pool.Shared
--   and Pool.Calls are about a call of createCubes over it, Pool.Models about the models of the cubes,
--   and Pool.Generated about a run from what Pool.Setup makes, with D4Heuristic as its heuristic.
--   Pool.Deadlock is about the states that no thread can leave; Pool.Shutdown is about the end of the
--   workers, and Pool.Stops about how a run can stop. Pool.Tests has runs that reach one, and
--   that lose a result.
--
-- Base holds the names that the modules share: Boolean tests, lists read by index, integers.
--
-- Bounds. `propagate` is given one round for each unassigned entry of m_assign and one for each
-- literal that waits on the trail: every round takes a literal off the queue, and every literal that
-- comes in takes an unassigned variable. The loop of `generate` is given 2 ^ (n + 1) rounds for n
-- variables: a cube with k open variables can give rise to at most 2 ^ (k + 1) - 1 calls of
-- createCubes.
-- The two loops of the reader in Dimacs are given fuel, and more of it than the file has characters is
-- enough: each turn that goes on consumes one.
-- Numbers. Variables and indices are natural numbers and literals are integers; the source keeps
-- both in `int`, which is enough for formulas of fewer than 2 ^ 30 variables. A weight of a cube is a
-- whole number. An `unsigned` that can wrap around, in TreeDecomp and Options, does so modulo 2 ^ 32.
--
-- Not modelled: the conversions std::stoi, std::stoul and std::stod, the formatting of streams, files and
-- threads as the system provides them; they are parameters, or stand for what they make of a text. The
-- clock is a stream of answers to the question whether the time is up. The SAT solver of d4 that
-- the workers call is a function of the formula and the cube: the code calls solve with the literals of the
-- cube, an overload that the copy of d4 in 3rdParty does not have, and getProblemManager, which the heuristic
-- does not have. std::priority_queue is a list of cubes with the lightest first. The log of CubeGeneratorCLI and the lines that
-- cube_gen_cli writes when it is verbose are left out. What
-- is in a vector past its end has no value. The levels that the
-- heuristic of Cli works with are an argument of it, so that they can be those of any partial order. The
-- random heuristic and the classes of partial orders that the factories name but the repository does
-- not hold are parameters. The libraries that cube_generator/3rdParty holds are other projects, and the
-- master in Go and the worker in Python are not C++.
pub mod Base
pub mod Cli
pub mod D4Heuristic
pub mod Dimacs
pub mod Driver
pub mod Formula
pub mod Options
pub mod Pool
pub mod TreeDecomp
