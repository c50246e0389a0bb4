-- ===== src/Lib.antt =====
-- A model of experimaestro, a scheduler of experiments, with the theorems about it.
--
-- The program. A workspace (src/workspace.cpp) keeps jobs, which depend on other jobs and on tokens
-- of which there is a bounded number. A job is submitted, counts the dependencies that are not met,
-- and starts a thread when the count is zero: the thread takes a lock of every dependency, runs the
-- command line (src/commandline.cpp) by a launcher and a connector (src/launchers, src/connectors),
-- waits for the process, and then tells the job's dependents. A signal handler sets the mode in which
-- no further job starts.
-- Types (src/type.cpp), values (src/xpm.cpp) and scalars (src/scalar.cpp) are what the parameters of a job
-- are made of. A register (src/register.cpp) finds types by name. Task::submit (src/task.cpp) takes a
-- value, computes its identifier and its path, configures it (generate, validate, seal), adds to the new
-- job a dependency on each job whose value it finds inside, and hands the job to the workspace. A client
-- (src/rpc) asks a server over a socket.
-- Paths (src/filesystem.cpp) name the files of a job on a local or a shared file system.
--
-- The files, and the code that each is about:
--   Errors                exceptions as values (src/common.cpp, include/public/xpm/common.hpp)
--   Path                  paths (src/filesystem.cpp), with their searches for a byte
--   Connector             directories and mounts (src/connectors/connectors.cpp)
--   Scheduler             the state (include/public/xpm/workspace.hpp); below it, of src/workspace.cpp,
--                         Checks (Dependency::check, Job::dependencyChanged, jobCompleted, start),
--                         Locks (Dependency::lock, CounterDependency), Jobs (Workspace::submit,
--                         Job::addDependency), Threads (the thread of Job::start,
--                         CommandLineJob::run); and the proofs: Counted, Sound and Reach (the counter
--                         of a job), Starts (when a job starts), Ends (the depth of the checks),
--                         Failure, Progress, Tokens
--   Signal                sigexitHandler of src/workspace.cpp
--   Variables             Workspace::set, find, get, has of src/workspace.cpp
--   Scalar                scalars (src/scalar.cpp): Conversions, Copies, Json, Casts
--   Value                 values as trees (src/xpm.cpp): Flags, Sealing, Tags, Arguments (the class
--                         Argument), Maps (MapValue::set, get, hasKey, equals), Folding (the loops over
--                         the arguments of a type and its parents), Generation, Validation,
--                         Configuration, Digest (updateDigest, uniqueIdentifier), Dependencies
--                         (addDependencies), Locating (PathGenerator)
--   Register              addType and getType of src/register.cpp, and Store, Loading and Whole
--                         (Register::load), Creation (Value::create of src/xpm.cpp)
--   Task                  Task::submit of src/task.cpp, which joins Value and Scheduler
--   Launcher              EnvMatcher and the OAR command (src/launchers/oar.cpp), Redirections
--                         (src/launchers/launchers.cpp)
--   Local                 the local connector (src/connectors/local_unix.cpp): Modes (fileType),
--                         Processes (waitProcess, Pipe, LocalProcess), Locks (lock, with FileLock of
--                         src/connectors/connectors.cpp), Removal (remove)
--   Rpc                   the client's requests and answers (src/rpc/jsonrpcclient.cpp)
--   Types                 the hierarchy of types (src/type.cpp): Hierarchy, Shared, Ranked
--   Command               command lines (src/commandline.cpp): their JSON, Context (auxiliary files),
--                         Transform (the variables in a text), Output (what a line is written as)
--   Script                protect_quoted of src/scriptbuilder.cpp, and Writing (ShScriptBuilder::write)
--   Prelude               names, lists, texts and tests that the others share
--   Samples               concrete runs
--
-- The model. An object is its number: a job and a token are indices of functions in the workspace
-- record, a dependency is its job and its place. Methods are functions from workspace to workspace,
-- and a method that may throw gives a Result. A thread is cut where it takes and gives back
-- WORKSPACE_MUTEX: the stretches between are steps of the relation Scheduler.Reach.Step, which the
-- program, the threads and the machine take in any order. A thread that gives its start up gives
-- the mutex back before it releases its locks: this release is no step, since another thread may come
-- in at any point of it. Unsigned integers wrap: 2^32 for tokens,
-- 2^64 for the counter of a job. A std::string is a list of bytes. The clients of a lock file take
-- their steps (Local.Locks.Step) in any order: each ends at a call of the system, so that another
-- client may come in between two calls. A tree of files is a value, and remove gives what is left of it.
--
-- Fuel. Dependency::check is recursive over the dependents of failed jobs: a unit of fuel for each
-- job is enough. Workspace::find and Connector::mkdirs are loops that do not always end; the bounds
-- under which they do are among the results. The loops of Type::accepts and Type::lca over the parents
-- of a type end with a unit for each type up to it; the loops of generate and validate use the same
-- bound (Types.Ranked), and validate one more unit for each level of the values (Value.Maps.Levels). Register::getType needs one unit more
-- than the name has pairs of brackets.
--
-- What is a parameter: the files and processes of a machine (Connector.Machine,
-- Scheduler.Threads.Surroundings), the functions on doubles, regular expressions and numbers in texts
-- (Scalar.Numbers), the shell that runs a script (Script.Shell), SHA-1 and the bytes of numbers
-- (Value.Digest.Hash), the formatting of a count, the reading of a number in an answer, and what a
-- generator gives (it depends on the workspace and the outermost value), the JSON text of the
-- parameters of a command, the YAML text of the tags and the paths of a job that is written, the number
-- of the job that a locator in JSON stands for, and the file
-- descriptors that a machine gives.
--
-- Not modelled: the logging, the listeners, the server and the bindings, which only pass on what the
-- modelled parts compute; what is read from YAML and written as JSON text, and the objects of values; the
-- command line of a register, which is the library CLI11; the sockets of src/rpc; the system calls of
-- src/connectors themselves, the environment of a process, and the connector for SSH, which calls the
-- library libssh. Task::submit is given its workspace and
-- its launcher.
pub mod Command
pub mod Connector
pub mod Errors
pub mod Launcher
pub mod Local
pub mod Path
pub mod Prelude
pub mod Register
pub mod Rpc
pub mod Samples
pub mod Scalar
pub mod Scheduler
pub mod Script
pub mod Signal
pub mod Task
pub mod Types
pub mod Value
pub mod Variables
