-- ===== src/Lib.antt =====
-- nak: a shell whose frontend reads command lines, turns each into a plan of processes and pipes,
-- and asks one or more backends, on this machine or behind a remote command, to carry it out.
--
-- The parts, and the way a line takes through them:
--   frontend/src/parse.rs parses the line; frontend/src/prefs.rs expands aliases in its commands;
--   frontend/src/edit.rs walks the tree and calls frontend/src/plan.rs to build the plan. The
--   frontend carries the plan out by calls of `Endpoint` in protocol/src/comm.rs, which turn into
--   lines of JSON with the types of protocol/src/lib.rs. A backend's loop in backend/src/main.rs
--   handles such a line itself, by `Request::route`, or writes it to a backend that it started.
--   backend/src/exec.rs opens pipes and starts processes; backend/src/machine.rs decides which job
--   may start when.
--
-- The files:
--   Base            shared names, Boolean tests, lists, maps, and `Outcome`: a value, an `Err`
--                   (`fault (failed e)`), a panic (`fault panicked`), fuel that ran out, or
--                   behaviour that Rust leaves undefined (`fault undefined`)
--   Parse           parse.rs: `Consume` is the text and the position; a loop runs on one round
--                   more than the text has bytes, which is enough since each round but the last
--                   takes a byte
--     Parse/Shape   the trees that the parser returns
--     Parse/Words   the invariant of the position; Parse/Pipes the loops of commands and pipelines,
--                   Parse/Total the parser as a whole,
--                   Parse/Rest what is left of the text, Parse/RoundTrip a printer of
--                   quoted words, whose lines are read back
--   Prefs           prefs.rs, `Prefs::expand` and `Prefs::load`; Prefs/Safe, Prefs/Prefix its theorems
--   Plan            plan.rs: the types; Plan/Builder `PlanBuilder`, Plan/Ready `Plan::empty` and
--                   `Plan::single`; Plan/Execution what a plan asks of the one who carries it out
--   Edit            edit.rs: `convert_single`, `convert_ast`, `parse_command_simple` and the readers
--   Frontend        comm.rs: `StackedRemotes` and `EndpointExt`; Frontend/Loop main.rs, `one_loop`: the
--                   carrying out of a plan and the events; Loop/Ends, Loop/Carry, Loop/Cancel its theorems
--     Prompt        main.rs, `one_loop`: the reading back of directories, and the prompt
--     Run           main.rs, `one_loop` and `remote_run` on a list of events; Run/Waits and Run/Rounds
--                   say when it reads a command line, Run/Replies and Run/Returns follow the answers
--                   of a backend up to the next prompt, Run/Exits the end of `nak --command`
--     Editing       comm.rs: the editing of a file for a job, and `run`; Editing/Answered the way of
--                   such a job through both sides
--   Protocol        the types of lib.rs; Protocol/Ids its counter, which wraps at 2 ^ 64
--     Endpoint      comm.rs, `Endpoint`; Endpoint/Calls its calls as a data type, Endpoint/Tree the
--                   invariant, Endpoint/Perform and Endpoint/Runs one call and many
--     Route         comm.rs, `Request::route` and `Backend`
--   Backend/Machine machine.rs: `completed` and `resolve_tasks` call each other, so `completed` runs
--                   on the depth of those calls; what is stated holds at every depth from one or
--                   two on. Machine/Invariant says when a machine is well-formed; the other children
--                   say what each operation does to such a machine, Machine/Order and Machine/Runs what
--                   any sequence of them leads to
--   Backend/Exec    exec.rs: `run` and the pipe ends; Exec/Events the tasks and the events. The fuel
--                   of `process_tasks` bounds its rounds; no theorem here rests on it
--   Backend/Relay   main.rs: the loop of `run_backend`, and the thread of `begin_remote`
--   Backend/Service main.rs, `AsyncBackendHandler`: the queue of events of exec.rs
--     Service/Arrival says what the calls of an endpoint come to there; Backend/Reports main.rs,
--                   `ExecHandler`
--   Backend/Editor  main.rs: the editor socket, `run_editor`, `run_pager` and `main`; Editor/Refused
--                   the connections of `run_backend`
--   Recorder        tools/record/src/main.rs: the entries of a recording; Recorder/Disk its file, with
--                   Disk/RoundTrip and Disk/Bounds; Recorder/Piper the copying between descriptors,
--                   on lists of what the system answers, with Piper/Lossless and Piper/Lost
--     Session       the loop of `record`, on a list of rounds; Session/Told, Session/Rounds and
--                   Session/Faithful what it tells, Session/Follows and Session/OnDisk other sinks
--     Replay        `main` on a recording: Replay/Timely, Replay/Whole; Recorder/Display how it is
--                   printed, Display/Bytewise; Recorder/Tool the rest of `main`, and `setup_master`
--   Tests           runs on the repository's own test inputs, and instances of the theorems
--
-- How the code is modelled: `&mut self` is a state that is passed on; a panic (an assertion, an
-- `unwrap`, an index out of range) is a value of `Outcome`; a `HashMap` that is only looked up is a
-- function; the conditions of a job, which are counted and walked through, are a list in the order
-- of that walk; a `String` is the list of its bytes; a newtype over `usize` is a number. The JSON
-- library, the transport, the handlers and the operating system are parameters, and so are the crates
-- bincode, byteorder and termion. Where the system answers call by call, its answers are a list, and
-- a loop that ends with them recurs on that list.
--
-- Not modelled: the start of a backend's process and of the threads; the line editor; in
-- tools/record the opening of the terminal and the start of the program. The system
-- calls that set up pipes and sockets carry no decision of this code.
pub mod Base
pub mod Protocol
pub mod Plan
pub mod Parse
pub mod Prefs
pub mod Recorder
pub mod Edit
pub mod Frontend
pub mod Backend
mod Tests
