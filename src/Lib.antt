-- ===== src/Lib.antt =====
-- Models of genkan, the greetd greeter and session locker, and what is proved of them.
--
-- The program has three processes. `genkan login` (src/app) runs a PAM conversation through greetd
-- and starts the chosen session. `genkan lock` (src/locker and crates/session-lock) asks the
-- compositor for a session lock, draws on every output, and unlocks when a PAM worker
-- (crates/lock-auth) authenticates the user. `genkan wallpaper` draws the desktop.
--
-- Files and code:
--   OutputSelection      crates/output-selection/src/lib.rs, the choice of an output
--   SessionLock          crates/session-lock/src/lib.rs (Frames, Lifecycle) and runtime.rs:
--                        Redraw and Geometry hold the pure parts, Retirement the hand-over of
--                        authentication between outputs, Runtime the state and its operations,
--                        Handlers the callbacks, Render and Loop one round of the main loop, System
--                        all of them as calls in any order
--   Conversation         src/conversation.rs: the operations, and their properties in Buffer, Sound,
--                        Attempts and Typing
--   Locker               src/locker/mod.rs: Services is what the presentation calls, Presenter its
--                        state and attempts, Dialogue the methods of the trait, Calls their
--                        sequences, Unlocking the lock runtime with this presentation
--   Greeter              src/app: State the state, the messages and what is asked of the runtime,
--                        Focus focus.rs (Order is where the keyboard moves), Flow auth_flow.rs,
--                        Operations, Guards, Handlers and Update mod.rs; under Update: Depth, Requests
--                        and Runs hold what is proved, with Tasks, Quiet, Effects, Answers, Outward and
--                        Windows below them
--   Greetd               src/auth.rs: the requests, and how a session is begun, recovered and cancelled;
--                        Written and Requests hold what a restart writes
--   Accounts             src/accounts.rs: Preferred the account proposed, Collected those offered,
--                        Sorted their order, Labels
--   Container            src/dynamic_wallpaper/container.rs: the readers, Boxes the boxes without children,
--                        Walk the walk over all boxes; Tree says which boxes a file has; Readers, Ceilings,
--                        Records, Counted and Bounds hold what is ensured
--   LockAuth             crates/lock-auth/src/lib.rs: messages as bytes; Numbers and RoundTrip hold what
--                        is proved of them
--   Examples             tests, and each theorem at a concrete input
--
-- State is a record that each operation returns anew; an error is a value. The trait `Presentation`
-- is a record of functions that the lock runtime takes as a parameter. Objects of the compositor,
-- descriptors and buffers are numbers. What the process does outside is a list of effects. Time is
-- an argument of each call, in milliseconds; a call that reads the clock twice reads one value.
-- Answers of the system (failing writes, allocations, presentation feedback) are arguments. The
-- tasks of the greeter are a list that `update` returns with the state; what greetd answers comes
-- back as a message.
--
-- Loops are recursion on the list that they go through, or on the number of turns that the source
-- sets (32 events in a refresh of the presentation). `update` of the greeter calls itself through a
-- function that it is given, to a depth of 2, which is enough for any answer beyond (Depth); the check of a
-- container is given one more than the length of the file, which is enough (Bounds); nothing else
-- runs on fuel. Numbers of attempts and pages wrap around as the source's do. A text is the list of
-- its code points, in LockAuth and Container the list of its bytes, where LockAuth takes the telling
-- of valid bytes as a parameter. The worker's client, the wallpaper and the drawing of text are
-- parameters of Locker, and so is greetd's socket of Greetd. A poll of the client's channel gives an
-- event or none and leaves a client in either case, so that events may arrive after an empty poll.
--
-- Not modelled: the start of the greeter, its views and key bindings, and the fields of its state
-- that only views read; D-Bus; the decoding and the playback of wallpapers; the parsing of desktop
-- entries; pixels, text shaping and the widgets; input and output; the feature `lock-test`.
pub mod Accounts
pub mod Container
pub mod Conversation
pub mod Examples
pub mod Greetd
pub mod Greeter
pub mod LockAuth
pub mod Locker
pub mod OutputSelection
pub mod Prelude
pub mod SessionLock
