-- ===== src/Lib.antt =====
-- PaneDock is a file manager for Windows with several panes and tabs. This library models the
-- logic that its core takes decisions with, and proves what makes it correct. The Win32 windows,
-- COM and the Shell stand outside; what the code asks of them is a parameter.
--
-- The parts, each in the file of its name with the proofs in its child modules:
--
-- Shutdown: the reducer of the close sequence, src/core/shutdown.h and src/core/shutdown.cpp.
-- State is ShutdownSequence::State, step is ShutdownSequence::step, with the larger cases as
-- helpers named for what they do. The two counters are 32-bit and wrap.
--
-- Coordinator: ShutdownCoordinator in src/core/shutdown_coordinator.h and
-- src/core/shutdown_coordinator.cpp, which carries out the actions of the reducer against the
-- effects of the app. The app is the parameter World, whose answers may depend on every effect
-- before, and whose events may reach the reducer while an effect runs. The retry after a post
-- that failed calls the coordinator again, so run recurs on fuel; four more than the posts that
-- may still fail are enough.
--
-- Ids, Model, History, Panes, Groups and Layouts: src/core/model.h and src/core/model.cpp. Ids
-- holds the searches by id, Model the data and is_valid, History the tab history, Panes the
-- tabs, Groups the groups and pinned locations, and Layouts switch_layout. A function that
-- returns false without a change is none here, and a change of a reference is the new value. A
-- double is its sign and a multiple of the smallest subnormal; only its order is read.
--
-- FreshNames: next_group_id, next_tab_id, next_group_name and normalize_group_name of
-- src/core/model.cpp. std::to_string and the clock are parameters; the search for a free name
-- has fuel for one step more than the names in use, which is enough.
--
-- LayoutRects and Realization: src/core/layout.h and src/core/layout.cpp, the rectangles and the
-- plan of which panes get a view. std::lround(available * ratio) and the quotient of two numbers
-- as double are parameters; LayoutRects/Strip has the strip of layout buttons and the ratio of a
-- dragged divider.
--
-- TabDrag: src/core/tab_drag.h and src/core/tab_drag.cpp. Keys: src/core/key_routing.h and
-- src/core/key_routing.cpp. BoundedLru: src/core/bounded_lru.h. Transition:
-- src/core/group_transition.h and src/core/group_transition.cpp, against any effects.
--
-- Commands: src/app_shell/pane_control_id.h, which command id means what.
--
-- Unicode, Json and SessionFiles: src/core/session.cpp and src/core/session.h. Unicode is utf8
-- and wide, between the UTF-16 units in memory and the bytes on disk. Json is the value type of
-- the session file, with escape and dump in Json/Print and the Parser in Json/Parse; the stream
-- that writes a double and from_chars on a number are parameters. The parser recurs on fuel, one
-- more than twice the length of its input. SessionFiles is read_file, write_session and
-- read_session on a directory of three texts; every operation of the file system may fail, a
-- rename takes effect in one step or not at all, and a crash may leave any directory that the
-- function passes through. The codec of documents is the interface SessionCodec, which Session
-- fills; its read_back is a document as it is read again, which preserves the text that it was
-- read from.
--
-- Session: encode, decode, serialize_session and deserialize_session of src/core/session.cpp,
-- between the application state and the values of the file. Session/Words holds the keys,
-- Session/Fields how fields are read and written, Session/Encode and Session/Decode the two
-- functions with a helper for each loop, and Session/Document the texts; Session/Stored fills
-- the interface of SessionFiles. encode writes over the values that were read, so that fields of
-- other versions stay. A chain of early returns is a do block of Option.
--
-- SessionWriter: src/app_shell/session_writer.h and src/app_shell/session_writer.cpp, when and
-- whether the session is written, with the handler of its timer in src/app_shell/main.cpp. The
-- state holds the writer's members, the three files and when the timers of the windows are due;
-- the tick count, a SetTimer that fails and what fails in the files are arguments of a call. It
-- uses SessionFiles with the codec of Session.
--
-- Reentry: src/app_shell/deferred_messages.h and src/app_shell/shell_reentry_guard.h, the
-- interactions held during a Shell call. The guard uses the reducer of Shutdown, as the
-- coordinator does.
--
-- Common holds what the parts share: Boolean tests, lists over native numbers, and signed
-- integers. All but the two counters of Shutdown and the integers of LayoutRects and TabDrag are
-- natural numbers that stay below 2^64; an int overflow is undefined in the source and does not
-- occur in the model.
--
-- Not modelled: src/core/bounded_order.h, src/core/columns.h, src/core/address_text.h,
-- src/core/navigation.h, and the other files of src/app_shell, managed_list, shell_core,
-- sidebar, file_operations and explorer_host, which draw, run threads or call COM.
pub mod Common
pub mod Shutdown
pub mod Coordinator
pub mod Ids
pub mod Model
pub mod History
pub mod Panes
pub mod Groups
pub mod Layouts
pub mod TabDrag
pub mod BoundedLru
pub mod LayoutRects
pub mod Realization
pub mod Transition
pub mod Reentry
pub mod Keys
pub mod Commands
pub mod Unicode
pub mod Json
pub mod SessionFiles
pub mod FreshNames
pub mod Session
pub mod SessionWriter
