-- ===== src/Lib.antt =====
-- Verification library of libtmux-go, the typed Go API of tmux: the parts of the package tmux that
-- read and write the control-mode protocol, the bounded queue between the reader of the stream and its
-- consumer, the layout checker, the order of versions, and the values of options: their escapes, their
-- sparse arrays, and the tables parsed from them; the plans of recorded commands, and what a failed
-- command's error claims; filters' criteria; a terminal's bytes as plain text; the pool of
-- control connections; and the environment's variables.
--
-- A control client keeps one tmux process in control mode. It writes commands as single lines, and
-- reads a stream in which replies, framed by guard lines, stand between notifications. The reader
-- gives each line to the stream parser; a reply's frame goes to the request that waits for it, and a
-- notification's line goes into the bounded queue, from which the consumer takes it and parses it.
--
-- Files and the code they are about, by path from the repository's root:
-- * Notification, tmux/control_notification.go: ParseControlNotification as parse_notification, with
--   errors as values that carry the source's offsets and reasons. Notification/Table is the
--   vocabulary in tmux/option_generated.go, less the releases that first sent a kind;
--   Notification/Subscriptions is the accessor Subscription.
-- * Protocol, tmux/control_protocol.go: controlStreamParser as the record StreamParser, consume,
--   arm, disarm and finish as functions on it, parseControlGuard as parse_guard. consume_all gives
--   the parser the lines of a stream one after the other, up to the first violation.
-- * Encoding, tmux/control_protocol.go: encodeControlCommand as encode_command. Encoding/Reader is
--   an independent reader of the quoting, the specification of what is written.
-- * Layout, tmux/internal/layout/layout.go: Cells as count_cells; the parser's text and offset are
--   the bytes from the offset on.
-- * Queue, tmux/control_notification_queue.go: the byte ring and its operations. Queue/Ring is the
--   ring buffer, Queue/Header the big-endian header of a record, Queue/Spec the plain list of records
--   that the ring is to behave as, Queue/Wakeup the blocking read beside the producer as a step
--   relation.
-- * SparseArray, tmux/sparse_array.go: NewSparseArray as new_sparse_array, Get as get, With as
--   with_value, Append as append; position is a binary search. SparseArray/Updates has the walk from
--   the front that the search is to agree with.
-- * ComplexOptions, tmux/complex_options.go: CommandAliases and TerminalFeatures as one table of
--   entries in the order of their first definition, with a map from a name to its place; set and
--   lookup as they are there, ServerOptionValues.CommandAliases as command_aliases and
--   ParsedTerminalFeatures as terminal_features, from the option's raw items; TerminalOverrides as
--   a table of tables, ParsedTerminalOverrides as terminal_overrides.
-- * Version, tmux/version.go: rank, Compare and AtLeast as rank, compare and at_least, on versions
--   that are parsed already. Version/Levels has the order that they are to follow, part by part.
-- * Plan, tmux/plan.go: Ref, Op, Dispatch, Sequential as sequential, Folding as folding,
--   checkGrouping, resolve, render and refuseIfGrouped. Plan/Running is RunWith as run_with, with the
--   loop's body as run_dispatch, and attribute; the server that runs a command list is
--   a function from its state and the arguments, and Host is what a run asks of it before. The map of
--   created IDs is a list, and a result is changed in place in the list of results. Folding's rounds
--   are counted by fuel, one for each operation, and each round takes at least one.
--   Plan/Rendering is renderDispatch, Plan/Results what a run keeps, and Plan/Preview is Preview, with
--   the context that it makes for itself.
--   Plan/Chained, Plan/Planners, Plan/Complete and Plan/Independence compare the planners; Plan/Traces
--   describes a run by the server's answers alone, as a relation, and Plan/Attribution, Plan/Dispatched and
--   Plan/Statuses lead there.
-- * Command, tmux/command.go: CommandError as newCommandError and newRedactedCommandError make it, and
--   escapeTrailingTmuxCommandSeparator. Command/Diagnoses says what the code looks for in a printed line
--   by the line's parts. Command/Separators has a reader of one argument as tmux takes
--   it apart.
-- * Terminal, tmux/internal/termtext/termtext.go: Normalizer, with the state of its parser as Machine,
--   and AppendChunk as append_chunk. Its loops are on fuel, as many rounds as there are bytes, since
--   each takes at least one. Terminal/Runes is what it uses of unicode/utf8.
-- * Pool, tmux/control_pool.go: controlLanePool as LanePool. acquire is poll, take and settle, and
--   release is release up to where it unlocks and finish_release behind the closing of the client.
--   Pool/Steps is the pool among its callers as a step relation, with a step for each of take, settle,
--   release and finish_release; a lane that has been received but not settled, and one whose client is
--   being closed, have lists of their own.
-- * Filter, tmux/filter.go: splitFilterLookup as split_lookup, filterIntCriteriaPossible as
--   int_possible and filterTextCriteriaPossible as text_possible. An int is its distance from the
--   least int; the compiler of regular expressions is a parameter. Filter/Ranges has the bounds.
-- * Environment, tmux/environment.go: setEnvironment, changeEnvironmentState, showEnvironment and
--   getEnvironment on a server that is a function from its state and the arguments;
--   parseEnvironmentLines as parse_lines, whose map is a list of entries with different keys.
--   Environment/Requests is an independent reader of the arguments, as tmux takes flags and operands
--   apart.
-- * Escapes, tmux/option_decode.go: decodeArgsEscapedBytes as decode_escaped, the quoting of an
--   option's value, and parseDecodedOptionKey as parse_key.
-- * Text, what the code uses of the Go packages strings and strconv (HasPrefix, Split, ParseUint,
--   ParseInt), over lists of byte values.
-- * Base, the names and lemmas the parts share, over the native natural numbers.
--
-- Bytes are natural numbers; where a theorem needs them below 256 it says so. int is the 64-bit one.
-- A field of the record of a queue's header is 32 bits wide, so the queue's theorems are for limits
-- below 4 GiB. The layout parser recurs on fuel: each step takes at least one byte for every two
-- units, so that twice the text's length and one more is enough. The binary search brings its bounds
-- nearer in each round, and recurs on the length. Locks are not modelled: a method that holds its lock
-- throughout is one step.
--
-- Not modelled: the read of the process's output and the requests (tmux/control_stream.go,
-- tmux/control_request.go), whose work is goroutines and processes; the generated tables of options
-- and formats; the running of tmux as a subprocess, which is a parameter where a part needs it; and
-- the other modules of the repository (workspace, mcp, tmuxq), which use this API.
pub mod Base
pub mod Text
pub mod Notification
pub mod Protocol
pub mod Encoding
pub mod Layout
pub mod Queue
pub mod SparseArray
pub mod ComplexOptions
pub mod Version
pub mod Escapes
pub mod Command
pub mod Environment
pub mod Filter
pub mod Plan
pub mod Pool
pub mod Terminal
