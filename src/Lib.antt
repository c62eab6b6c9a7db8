-- ===== src/Lib.antt =====
-- nspluginwrapper runs a browser plugin in a process of its own. The wrapper (src/npw-wrapper.c) is
-- the plugin that the browser loads; the viewer (src/npw-viewer.c) loads the real plugin. Each calls
-- the other by remote procedure calls over a Unix socket (src/rpc.c), whose arguments are integers,
-- strings, arrays and values of the plugin interface NPAPI, for which src/npw-rpc.c has marshalers.
--
-- What is modelled, and where:
-- - Prelude: the names that all modules share, and lists measured by native numbers.
-- - Rpc/Error, Rpc/Action: the error codes of src/rpc.h, and calls that change a state and may fail.
--   `if ((error = f(...)) < 0) return error;` is one bind; a failed assert or an abort() is a
--   third outcome.
-- - Rpc/Socket: _rpc_message_send_bytes and _rpc_message_recv_bytes of src/rpc.c. The kernel is a
--   script of what the next calls of send, recv and select do: any cutting, waiting, signal or
--   failure. The loops recur on the script. A script that is over stands for a kernel that takes
--   all that it is given, and that delivers nothing more.
-- - Rpc/Words: 32-bit words in network byte order, int32_t as its bit pattern, and the fields of
--   ieee_double_shape_t.
-- - Rpc/Message, Rpc/Reader: rpc_message_flush, rpc_message_send_* and rpc_message_recv_* of
--   src/rpc.c. The buffer's size is a field of the message.
-- - Rpc/Carries: the relation of a sending and a receiving function that the round trips are
--   stated with, which composes along the functions.
-- - Rpc/Args: rpc_message_send_args and rpc_message_recv_args of src/rpc.c, with the marshalers of a
--   connection as an argument.
-- - Rpc/Map: rpc_map_t of src/rpc.c.
-- - Rpc/Connection: rpc_connection of src/rpc.c: the status and the depths, rpc_dispatch and what it
--   calls, rpc_sync and rpc_end_sync, and rpc_method_invoke, rpc_method_get_args,
--   rpc_method_wait_for_reply and rpc_method_send_reply. An endpoint is the connection, its socket
--   and the state of the program's callbacks, which are arguments.
-- - Npapi: the marshalers of src/npw-rpc.c for NPRect, the X events of NPEvent, NPWindow, NPPrint,
--   NPPrintData, NPSavedData, NPUTF8, NPString, NPByteRange and notify data.
-- - Glib: what the program uses of the hash tables of GLib, as an interface with its laws. The tables
--   of the model are a parameter of that type.
-- - Objects: the stubs and proxies of NPObject in src/npruntime.c, NPN_RetainObject and
--   NPN_ReleaseObject of src/npw-viewer.c (the wrapper's are the browser's, and keep the same count),
--   and the marshalers of NPObject and NPVariant in src/npw-rpc.c. Each process has its objects by
--   their addresses. What it sends waits in a queue, first in, first out; the other process takes it
--   in a later step, in any interleaving. Where an object is allocated is given by the step.
-- - Identifiers: the cache of identifiers of src/npw-viewer.c, and the six NPN functions on
--   identifiers with their invoke_NPN_* and cached_NPN_* parts. How each remote call ends is an
--   argument. Browser says what NPAPI documents of identifiers.
-- - Wrapper: the life cycle of the wrapper in src/npw-wrapper.c: plugin_init, plugin_exit,
--   plugin_kill, plugin_start, plugin_start_if_needed and the entry points that call them. What the
--   system's calls return is an argument of each step.
-- - Streams: NPStream and StreamInstance in both processes: what NPP_NewStream, NPN_NewStream and the
--   two functions that destroy a stream keep in src/npw-wrapper.c and src/npw-viewer.c, and
--   do_send_NPStream and do_recv_NPStream of src/npw-rpc.c.
-- - Ids: the table of ids of src/utils.c, and do_send_NPIdentifier and do_recv_NPIdentifier of
--   src/npw-rpc.c as the wrapper and as the viewer build them, without the write and the read.
-- - Config: strexpand, strnstr and detect_plugin_viewer of src/npw-config.c. What the files are, and
--   whether a viewer can run the plugin, are functions from paths to Bool.
-- - Instances: the plugin instances of src/npw-common.c, over the hooks of their class.
-- - Malloc: the blocks of src/npw-malloc.c with their headers and guards. The allocator is a function
--   from sizes to addresses.
-- - Tests: the theorems at concrete inputs, with association lists for the hash tables, and a browser
--   whose identifiers spell what they stand for.
--
-- Numbers are exact; where C's type is narrower the model takes the remainder or the bit pattern that
-- the C conversion leaves. Memory is given by a function from sizes to Bool, the answer of malloc or
-- of the browser's allocator, and in the cache of identifiers by a script of what its next calls
-- return; X visuals by a function from visuals to ids. The loops of plugin_exit recur on what is left
-- of their counters. Two loops are on fuel: that of do_recv_NPByteRange and that of
-- _rpc_dispatch_until. Each round takes four bytes of the stream at least, so that one more than the
-- bytes on the stream is enough, where no callback puts bytes on it.
--
-- Not modelled: the creation and destruction of connections, the server thread and the event source
-- in src/rpc.c, which are calls of the system; the calls of an NPClass and their handlers in
-- src/npruntime.c, and what it does at the end of a connection; the marshalers of plugin instances;
-- the data of streams; the identifiers of src/npw-common.c; what --info prints and how plugin_init of
-- src/npw-wrapper.c reads it; the other handlers of the wrapper and of the viewer; the installation,
-- update and removal of plugins in src/npw-config.c, and the player src/npw-player.c.
-- The libraries that are copied into the repository (src/glibcurl.c, src/gtk2xtbin.c, npapi,
-- lsb-build) are not its own code.
mod Prelude
pub mod Rpc
pub mod Npapi
pub mod Glib
pub mod Identifiers
pub mod Ids
pub mod Config
pub mod Instances
pub mod Objects
pub mod Wrapper
pub mod Streams
pub mod Malloc
mod Tests
