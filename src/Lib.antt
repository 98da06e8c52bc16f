-- ===== src/Lib.antt =====
-- Verification of the Malibu engine: the DOM slab and tree with its selectors and the maps to script
-- objects, the script values, objects and heap, the calls from scripts into the DOM, the WebSocket codec and receiver, the event loop, the
-- stores of an origin with its cookies, and the security checks.
--
-- A page is a `Document`: a slab of node slots (`NodeTable`) that script handles name, and the cores
-- that the slots point to. `DOMTree` mutates it; the command buffer queues mutations from script, pins
-- the nodes that they name, and flushes them against the tree. The event loop calls closures: tasks,
-- timers, microtasks, animation frames. The WebSocket is fed with what the network delivers. The
-- object graph and the wrapper cache tie nodes to script objects. Script values are NaN-boxed words
-- that may point to objects on the heap, which a collection marks from the roots and sweeps. A WebCall
-- goes from a call site of the bytecode into the DOM, on a fast path while its guards hold. Scripts
-- keep data in the stores of their origin and in the cookies of their host. Before a resource is
-- loaded its URL is tried against the content security policy of the document, which compares origins.
--
-- Files, and what they model:
--
--   Common             lists, Boolean tests and options over the native numbers; no code of the engine
--   Dom.Handle         core/include/malibu/types.h
--   Dom.NodeTable      dom/node_table.cpp, core/include/malibu/dom/node_table.h: alloc, free, resolve,
--                      pin, unpin, state_of, set_state. The back of `free_list_` is the head of the
--                      list. Children: Invariant (free-listed slots are dead and listed once), Reuse
--                      and Alloc (what alloc does), Stale (freed handles), Release (pins, double frees)
--   Dom.Attributes     the sorted attribute list of dom/document.cpp
--   Dom.Document       `Document` of dom/document.cpp; a core's address is its place in `cores`
--   Dom.Creation       createElement and its kin, parentNode, childNodes
--   Dom.DomTree        connectivity, appendChild, insertBefore, removeChild. Children: Cores (what the
--                      state changes and the writes do to cores), Links (parents and children after a
--                      mutation)
--   Dom.Content        setAttribute, getAttribute, the textContent setter
--   Dom.Siblings       the reads that walk the tree: siblings and textContent. Child: Order
--   Dom.Selectors      the selectors of dom/document.cpp: parse_selector (child Parsing: it ends),
--                      Matching (matches_compound, matches_chain) and Query (the two queries; child
--                      Compounds: what a compound asks for)
--   Dom.WrapperCache   dom/wrapper_cache.cpp, js/vm/realm.cpp: the wrapper of a node in a realm
--   Dom.CommandBuffer  dom/dom_command_buffer.cpp: push and flush. Children: Flush, Errors (what a command
--                      that fails leaves)
--   Network.WebSocket  network/websocket.cpp: ws_encode_frame, ws_decode_frame, the outgoing frames and
--                      feed
--   Network.HttpCache  network/http_cache.cpp: what is stored and found; child Freshness
--   EventLoop          core/event_loop/event_loop.cpp: the queues, timers, checkpoints and the runs
--   ObjectGraph        unified_object_graph/uog.cpp: the wrapper and the listeners of each node. Children:
--                      Lookup (what is found after a notification), Keys
--   Js.Value           js/vm/value.cpp: the NaN-boxed word; child Boxing: boxing and unboxing
--   Js.Object          js/runtime/objects.cpp: Props (JSObject), Arrays (JSArray; View, Effects and
--                      Refines: the list of values and holes that elements and flags stand for),
--                      Scopes (Environment)
--   Js.Heap            js/heap/heap.cpp: mark and sweep. Children: Marking (what a mark does), Fields (what
--                      an object refers to), Loop (the marking loop), Correct (a whole collection)
--   Js.Bytecode        core/include/malibu/js/bytecode/bytecode.h, js/bytecode/bytecode.cpp: instruction words,
--                      call sites; child Encoding
--   WebCall            webcall/webcall_dispatch.cpp: handlers, guards and, in Dispatch, what a dispatch does
--   Storage.Maps       `std::map` from strings, as the two stores below use it
--   Storage.WebStorage storage/web_storage.cpp; child Refines
--   Storage.IndexedDb  storage/indexed_db.cpp; child Laws
--   Storage.CacheStorage storage/cache_storage.cpp
--   Storage.Cookies    storage/cookie_store.cpp. Children: Urls (the helpers), Document (assignments to
--                      document.cookie), Boundary (what they can do), Retrieval
--   Storage.Engine     storage/storage_engine.cpp; child Isolation
--   Security.Text      byte strings: the searches and splits of the two files below
--   Security.Origin    security/origin.cpp, security/same_origin_policy.cpp
--   Security.Csp       security/csp_enforcer.cpp
--   Tests              runs on small inputs, and the theorems applied to them
--
-- Words are numbers with their wrap-around written out: handles, ids and clocks at 2 ^ 32 and 2 ^ 64,
-- the pin count at 256, the sum of position and length in the decoder and that of `JSArray::set_index`
-- at 2 ^ 64, a port at 2 ^ 16. Text is a list of UTF-16 units, bytes are numbers below 256. The
-- `max_size` of the elements of an array is a parameter of the operations that make it longer; beyond
-- it they end by `length_error`.
--
-- Fuel. The walks of `DOMTree` (along parents, into children) are loops without a bound in the code;
-- they take fuel, and an outer `none` says that it ran out. `feed` starts its loop with one unit more
-- than there are bytes, which is enough because a frame takes two bytes. A microtask checkpoint need
-- not end; its fuel is a parameter, and its termination has a condition on the closures. A collection
-- starts with one unit more than there are objects, which is enough on a heap that is closed under its
-- pointers. `parse_selector` starts with one more than there are bytes, since each round takes one. A
-- chain of prototypes or scopes, and the walks of a query, take fuel as a parameter.
--
-- What is not modelled: log lines; mutexes, which make each operation one step; style and layout
-- pointers; the handshake hash (OpenSSL); and the other parts of the engine (the parser, compiler and
-- interpreter of scripts, CSS, layout, HTML, WebAssembly, rendering, applications). The time of day is
-- a parameter of the cookie store. Closures of the event
-- loop are the parameter `Calls`. The layout engine of a flush is the list of the nodes that it was
-- told of.
pub mod Common
pub mod Dom
pub mod EventLoop
pub mod Js
pub mod Network
pub mod ObjectGraph
pub mod Security
pub mod Storage
pub mod Tests
pub mod WebCall
