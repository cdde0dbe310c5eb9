-- ===== src/Lib.antt =====
-- Zireael: a terminal rendering engine in C, deterministic and without hidden allocation. This
-- library models the parts of it that move events and bytes within fixed capacities.
--
-- The parts and how they interact
--   The platform layer feeds bytes to the input parser, whose events go through the event queue
--   (core/zr_event_queue.c) to the packer (core/zr_event_pack.c), which writes them as one batch
--   into the caller's buffer. The queue keeps the bytes of user and paste events in a ring of its
--   own. Drawing goes through the framebuffer to the diff, which asks the damage tracker
--   (core/zr_damage.c) which cells have changed. All of them stand on the helpers of util/ (checked
--   arithmetic, little-endian bytes, ring, vector, string builder) and on the UTF-8 decoder of
--   unicode/, over which the segmentation into grapheme clusters, the width policy and the wrapping of
--   text are built.
--
-- The files (paths from the root of the repository, whose C sources are in src/ and include/)
--   Prelude, Prelude/*: names passed on, Boolean tests and lists over the native numbers, memory as
--     a list of cells (Buffer), elements of one size in it (Cells), circular arrays (Window), bits.
--   Result: include/zr/zr_result.h, the result codes and the widths of integers.
--   Checked: src/util/zr_checked.h (zr_checked_add_size, zr_checked_align_up_size, ...).
--   Bytes: src/util/zr_bytes.h (zr_load_u32le, zr_store_u32le, zr_byte_reader_*, ...).
--   Ring, Vec, StringBuilder: src/util/zr_ring.c, zr_vec.c, zr_string_builder.c.
--   Event: include/zr/zr_event.h and zr_event_t of src/core/zr_event_queue.h.
--   UserRing: the user_* fields of zr_event_queue_t, zr_evq_user_alloc_locked and
--     zr_evq_user_free_head_locked of src/core/zr_event_queue.c. UserRing/Layout is the abstract
--     view: the live slots in the order of their release, as one run or as two.
--   EventQueue: the static helpers of src/core/zr_event_queue.c; EventQueue/Api: its public
--     functions. EventQueue/Items is the client's view and the invariant, EventQueue/Spec the
--     abstract queue; Coalesce, Replace, Remove, Store, Payload, Push, Post, Pop and Init are
--     proofs, and Run follows sequences of calls.
--   EventPack: src/core/zr_event_pack.c and .h. EventPack/Record is the wire format of a record,
--     and EventPack/Decode a reader of the records.
--   Utf8: src/unicode/zr_utf8.c. Utf8/Scalar is the encoding of RFC 3629.
--   Damage: src/core/zr_damage.c and .h. Damage/Cover says which cells are covered.
--   Unicode: src/unicode/zr_unicode_data.c and .h. Unicode/Search compares its binary searches with a
--     scan; Unicode/Rows holds a few rows of the tables, for tests.
--   Grapheme: src/unicode/zr_grapheme.c and .h. Grapheme/Rules states the rules of UAX #29 that it
--     has (all but GB9c), and Grapheme/History what the break state stands for; Next is about one
--     call, Clusters about the loop of the callers.
--   Width: src/unicode/zr_width.c. Width/Cluster decodes the scalar values, Width/Policy states the
--     width policy on them.
--   Wrap: src/unicode/zr_wrap.c. Wrap/Step is one round of greedy wrapping, Wrap/Ends its termination,
--     Wrap/Offsets what it writes.
--   InputParser: src/core/zr_input_parser.c. Numbers, Csi, Extended, Mouse and Parse are its functions;
--     Progress and Loop say how far it reads, Decimal, Text and KeyReports what it reads, OpenEscape,
--     Incomplete and Cut what it keeps back, and Queue what it does to the event queue. Keys holds
--     the sequences by which xterm reports special keys.
--   Framebuffer: rectangles and cells of src/core/zr_framebuffer.c and .h. Framebuffer/Paint is the
--     painter with its clip stack and cell writes, Glyphs zr_fb_put_grapheme, Fill zr_fb_fill_rect
--     and zr_fb_clear, Repair zr_fb_repair_row, Text zr_fb_draw_text_bytes; Cells, Pairs, WriteCell,
--     Write, Put, FillPairs, RepairCell and RepairPairs are about wide glyphs, each a lead cell and
--     a continuation cell, Clear about clearing, Clip and ClipStack about where the painter writes,
--     Layout about the columns of drawn text.
--   Base64: src/core/zr_base64.c. Base64/Rfc4648 is the decoding of RFC 4648.
--   Each Tests module runs its component and applies its theorems at concrete inputs.
--
-- How the code is read
--   - A function f of the C code is a definition of that name without the prefix zr_. State is
--     passed and returned. A bool with an out-parameter is an Option; an out-parameter that may be
--     NULL is a flag has_out beside it.
--   - A pointer to a struct is an Option, and a pointer to an array is the list of its cells, where
--     NULL is the empty list. A NULL test of a static helper, and of a local's address, has no
--     counterpart, since no caller passes NULL; the names that end in _given are the bodies of
--     public functions behind that test.
--   - Unsigned arithmetic wraps as written (% 2 ^ 32, % 2 ^ 64); size_t has 64 bits.
--   - A write past the end of a list changes nothing there: the theorems show that none happens.
--   - ZR_ASSERT is compiled out; UserRing/Free proves what it asserts.
--   - A signed 32-bit coordinate is its bit pattern, compared by adding 2^31. A pointer to a cell of the
--     framebuffer is its index in the array of cells.
--   - The input parser ignores what a push returns, so its functions take any state with a push; the
--     event queue with zr_event_queue_push is one.
--   - The spin lock of the event queue is the field lock, and a call is one atomic step.
--
-- Bounds
--   Loops are structural recursion on the number of rounds that are left, so none needs more fuel
--   than the C loop has rounds: the count of queued events or of rectangles. The loop of the base64
--   encoder has one round for every input byte, where three bytes take one. The loops
--   over text have a round for every byte, since a code point has at least one; greedy wrapping, which
--   moves back, has (length + 1)^2, and the binary searches one for every row. The event
--   queue is proved for up to 2^31 events, since head + i wraps beyond and the index found by the
--   coalescing scan is an int. Array lengths are below 2^64 bytes, as in any C object.
--
-- Not modelled
--   Of the framebuffer: resizing, blits, lines, boxes and the link table.
--   The engine, drawlist, diff, detection, images, blitters, debug trace,
--   metrics, arena and configuration; the tables of Unicode properties, which are generated and are a
--   parameter of what reads them; the platform layer, logging and examples, which are I/O.
pub mod Prelude
pub mod Result
pub mod Checked
pub mod Bytes
pub mod Ring
pub mod Vec
pub mod StringBuilder
pub mod Event
pub mod UserRing
pub mod EventQueue
pub mod EventPack
pub mod InputParser
pub mod Utf8
pub mod Unicode
pub mod Grapheme
pub mod Width
pub mod Wrap
pub mod Framebuffer
pub mod Damage
pub mod Base64
