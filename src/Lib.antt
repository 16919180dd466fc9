-- ===== src/Lib.antt =====
-- The kernel of r-os: an x86-64 hobby kernel in Rust under kernel/src. Interrupt handlers put
-- scancodes and mouse bytes into rings, cooperative tasks take them out, and windows with text
-- consoles are drawn into a byte buffer. This library models the parts with logic of their own.
--
-- What is modelled, by file:
-- - Ring: RingBuffer of kernel/src/keyboard.rs and kernel/src/mouse.rs (push, pop), which are one
--   code at two entry types. Ring/Queue is the bounded queue that it implements. Ring/Spsc has
--   the two sides as a step relation, one access to the shared memory a step; the atomics are
--   taken as sequentially consistent.
-- - Keyboard: add_scancode and try_read_key. The decoder of the crate pc_keyboard is the parameter
--   Decoder, with no hypothesis on it.
-- - Mouse: add_byte and try_read_event of kernel/src/mouse.rs with the statics they share. A signed
--   number is of the ℤ of Common/Int. Mouse/Init has init with its port accesses as a trace; what the
--   ports answer is the parameter Ports, with no hypothesis on it.
-- - Frames: the boot frame allocator of kernel/src/memory.rs. Addresses wrap at 2^64, and PhysAddr::new
--   of the crate x86_64 panics above 52 bits, as it documents. The two loops run on fuel, one round more
--   than there are regions: a round that goes on passes a region.
-- - Task: the scheduler of kernel/src/task.rs. A task's stack lies in the memory of the machine of
--   Task/Context, where switch_context is run an instruction at a time; the machine's stack pointer
--   does not wrap. yield_now is modelled up to the moment where another task goes on, without the
--   lock, which is not held across the switch.
-- - Fb: the drawing of kernel/src/framebuffer.rs on a list of bytes. A panic of an index is `none`,
--   and loops are for_range of Common/Loops. The theorems on pixels are for the formats Rgb and Bgr
--   with at least three bytes a pixel (IsCanvas); U8 and Unknown are modelled without theorems.
--   Sums and products of coordinates are taken as not overflowing usize. The font of the crate
--   font8x8 is the parameter Font, with glyphs of eight rows and one for `?`.
-- - Console: Console of kernel/src/framebuffer.rs, on the same buffer.
-- - Format: format_size, format_addr_range, write_hex and write_u64_decimal of
--   kernel/src/framebuffer.rs, and format_u64 of kernel/src/shell.rs, which kernel/src/counter.rs
--   repeats. The loop over the digits runs on the slots of its array: one too many is a panic.
-- - Shell: handle_char, execute and the commands of kernel/src/shell.rs. The calls that they make to
--   the console are a list; from_utf8 of the standard library is a parameter.
--   Shell/Rounds has the task's begin and a round of its loop, where the calls are made. A round ends,
--   or halts the processor and does not (Outcome).
-- - Wm: the window manager of kernel/src/wm.rs, whole, with the cursor sprite and the frame buffer
--   state of kernel/src/framebuffer.rs. Wm/Window and Wm/Cursor have the structs that it keeps,
--   Wm/Manager the operations on windows and focus, Wm/Screen the drawing and the mouse, Wm/Api the
--   functions over the two global states. Wm/Session runs their calls in any order. The field
--   taskbar_height is the constant that it always is; the locks, and interrupts switched off, are
--   left out: a call is one step. An overflow of the cursor's coordinates, of the size of a buffer or of
--   a row's offset is a panic, as in the development build; so is a vector above isize::MAX bytes.
--   Otherwise allocation does not fail.
-- - Regions: the table of memory regions: MemRegionKind of kernel/src/framebuffer.rs, its collection
--   in kernel/src/main.rs, and set_memory_regions of kernel/src/memmap.rs. Frames has the type of a
--   region.
-- - Memmap: draw_memmap of kernel/src/memmap.rs and the begin of its task. A subtraction below 0 is
--   a panic, as it is where overflow is checked.
-- - Idle: a round of the loop of run in kernel/src/task.rs. The queue of mouse events is drained on
--   fuel, the number of its slots, which is more than it holds; no byte arrives within a round.
-- - Counter: the rounds of kernel/src/counter.rs, each given the number of ticks that it reads. The
--   two numbers of a refresh are printed before its calls are made.
-- - Common: Boolean tests, lists, integers, masks and loops that the others share.
--
-- Not modelled: the page tables, the heap, the interrupt
-- handlers, the processor tables and the serial port, which are port accesses or calls of crates;
-- the order of initialisation in kernel_main; and the build script and the launcher.
pub mod Common
pub mod Ring
pub mod Keyboard
pub mod Mouse
pub mod Frames
pub mod Task
pub mod Fb
pub mod Console
pub mod Format
pub mod Shell
pub mod Regions
pub mod Wm
pub mod Memmap
pub mod Idle
pub mod Counter
