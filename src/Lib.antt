-- ===== src/Lib.antt =====
-- theos is a small x86-64 kernel with its libraries: it compresses cold pages into memory,
-- mounts XFS images that its own tools build, reads ISO, UDF, registry and WIM files, and runs
-- Linux and NT programs. This library models the parts below in shallow embedding: a structure
-- is a record, a function is a function, a `&mut self` method returns the new state, an error
-- is a `Result`, and a panic is an outcome of its own.
--
-- Base (Base.antt and the files under Base/): tests and conditionals on native numbers, vectors
--   as lists, runs that may panic and the `?` operator, BTreeMap as an ordered association
--   list, signed numbers in two's complement, and the bitwise or.
-- Zram/Types.antt, Zram/Classes.antt: the errors, sizes and size classes of kernel/zram.rs.
-- Zram/Page.antt: `ZsPage`, slots of one size in a byte area; the child modules prove validity,
--   `allocate`, `read` and `free`.
-- Zram/Slots.antt: `ZsAllocator`, pools of such pages per size class, `store`, `load`, `free`
--   and `stats`.
-- Zram/Device.antt: `ZramDevice`, pages by number over `ZsAllocator`; Zram/Swap.antt:
--   `ZswapCache`, the device and its counters. The LZ4 codec of the crate lz4_flex is the
--   record `Lz4Block`, with the laws of a lossless codec, `IsLossless`, which the theorems
--   name.
-- Crabfs/Endian.antt: lib/crabfs/endian.rs, reads and stores of numbers in a buffer; its child
--   modules say what is read back from a row of stores (Layout) or of several (Rows) and which
--   reads come back (Total).
-- Crabfs/Crc.antt: lib/crabfs/crc.rs. Crabfs/Error.antt: lib/crabfs/error.rs.
-- Crabfs/OnDisk.antt: lib/crabfs/on_disk, a module per structure with `parse`, `serialize` and
--   its `stores`, and a child RoundTrip; Bmap has the extent writer of lib/crabfs/pack.rs too.
-- Crabfs/ExtentDir.antt: the directory blocks that `build_payload` of lib/crabfs/pack.rs writes
--   and lib/crabfs/reader.rs reads. Whether there is memory for the vector of a listing is the
--   parameter `Memory`; without it the run ends in a panic.
-- Crabfs/ShortDir.antt: the directory inside an inode, lib/crabfs/on_disk/dir.rs with its
--   writer and its listing, and the packer's choice between the two forms.
-- Kernel/Vfs.antt and the files under Kernel/Vfs/: kernel/vfs.rs, with a child for the paths
--   (Paths), the lookup (Lookup), the pipes (Pipes), the descriptors (Files), what is told of
--   them (Stat) and their copies (Dup). The other children prove: Ends, Wired, Closing,
--   Creating Kept and KeptCounts the counts of the pipes, PipeQueue and Polling what a pipe
--   does, Copies what a copy does to it, Mounted the waits of `read` and `write` on the static
--   behind its lock, with one unit of fuel for each try, BlockIo the firmware's block device
--   against the bytes of the disk, Components, Walks, Resolve and Links the lookup. The file
--   system below is the interface `FileSystem`, the console `Console`.
-- Kernel/Frames.antt: the boot frame allocator of kernel/allocator.rs and the errors around the
--   page tables; Walk follows the loop over the memory map, and Requests what is held and given
--   back.
-- Kernel/Reclaim.antt: `ReclaimPager` of kernel/reclaim.rs, a client of Zram.Device and,
--   through the interface `Vm`, of the page calls of kernel/allocator.rs: frames, mappings and
--   the bytes of a page. A call that holds the pager's lock and finds no free frame calls the
--   pager again and waits for ever; that is the outcome `deadlock`, and a run that comes to it
--   has no state behind it. Valid says what a pager holds and Changed how that moves with one
--   page, Mapped, Taken, Restored, Grown, Starved and Steps are about its calls, Calls defines
--   sequences of them, and Runs is about sequences of them with the stores of programs between;
--   Queue, After, Progress and Found are about the order in which pages are taken.
-- Kernel/Allocation.antt: the loop of `allocate_frame` of kernel/allocator.rs, which has the
--   pager take a page when no frame is free, for a caller that does not hold the pager's lock;
--   Ends says how it ends. Its fuel is one turn more than pages wait in the pager's queue,
--   since every turn that goes on has taken one out.
-- Kernel/Cmdline.antt and Kernel/Log.antt: the options of kernel/cmdline.rs, with the parsing
--   for any line of them, and the levels of kernel/log.rs, with a child about those that are
--   printed (Levels).
-- WimLzx.antt and the files under WimLzx/: lib/wim_lzx/lib.rs, with a child for the code tables
--   (Table), the bits (Reader), the trees (Trees), the blocks (Blocks) and the targets of calls
--   (CallTargets); Spending, TreeSpending and BlockSpending count the bits that each method
--   takes, and Termination draws the conclusions.
-- Crabfs/FileData.antt: the rest of lib/crabfs/reader.rs, the data of files and whole
--   directories; Bounds and Inside are about reads through extents.
-- Regf.antt and the files under Regf/: lib/regf/lib.rs, the maps of a hive in Regf.antt, with a
--   child for the reads (Cells), the names (Names) and the parser (Parser); Lookup is about the
--   maps, Cycle about a key that lists itself.
-- Crabfs/Reader.antt: lib/crabfs/geometry.rs, and of lib/crabfs/reader.rs the superblock, the
--   group headers, the roots of the inode trees and inodes, from a device that is a parameter.
--
-- Zram.Device is a client of Zram.Slots, which is one of Zram.Page; the theorems of each rest
-- on those of the one below, and Zram.Device.Refine states the whole as a map from page numbers
-- to pages, and Kernel.Reclaim builds on the device. Crabfs.ExtentDir and Crabfs.OnDisk share
-- the reads of Crabfs.Endian.
--
-- Numbers are natural numbers. A width shows where the code can meet it: generations wrap at 2
-- ^ 32, a stored number has the bytes of its type, and the round trips ask that fields have
-- their widths, which the types of the source give. Sums and products of offsets, and counters,
-- are taken without overflow of 64 bits. Most loops recurse on a list or on the number of
-- entries that a header names. Besides those of Kernel/Allocation.antt and
-- Kernel/Vfs/Mounted.antt, three run on fuel: the lookup of a path on the depth of links, 17 as
-- in the source; its loop over components on the bytes that remain, of which each turn takes
-- one at least; and the loop over the blocks of a WIM chunk on eight turns for a byte and one
-- more, where each block takes four bits at least. The source follows the keys of a hive
-- without a bound: Regf goes to a depth, and beyond it is the panic that the end of the stack
-- would be.
--
-- Not modelled are the hardware set-up, the tools' input and output, and these parts, which are
-- parameters where the model meets them: mkfs, the virtio device under the mount, the page
-- tables, the UEFI frame allocator, the file systems' other formats and the system calls. Names
-- of directory entries are byte strings, and the decoder `String::from_utf8_lossy` is a
-- parameter.
pub mod Base
pub mod Zram
pub mod Crabfs
pub mod Kernel
pub mod WimLzx
pub mod Regf
