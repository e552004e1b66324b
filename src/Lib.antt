-- ===== src/Lib.antt =====
-- ouiche_fs, the educational Linux file system of project/projet_PNL, whose files are stored in blocks
-- that need not be full: an entry of a file's index block holds a 20-bit block number and the 12-bit
-- number of bytes in use.
--
-- The parts and the files that model them:
-- - Block: project/projet_PNL/block.c, the accessors of an entry.
-- - Memory: the bytes behind a buffer head, memmove, memset and little-endian words.
-- - Kernel: what the program takes from Linux, as records of operations with their documented
--   behaviour: bitmaps, buffers and user memory, strscpy. `VfsApi` in Inode.Store and `PageApi`
--   in File.Page are the inode cache and the page cache.
-- - Superblock, Bitmap: the superblock in memory (ouichefs.h) and bitmap.h. Bitmap.Consistent says
--   that the counters agree with the bitmaps.
-- - Fs: the state that the handlers share and their results. A handler is a function from the state
--   to a result and a state; an error keeps what was done before it. `fault` stands for an access to
--   a variable that was never set, or outside its object.
-- - File: file.c. File.Content is what a file holds, and an insertion into it, the view from which
--   File.Write.Refine sees ouichefs_write; File.Read, File.Write, File.Open and File.Map
--   are ouichefs_read, ouichefs_write, ouichefs_open and ouichefs_file_get_block; File.Page is
--   ouichefs_write_begin and ouichefs_write_end.
-- - Dir: the directory block and the searches and updates of inode.c on it.
-- - Inode: inode.c, dir.c and ouichefs_write_inode of super.c. Inode.Store is the inode store,
--   Inode.Lookup, Inode.Create, Inode.Unlink and Inode.Rename the handlers of these names, with mkdir,
--   rmdir and ouichefs_iterate. Inode.Lookup.Got is ouichefs_iget on a number in range, and
--   Inode.Create.Found and Inode.Create.Undone are what follows a creation.
-- - Super: super.c; Super.Fill is ouichefs_fill_super.
-- - Mkfs: project/projet_PNL/mkfs/mkfs-ouichefs.c, the tool that formats an image. Mkfs.Layout is the
--   image that it leaves and Mkfs.Mount what the kernel makes of it.
-- - Defrag, Fileinfo: the two ioctl devices, defrag.c and fileinfo.c. Of Defrag, Live is what the first
--   loop keeps, Entry the updates of one entry, Step the three kinds of step, Move the function
--   move_bytes as such a step, Rounds, Fill and Compact the two nested loops; Gaps and Packed are on the
--   second loop, Loops on the ends.
-- - Monitor: labs/6/harena/task_monitor.c, a kernel module apart from the file system, which samples
--   the running times of processes. Monitor.Invariant is its step relation, Monitor.Sampled the
--   samples of one process, Monitor.Shrink the shrinker, Monitor.Seq the functions behind its file,
--   Monitor.Setup loading and unloading, with Monitor.Setup.Ends on how they end, Monitor.Progress the
--   rounds of its thread, Monitor.Command the sysfs file that starts and stops it.
-- - Kthread: kthread_run and kthread_stop, as a record of operations with their documented behaviour.
-- - Register: project/projet_PNL/fs.c, loading and unloading the file system.
-- - Taskmonitor: labs/5/harena/task4/taskmonitor.c, the earlier module for one process.
-- - Weasel: labs/7/task-2 and labs/7/harena, which show the dentry cache.
-- - Tests: a small machine and disk, on which the theorems are applied.
--
-- The handlers reach the disk through the buffers of Fs and allocate through Bitmap; File, Inode and
-- Defrag use the accessors of Block on the entries. Sizes and numbers are natural numbers; 32-bit and
-- 64-bit wrap-around is written out where a value can wrap. Loops with a bound recurse on the number
-- of rounds left; the outer loop of defrag, which sets its own counter, recurses on fuel, one unit
-- more than the file has blocks. An int that would become negative is a fault or a test written
-- with the other side, as the comments at each place say.
--
-- Not modelled: reference counts of buffers, locks, the order of writes to the device, log output;
-- the entries of the weasel modules below /proc, which the kernel keeps; the user programs, which
-- only call the system, the remaining labs, and the copies of kernel files in labs/7/task-1. The
-- calls of a module run one after the other.
pub mod Base
pub mod Block
pub mod Memory
pub mod Kernel
pub mod Kthread
pub mod Superblock
pub mod Bitmap
pub mod Fs
pub mod File
pub mod Dir
pub mod Inode
pub mod Defrag
pub mod Fileinfo
pub mod Super
pub mod Mkfs
pub mod Monitor
pub mod Tests
pub mod Register
pub mod Weasel
pub mod Taskmonitor
