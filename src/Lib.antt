-- ===== src/Lib.antt =====
-- A small Unix-like file system on one host file (dylblock/), modelled with what its parts promise.
--
-- The program stacks these parts, each on the ones before it; the model has a module for each:
--   Device        dylblock/block_device.{c,h}: blocks of a host file. createBlockDevice,
--                 openBlockDevice, setupBlockDevice, closeBlockDevice, readBlock, readFirstBytes and
--                 writeBlock. Device.Blocks has the loops that move a memory area over consecutive
--                 blocks, which several parts run.
--   BitSet        dylblock/dylan_bit_set.{c,h}: the set of allocated blocks, allocateBlock and
--                 freeBlock, and its image on the device (readBlockMap, writeBlockMap).
--   MasterBlock   dylblock/master_block.{c,h}: the first block, and bootstrapDevice.
--   INode         dylblock/inode.h and the map of inodes in dylblock/inode.c: allocateINodeMap,
--                 readINodeMap and writeINodeMap, with the bytes of an inode.
--   FileSystem    dylblock/filesystem.h: the mounted state, with getINode, allocateINode and freeINode.
--                 FileSystem.Access has getDiskAddressOfBlock, iNodeRead and iNodeWrite of
--                 dylblock/inode.c.
--   BlockCache    dylblock/block_cache.{c,h}: the round-robin cache of blocks. Nothing else uses it.
--                 Its allocation follows NULL pointers, so that Reclaim (the entry that
--                 allocCacheBlock gives over), Search and Cached (what getCachedBlock finds) speak
--                 of caches whose entries have been given memory in some other way.
--   Text          breakWords of dylblock/filesystem.c and countOccurrences of
--                 dylblock/directory_cache.c, with strtok, atoi and "%d" as they use them.
--   Directory     dylblock/directory_cache.{c,h}: the tree of directory entries, its text in inodes,
--                 getChildren and flushDirectoryCache.
--   Volume        newfs, mount and unmount of dylblock/filesystem.c.
--   Shell         the commands of dylblock/my_shell.c (Shell.Mine) and dylblock/new_shell.c
--                 (Shell.Small), from the words of a line to the calls on the mounted device, with
--                 equals, dirParentSearch and the loops of main. Shell.Words, Shell.Directories and
--                 Shell.Blocks have the words and the commands; Shell.Invariant the runs of a shell;
--                 Shell.Tree is dylblock/show_tree.c.
--   BlockMap      my_Blocks_c++/blockMap.cc: the block map of an earlier version in C++, with readBlock
--                 and writeBlock of my_Blocks_c++/block_device.cc, beside the bit set of the C program.
--                 BlockMap.Image has the map on the device, BlockMap.Dump what the dumps print.
--   Cpp           the rest of my_Blocks_c++/. Cpp.Host is the constructor of BlockDevice, Cpp.Master
--                 header_files/master_block.hh and master_block.cc, Cpp.Nodes header_files/inode.hh
--                 and inode.cc. Cpp.Console is my_shell.cpp: the words of a line (Words), newfs,
--                 mount and unmount (Volume), the other commands (Commands), and the loop of main.
--                 Remount and Making follow a volume through newfs, unmount and mount, Invariant and
--                 Reach the runs of the shell, Safety the commands that cannot go astray, and Faults
--                 those that do.
--   Prelude       shared names, lists over native numbers, `int`, bytes, and `Run`.
--   Examples      small runs, and the theorems at concrete inputs.
--
-- A definition has the name of its C function in lower case with underscores: allocateBlock is
-- `allocate_block`. State is passed explicitly: an operation takes the structure and returns it
-- changed. A pointer to an inode is its index in the inode map; NULL is `none` or `null`. A call ends
-- in a `Run`: `ok` with its result, or `fault`, which is a failed assertion, a NULL that is followed,
-- or an access outside the memory that was allocated. The error results of the source (-1, NULL) are
-- values, never a fault. Messages that are printed are left out.
--
-- Numbers are natural numbers where the source's `int` is not negative, and `ℤ` where it can be -1.
-- The product of a block number and the block size, which is a byte offset, is taken modulo 2 ^ 32;
-- the other sums and products of `int`s are taken to stay in range. Structures have the layout of a
-- 64-bit little-endian target, with zero padding.
--
-- Loops are structural recursion on the number of rounds that is left, which is the source's own
-- bound, so that no fuel is guessed, but for two: the ten digits of "%d", which hold an `int`, and the
-- loop of the C++ constructor of MasterBlock, which takes as many rounds as the device has blocks.
-- Those are enough where a block has bytes at all; where it has none, the source's loop counts on
-- until its `int` overflows, and the model's ends in a fault.
--
-- The host is modelled by what POSIX says of a regular file (open, lseek, read, write, ftruncate):
-- reads stop at the end of the file, writes at the room that the host has.
--
-- A shell is the files of its host, where a name is a file of its own, and the device that it has
-- mounted. The current directory, a pointer into the tree of entries, is a place of the tree: the
-- links that lead to it from the root. What the C program does depends on two things that the source
-- does not say, which are parameters (`Host`): how many bytes malloc gives for a size, and which
-- entries of a tree have one string in memory for a name. A line of input is its bytes; what a shell
-- prints of its own is a list of replies. readline is outside, and so is a negative number in a
-- command.
--
-- The C++ shell keeps its pointers over unmount and newfs, so that they are of nothing, of a volume,
-- or of memory that has been freed (`Pointers`); a use of freed memory is a fault. What it writes from
-- memory that nothing has set, and the clock, are given to it with each line (`World`). A number that
-- stoi refuses is a fault, since nothing catches the exception. Counters and addresses in an `int16_t`
-- wrap at 16 bits.
--
-- Not modelled: the test programs in C, C++ and Python; the directory entries of the C++ version
-- (directory_entry.cc), which are stubs; functions that only free memory (freeBitSet, freeMasterBlock,
-- destroyBlockCache, unmountDirEntries); getFileSize, which nothing calls; the functions that headers
-- declare without a definition; the texts of help and of the farewell; and negative sizes of a
-- device.
pub mod BitSet
pub mod BlockCache
pub mod BlockMap
pub mod Cpp
pub mod Device
pub mod Directory
pub mod Examples
pub mod FileSystem
pub mod INode
pub mod MasterBlock
pub mod Prelude
pub mod Shell
pub mod Text
pub mod Volume
