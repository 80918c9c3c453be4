-- ===== src/Lib.antt =====
-- PekerOS, a 32-bit kernel for x86 in C: a model of its core, and what is proved of it.
--
-- The kernel's memory stands on two allocators: the physical memory manager hands out frames of 4 KB
-- from a bitmap, and the kernel heap cuts blocks out of one area of 4 MB. Tasks are records on a list,
-- and the timer's interrupt calls the scheduler, which goes round the list. A packet from a network
-- card goes through the network layer to the sockets (UDP) or to TCP; both put what they receive into
-- the ring of bytes of a socket and wake the task that waits there. TCP finds a segment's control
-- block and runs its state machine. PAFS keeps files and directories in blocks of a disk; the virtual
-- file system goes from a path to a node, whose functions are those of PAFS; system calls give files
-- and sockets to programs, by numbers.
--
-- Common     library names, tests on numbers, lists over native numbers, byte arrays, bitmaps and
--            words in them, pieces of lists, counted loops.
-- Pmm        kernel/mm/pmm.c: `init_pmm`, `alloc_frame`, `alloc_contiguous_frames`, `free_frame`. The
--            bitmap is a function from places to bytes.
-- Kheap      kernel/mm/kheap.c: `kmalloc`, `kfree`. The headers are a function of their address and
--            the links are addresses; Kheap/Blocks and Kheap/Chain relate them to a list of blocks.
-- Task       kernel/proc/task.c: `create_task`, `schedule_internal`, `task_exit`. The list is only
--            appended to, so a pointer to a task is its place. The words that a new task's frame
--            puts on its stack are a function of their addresses. Task/Kernel has the steps that tasks
--            and the timer take, in any order.
-- Socket     kernel/net/socket.c: the table, `socket_dispatch_udp`, `socket_recvfrom`,
--            `socket_create`, `socket_close`. Socket/Ring has the ring as a queue of bytes,
--            Socket/Datagrams as a queue of datagrams, Socket/Stream as a stream.
-- Net        include/net.h and kernel/net/net.c: byte order and the checksum; Net/Packets has the
--            packets that are sent, `net_send_udp` for one, and `net_handle_packet`. A packet is its
--            bytes.
-- Tcp        kernel/net/tcp.c: `tcp_send_segment`, `tcp_input`, `tcp_close`, `tcp_new_pcb`. A segment
--            is its bytes in memory; `tcp_input` reads them there. Tcp/Search and
--            Tcp/Dispatch have the way of a segment to a block of the table, Tcp/Opening two hosts
--            that connect. Tcp/Calls has `socket_connect` and the other calls of
--            kernel/net/socket.c that use a control block.
-- Keyboard   kernel/drivers/keyboard.c: the ring of characters and the handler.
-- Pafs       kernel/fs/pafs.c: `alloc_block`, `pafs_format`, `pafs_create`, `pafs_delete`,
--            `pafs_write`, `pafs_read` and the functions of a node. The superblock, the table of
--            inodes and the bitmap are bytes, as in memory, and the disk gives a sector for each
--            block; Pafs/Files has the operations on files, Pafs/Blocks says whose a block is.
-- Vfs        kernel/fs/vfs.c: `vfs_finddir`, `vfs_mount`, `vfs_get_node_by_path`. The functions in a
--            node are a record, and Vfs/Path fills it with those of PAFS. Vfs/Resolve says where the
--            names of a path lead.
-- Syscall    kernel/proc/syscall.c: `sys_open`, `sys_read`, `sys_write_fd`, `sys_close`, `sys_sbrk`.
--            What they ask of the file system is a record, which Syscall/OnPafs fills.
--            Syscall/Sockets has the calls on sockets.
-- Spinlock   include/spinlock.h: the flag that lets interrupts in.
--
-- Numbers are natural numbers, with the wrap-around of the machine's widths written out where the code
-- computes. Numbers of tasks and of steps are not bounded: a task takes more than 4 KB that is never
-- given back, so memory ends long before the 31 bits of a task's number do. The length of a segment
-- is a word of 16 bits: `tcp_send_segment` cuts what it sends to it, and for data of 65516 bytes or more, where it wraps round, what the code writes behind its buffer is not
-- modelled.
--
-- Loops that follow pointers or flags run on fuel. `init_pmm` has a round for each byte of the memory
-- map, and each entry moves on by 4 at least. `kmalloc` has more rounds than the heap has room for
-- headers. The scheduler has a round of the list and one more, and task 1 never dies. The folding of a
-- checksum has 3 rounds, and 2 leave 16 bits. A path's walk is given how many links inside links it
-- follows, since a link to itself has no end; PAFS has no links, and 1 is enough.
--
-- Left out: of PAFS, `pafs_init`; ext2; the table of the system calls; paging, the loader, the
-- shell, windows and the other drivers; of the sockets, the turns of other tasks while
-- `socket_connect` waits; of the network layer, the driver of the card. The table of inodes and the
-- bitmap are functions from places to bytes, so that an inode outside the table has bytes too. The
-- calls of the lock are left out of the parts that make them, and messages are left out. Where an
-- operation calls `kmalloc`, its result is an argument of the model or does not appear in it: the
-- code follows a null pointer from it, which the model does not show. Interrupts arrive between
-- operations, not inside one.
pub mod Common
pub mod Pmm
pub mod Kheap
pub mod Task
pub mod Socket
pub mod Net
pub mod Tcp
pub mod Keyboard
pub mod Pafs
pub mod Vfs
pub mod Syscall
pub mod Spinlock
