-- ===== src/Lib.antt =====
-- MyOS: a small 32-bit kernel with paging, processes, a FAT12 file system and drivers, in C.
--
-- The parts and their files. All paths of the source are from the repository's root.
--   Prelude  the shared names: native numbers, Boolean tests, lists, memory, bits, words.
--   Pmm      kernel/mm/pmm.c: the physical frames in a bitmap of 32-bit words. `Pmm` is the three
--            global variables; `init`, `alloc_frame`, `free_frame` and `free_frame_count` are
--            pmm_init, pmm_alloc_frame, pmm_free_frame and pmm_get_free_frame_count.
--   Strings  kernel/lib/string.c over a byte memory.
--   Vga      kernel/drivers/vga.c: video memory, the cursor and the bytes that go to its ports.
--   Keyboard kernel/drivers/keyboard.c: scan codes and the ring of typed characters.
--   Process  kernel/cpu/process.c (the table and `schedule`) and kernel/cpu/switch.asm.
--   Timer    kernel/drivers/timer.c: the clock interrupt, which wakes sleepers and then schedules.
--   Syscall  kernel/syscall.c: the dispatch, the five calls and the exit of a program.
--   Fs       kernel/fs/fs.c: FAT entries, 8.3 names, the root directory and cluster chains,
--            and the set-up. The sectors that the disk delivers are an argument.
--   Descriptors  kernel/cpu/idt.c, gdt.c, tss.c, irq.c and exceptions.c: gates, segments, the
--            dispatch of interrupts, the report of an exception.
--   Heap     kernel/mm/memory.c: malloc and free; frames come from Pmm.
--   Debug    kernel/debug.c: the text of the debug port.
--   Paging   kernel/mm/paging.c over a physical memory of words, each access through the
--            processor's translation under CR3.
--   Exec     kernel/cpu/process.c (exec_program) and include/kernel/elf.h: the loading of a program.
--            It finds and reads the file by Fs, maps pages by Paging and enters a task in Process.
--   Shell    kernel/shell.c: the line editor, its history, the words of a line, the choice of the
--            command and the commands, on a `Console` of the parts that they reach.
--   Devices  kernel/drivers/pci.c, dma.c and disk.c: configuration accesses and port writes.
--   Sound    kernel/drivers/virtio.c: the queues of the virtio sound device, its initialisation and
--            its beep; kernel/drivers/sb16.c: the Sound Blaster.
--   Boot     kernel/kernel.c: kmain, which starts Pmm, Paging, Heap, Fs and Process one on the other.
-- The clock interrupt of Timer calls `schedule` of Process on the table that it has updated; the
-- exit of Syscall raises that interrupt.
--
-- Words are natural numbers with `% 2 ^ w` written out where the source can wrap. Memory and arrays
-- are total functions from addresses or indices. Loops over a fixed range recurse on the number of
-- rounds left; the string scans take fuel, and their theorems show that the length of the string
-- plus one is enough; the reading of a file takes fuel, and one round more than the chain has
-- clusters is enough.
--
-- The growth of the heap takes fuel too: one round more than there are free frames is enough.
--
-- What the code writes to ports is a list of writes where it matters, else left out, as is debug
-- output in the other components. Not modelled: the waits for the disk, the messages and the waits of
-- kmain, the inline assembly that enters user mode, and the user programs. The loading of a program
-- takes the heap as whether it has room for the file. A block of the heap that is freed
-- twice is not modelled: the list of the code then has no end. The waits for the sound devices take fuel, since
-- nothing bounds what a device does; their theorems have a device that answers within it.
mod Prelude
pub mod Pmm
pub mod Strings
pub mod Vga
pub mod Keyboard
pub mod Process
pub mod Timer
pub mod Syscall
pub mod Fs
pub mod Descriptors
pub mod Boot
pub mod Debug
pub mod Shell
pub mod Devices
pub mod Heap
pub mod Paging
pub mod Exec
pub mod Sound
