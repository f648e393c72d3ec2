-- ===== src/Lib.antt =====
-- SBUNIX: a 64-bit teaching operating system, its memory, processes, keyboard, console and files,
-- verified as functions on an explicit state.
--
-- The kernel hands out page frames from a bitmap (sys/phyMemMapper.c), maps them in four-level
-- page tables (sys/virtualMemory.c) and runs tasks in a ring that the timer turns (sys/task.c,
-- sys/idt.c). A task has areas of memory; a page fault fills or copies a page. A task that ends
-- gives back its memory and goes to the queue of ended tasks. The keyboard's interrupt fills the
-- buffer that the shell reads, and its Control-C ends the foreground process. The console
-- (sys/kprintf.c) writes to the memory of the video card. Files lie in an archive in memory
-- (sys/tarfs.c); a task reaches them by paths from its working directory, which is a variable of
-- its environment, and reads them through descriptors.
--
-- Which file models what:
-- Prelude: names of the libraries, Boolean tests and lists over the native numbers, bits of words,
-- and the chaining of optional results.
-- Frames: sys/phyMemMapper.c (markasFree, markasUsed, initBitmap, getFirstFrame, pageAllocator,
-- pageDeAllocator). The children prove the marks, the search, the allocation and the set-up.
-- Paging: sys/virtualMemory.c (mapPage, forceMapPage, mapPageForUser, mapKernelMemory,
-- identityMapping, kmalloc, getNewPML4ForUser), memset and kdealloc of sys/phyMemMapper.c, and
-- getPhysicalPageAddr and markPageAsRW of sys/task.c. Paging/Walk states the unrolled walks level
-- by level, Paging/Descend follows the tables that a walk makes, Paging/Translate reads the result
-- back.
-- Kernel: the structures of include/sys/task.h, the pointers of sys/task.c, and the stubs of
-- sys/task.s.
-- Links: chains of links in a store, the searches through them, and lists without repetition.
-- Areas: malloc, free, copyVMA, isPartofCurrentVma and getPageNumFromAddr of sys/task.c,
-- stackForUser of sys/virtualMemory.c.
-- Teardown: FreePageEntries and FreePageTables of sys/task.c.
-- Sched: yield, runNextTask, addToQueue, addToDeleteQueue, deleteRunningThreadAndJump, kill, exit,
-- exitpid and waitpid of sys/task.c. Sched/View relates the links to two lists, the ring and the
-- queue; Sched/Turns follows the timer's turns; the other children prove what each operation does
-- to these lists.
-- Clock: the interrupts of the timer and of the real-time clock (sys/idt.c), setSleep, getCounter,
-- setAlarmFP and setAlarm (sys/task.c).
-- Faults: the page fault handler of sys/idt.c, with copy on write.
-- Fork: fork, createChildTask, copyParentCr3Entries and makeParentCr3asReadOnly of sys/task.c;
-- Fork/Frame is about the frame on the child's kernel stack.
-- Keyboard: the key handler and the input buffer of sys/idt.c, with the tables of
-- include/sys/keyboard.h.
-- Console: kprintf and the position on the screen (sys/kprintf.c). Console/Screen says what the
-- loops over the video memory leave, Console/Cursor keeps the position on the screen,
-- Console/Digits is about numbers, Console/Print about whole formats, Console/Text about text on a
-- line, and Console/Bars has the clocks and the bar of keys.
-- Strings: strcmp, startswith, toInteger, strcpy, memread and memset_file of sys/tarfs.c.
-- Tar: the archive's headers and the lookups get_file_address and get_dir_address (sys/tarfs.c);
-- Tar/Lookup relates them to the list of entries.
-- Paths: remove_dotslash (sys/tarfs.c); Paths/Components has the walk along components that it
-- implements, Paths/Resolve follows the loop along them.
-- Environ: getenv, setenv, getCWD, getPATH and env (sys/tarfs.c); Environ/Entries relates the
-- pages to a list of variables, Environ/Quotes is about the shell's argument.
-- Directory: changeDirectory (sys/tarfs.c), which joins the archive, the paths and the
-- environment.
-- Files: the table of descriptors, openFile, openDirectory, closeFile, closeDir, readFile and
-- writeFile (sys/tarfs.c). Files/Place and Files/Table relate the search for a free descriptor to
-- one list, Files/Calls, Files/Read, Files/Stdin and Files/Directories prove the calls.
-- Programs: get_executable_path (sys/tarfs.c); Programs/Directories is about the value of PATH,
-- Programs/Present about what the archive has, Programs/Search joins them.
-- Listing: readDir (sys/tarfs.c). Listing/Names is about the names that it cuts, Listing/Next
-- about a round, Listing/Handle about the handle, and Listing/Whole about all calls.
-- Dirents: getDirEntries (sys/tarfs.c); Dirents/Names is about one structure, Dirents/Whole about
-- the calls.
-- Loader: validate_elf_file, map_elf_file and loadFile (sys/tarfs.c), with the structures of
-- include/sys/elf64.h; Loader/Segments is about the areas of the segments, Loader/Whole about a
-- file.
-- Exec: exec and createNewExecTask of sys/task.c; Exec/First: createNewTask,
-- pushInitialParamstoStack, initUserProcess and switchToUserMode of sys/task.c; Exec/Entry: _start
-- of crt/crt1.c. Exec/Slots and Exec/Vector are about the words pushed, Exec/Start about the
-- arguments that main gets, Exec/Ring about the place of the new task, Exec/Boot about the start
-- of the first task.
-- Shell: the shell's parser, its own commands and its loop (bin/sbush/sbush.c). Shell/Loop is
-- about the characters of a line, Shell/Words about its words, Shell/Parse about whole lines,
-- Shell/Commands about a command typed, Shell/Script about the lines of a script, Shell/Wait about
-- how it waits for a command.
-- Tests: data, and the theorems applied to it.
--
-- Conventions. Addresses are numbers. Physical memory is read and written by 64-bit words, by the
-- loader by their bytes, and a pointer into the kernel's direct map is the physical address plus
-- kernbase. A pointer to a task is a number, and the state has a function from these numbers to
-- the structures; the links of areas are lists. Strings are the lists of their bytes before the
-- NUL. Of the processor the state has the stack, the tables and the general registers that the
-- stubs load; rsi, which they leave at the address of the structure, is left out. The contents of
-- the pages that exec fills for the arguments are lists beside the memory. Numbers wrap round at
-- their width where the code lets them. The acknowledgements to the interrupt controller, the
-- flushes of the translation buffer and the console output of other parts are left out. A call
-- that reads or writes where the code has no defined result answers none.
--
-- Fuel. The walks round the ring of tasks and along the queue, and the walk along the archive,
-- have no bound in the code. They take fuel here and answer none without it; the theorems ask for
-- more fuel than the lists are long, which is the number of rounds that the loop makes, and state
-- a result. A line of the screen has 80 characters and a 64-bit number at most 20 digits, so that
-- 81 and 22 rounds are enough for the loops of the console; the resolution of a path consumes a
-- character in each round. A search of PATH takes a byte of its value in each round, and the
-- loader a page of a segment; the fuel for the latter is more than the pages that it has. The loop
-- over a script takes a round for each line. The other loops are bounded in the code and recurse
-- on the rounds left.
--
-- Bounds. The bitmap has 1024 rows of 64 frames. A mark outside of it writes past the array in the
-- code and changes nothing here; the theorems speak of frames that it covers, except where a
-- computed address falls outside; exec of a program that is not found, which marks such a page,
-- has no result then. The name of a task has 15 bytes, the vector of a program's arguments 512
-- words, a line of the shell 2000 bytes and 32 words, and a line of a script 64 bytes: what does
-- not fit has no result. The sizes of the buffers for a path while it is resolved are not
-- modelled; where a theorem depends on them it bounds the paths.
--
-- Not modelled: descriptor tables and device drivers (sys/gdt.c, sys/pic.c, sys/pit.c, sys/ahci.c,
-- sys/pci.c), which program ports and registers of devices; the table of the system calls
-- (sys/syscall.c), which only passes arguments on; the C library, whose functions are the system
-- calls; and the other user programs, which are calls of the library.
pub mod Areas
pub mod Clock
pub mod Console
pub mod Directory
pub mod Dirents
pub mod Environ
pub mod Exec
pub mod Faults
pub mod Files
pub mod Fork
pub mod Frames
pub mod Kernel
pub mod Keyboard
pub mod Links
pub mod Listing
pub mod Loader
pub mod Paging
pub mod Paths
pub mod Prelude
pub mod Programs
pub mod Sched
pub mod Shell
pub mod Strings
pub mod Tar
pub mod Teardown
pub mod Tests
