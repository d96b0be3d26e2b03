-- ===== src/Lib.antt =====
-- The agents, harnesses and targets of kafl.targets: programs that run inside a virtual machine
-- and are fuzzed by the kAFL/Nyx hypervisor, to which they talk by hypercalls.
--
-- Machine models what lies under a program. A program of type `M A` runs on the surroundings `Env`
-- (does control come back from a call, what does it return, what has the host written) and on the
-- history of its calls, latest first; it ends in `done` with a result, or `stopped` with a reason.
-- The host, the kernel and the C libraries are not part of the repository: they are `Env`, over
-- which the theorems quantify. A pointer to a text or a structure stands for what it points to.
-- Output to a console (printf, fprintf, DebugPrint, printk, DbgPrint) is left out; hprintf, which
-- is a hypercall, is not.
--
-- Nyx           nyx_api.h: numbers of the hypercalls, structures; hypercall, hprintf and habort of
--               that file are in Machine/Defs; Nyx/Layout how the structures lie in memory
-- Machine       Machine/Defs the programs, Machine/Rules and Machine/Stops the rules for runs
-- Handshake     the agreement of agent and host that each agent's handshake has to reach
-- Cycle         the fuzzing cycle as a monitor of histories, and in Cycle/Trace as a transition system
-- Harness       the interface of a target (kAFLAgentLib.h, target.h) and what an agent relies on there
-- Buffer        local buffers, and chains of comparisons of their bytes; Printed the texts that are
--               printed one behind the other into a buffer
-- Uefi/Header   uefi_ovmf_64/kAFLAgentPkg/Include/Library/kAFLAgentLib.h, compared with nyx_api.h
-- Uefi/Agent    uefi_ovmf_64/kAFLAgentPkg/Library/kAFLAgentLib/kAFLAgentLib.c
-- Uefi/Dxe      uefi_ovmf_64/kAFLDxeHarnessPkg/Dxe/kAFLDxe.c and Include/Protocol/kAFLDxe.h there
-- Uefi/Target   uefi_ovmf_64/kAFLDxeTargetNullPkg/Library/kAFLDxeTargetLib/kAFLDxeTargetLib.c
-- Uefi/App      uefi_ovmf_64/kAFLDxeHarnessPkg/App/kAFLApp.c
-- Uefi/Decompress, Uefi/Bmp  uefi_ovmf_64/TestDecompressPkg/TestDecompress.c and
--               uefi_ovmf_64/TestBMPPkg/TestBMP.c; Uefi/Pool the blocks that they allocate and free
-- Linux/Agent   linux-user/libnyx_agent/src/nyx_agent.c: Cpu the CPU type and hypercalls, Pages
--               the resident memory, Transfer the files (Get and Push each way; Content,
--               Received and Fetched the bytes), Host check_host_magic
-- Linux/Vmcall  linux-user/vmcall/src/vmcall.c, its cmd_hrange in Linux/Vmcall/Range; Files
--               hpush and hget of one file, Silent a run where hypercalls are skipped
-- Linux/Forkserver  linux-user/forkserver/src/forkserver.c, a round in Linux/Forkserver/Round,
--               its way into a program in Linux/Forkserver/Hook; Prepare its way to the loop,
--               Order its child, Machine child and parent on one machine, Reports what they report
-- Linux/FsFuzzer    linux-user/fs_fuzzer/src/fs_fuzzer.c
-- Zephyr/Agent, Zephyr/Target, Zephyr/Directory, Zephyr/Json  zephyr_x86_32/src: main.c,
--               target_test.c, target_fs.c, target_json.c (Zephyr/Json/Types what its descriptions
--               let the parser write); Zephyr/Linked the targets as harnesses
-- Windows/Agent, Windows/Drivers  windows_x86_64/src/driver/vuln_test.c, Drivers what it does with
--               the system's list of drivers
-- Windows/Driver, Windows/SelfFuzz  windows_x86_64/src: kafl_vulnerable_driver/driver.c,
--               userspace/selffuzz_test.c
-- Windows/Image, Windows/Font  windows_x86_64/src/userspace: gdiplus.cpp, gdiplus_loadfont.cpp; what
--               both do is in Windows/Regions, Windows/Exceptions and Windows/Session;
--               Windows/Image/Standalone and Windows/Standalone their builds that run without a host
-- MacOs/Driver, MacOs/Loader, MacOs/Info, MacOs/Fuzzer  macOS_x86_64: vuln_driver/vuln.c,
--               loader/loader.c (MacOs/Loader/Debug and MacOs/Loader/Reload its builds with
--               DEBUG_MODE and AUTORELOAD), info/info.c
--               (MacOs/Kexts its table of extensions),
--               fuzzer/vuln_test.c; MacOs/Fuzzer/Machine loader and fuzzing program on one machine
-- Tests         runs at concrete inputs
--
-- A function of the source is a definition of the same name in snake case (HarnessInit is
-- harness_init); the body of a loop, or a part of a long function, is a definition of its own that
-- the function calls. The Linux tools use the agent library's functions, every other agent places
-- its hypercalls directly. A target that is linked to an agent is
-- the agent's parameter `harness`; the event `target` is its entry into the code under test, which
-- the other programs call themselves. A file that is pushed lies in the host's dump directory; a file
-- that is fetched comes from its shared directory.
--
-- A process that ends, however it does, may leave the machine to another one (then_other of
-- Machine/Stops): so the history of a machine is that of its processes, one after the other.
--
-- Bounds: an endless loop is run for `n` rounds, for every `n`. A loop over a file takes fuel, and
-- ends as out_of_fuel without it. Nested calls of hypercall before the CPU type is known have
-- `depth` frames. Words of 64 bits wrap around at 2 ^ 64.
--
-- Parameters stand for getopt, basename, the C library's __libc_start_main, sscanf, strstr, the
-- macros of sys/wait.h, EFI_ERROR, the libraries of EDK2, the values that Zephyr's JSON parser
-- writes, the list of loaded Windows drivers, VirtualQuery, the output of the commands that the
-- macOS programs start, and the sizes of kafl_user.h, which the repository does not hold. What a
-- library object does is a call.
--
-- Not modelled: the build variants of the Windows programs for debugging or without locked memory,
-- dvkm (a submodule), scripts, kernel configuration and build descriptions.
pub mod Base
pub mod Nyx
pub mod Machine
pub mod Handshake
pub mod Cycle
pub mod Harness
pub mod Buffer
pub mod Printed
pub mod Uefi
pub mod Linux
pub mod Zephyr
pub mod Windows
pub mod MacOs
pub mod Tests
