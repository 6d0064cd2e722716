-- ===== src/Lib.antt =====
-- A verification library for the Python programs of the Ubuntu installation on the Samsung
-- SM-T630 tablet: how the tablet's disk is split, how the installer is driven, and the daemons
-- that run in the installed desktop.
--
-- Each module models one program; its definitions carry the source's names, and its children
-- prove and test:
-- - Prelude: shared names, Boolean tests, lists over the native numbers, results of code that may
--   raise, Python's signed ints.
-- - Layout (tools/plan_dualboot_layout.py): the split of the userdata partition; plan_layout with
--   its guards in order and the returned dictionary as a record.
-- - Session (ubuntu/t630-session-manager.py): the confirmation state machine behind
--   org.gnome.SessionManager; one step is one callback.
-- - Installer (tools/t630_installer.py): the order in which the host entry point runs its guarded
--   tools.
-- - Display (ubuntu/t630_display.py): Flashlight is the leased torch, Settings the state with its
--   preferences file, Request the request language, Socket one connection of the control socket.
--   Flashlight is held by Settings, Request changes Settings, Socket calls Request.
-- - Bluetooth (tools/t630_qca_bt.py): Address is the address text and its file, Nvm the
--   calibration image and its patches, Transport the HCI packets on the UART, Controller the
--   start-up sequence over Transport, which loads the image of Nvm.
-- - SuperImage (tools/extract_dynamic_partition.py): the reader of raw and sparse images, with
--   Sparse and Logical on what a read yields and Total on its end; Metadata is the partition
--   tables, read through the reader, and the extraction of one partition; Extraction is on the
--   bytes that it writes, Total on its end, Entries on the partitions and their device-mapper
--   rows, Opened on those rows beside the extraction.
-- - Power (ubuntu/t630-power-button.py): the monitor over the state of Display; Locking is on
--   blanking and its way back, Rounds on the parts of a round of the main loop, Loop on all
--   rounds.
-- - PenGuard (ubuntu/t630-pen-touch-guard.py): the packets of the pen's event node and what they
--   make of the touchscreen's control; Chunks is on the cutting of the packets, Touch on the
--   control.
-- - GpuWatch (ubuntu/t630-gpu-session-watch.py): the two loops of supervise over what their turns
--   observe; Hangs is on when they give up.
-- - Account (ubuntu/t630_account.py): resolve_owner; Locale is resolve_locale, Environment is
--   shell_environment with its quoting and Reading what a shell makes of it; Owner and Plain are
--   on who is accepted.
-- - FirstBoot (ubuntu/t630_first_boot.py): Profile is the profile and its checks, Machine the
--   machine and the atomic write of a file, Apply the commands and apply_profile, whose owner
--   file Account reads, Main the command line.
-- - Rotation (ubuntu/t630-rotation-controller.py): the queue of orientations and the turns of
--   poll; Settled is on the histories that lead to a pending orientation, Applied on what a turn
--   sends.
-- - Suspend (ubuntu/t630-suspend.py): main with its guards and finally blocks; Guarded is on when
--   the device is touched, RolledBack on what is undone.
-- - ModuleAbi (tools/audit_kernel_module_abi.py): the sections of a module, its imports, the
--   exports of the kernel, and their comparison; Audit is on the comparison, Versions on the
--   imports that are read.
-- - ModuleClosure (tools/audit_waydroid_module_closure.py): the split of the selected modules and
--   the expansion of their dependencies, over the dictionaries of ModuleAbi; Plan is on the
--   split, Expansion on the end of the expansion, Needed and Complete on its result.
--
-- State is passed explicitly. What the outside world answers (a clock, a device node, a child
-- process, the success of a tool) is an argument of the step that asks for it. Raised exceptions
-- are values. Python's ints are unbounded: they are natural numbers where the code has already
-- checked their sign, and a signed type elsewhere. Times are natural numbers of clock ticks.
-- Eight loops are bounded: the twenty looks at the sensor bridge are those of the code, and seven
-- run on fuel: one round for each file of an expansion of dependencies, 66 rounds of recv, each
-- of which adds a byte to a line of at most 65, one round more than the declared bytes of an NVM
-- body, whose tags take 12 or more each, one round for each pending byte of the pen's node, of
-- which a packet takes 24, one round more than the value of a number that is printed in decimal,
-- whose rounds each divide it by ten, and one round for each byte that is asked for in a read of
-- a sparse image and in the copy of an extent, whose rounds take a byte or more each; theorems
-- show that none runs out.
--
-- Not modelled: shell and C programs, packaging scripts that only assemble files, graphical front
-- ends, diagnostic probes and the test suites.
pub mod Prelude
pub mod Layout
pub mod Session
pub mod Installer
pub mod Display
pub mod Bluetooth
pub mod SuperImage
pub mod Power
pub mod PenGuard
pub mod GpuWatch
pub mod Account
pub mod FirstBoot
pub mod Rotation
pub mod Suspend
pub mod ModuleAbi
pub mod ModuleClosure
