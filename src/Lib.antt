-- ===== src/Lib.antt =====
-- PMTester: a tester for the crash consistency of file systems on persistent memory. A test case
-- makes its system calls through an interface (`CmFsOps`) that records them as DiskMods. The
-- recorder writes these to a file, the tester reads them back, grouped by the checkpoints, and
-- compares the file system that survives a crash with them.
--
-- Parts, files and their code:
-- - DiskMod (src/wrapper/DiskMod.h, src/wrapper/DiskMod.cpp): the record of one change.
--   `get_serialize_size`, `serialize` and its parts stand for `GetSerializeSize`, `Serialize`,
--   `SerializeHeader`, `SerializeChangeHeader`, `SerializeDataRange` and `SerializeDirectoryMod`;
--   `DiskMod.Deserialize` for `Deserialize`; `DiskMod.Layout` says which bytes stand for a DiskMod.
--   Buffers are lists of bytes, and an access outside one is a `fault`, like a
--   failed assertion or an exception that nothing catches.
-- - ChangeLog (src/wrapper/wrapper.cpp, src/utils/Tester.cpp): `write_whole` and `serialize_mods` for
--   `RecordCmFsOps::WriteWhole` and `Serialize`, `get_change_data` for `Tester::GetChangeData`.
--   `ChangeLog.Groups` describes the groups that the tester keeps.
-- - Recorder (src/wrapper/wrapper.h, wrapper.cpp and actions.cpp): the state of
--   `RecordCmFsOps` is the record `Recorder`, each method `CmX` is a function `cm_x`, and `step` makes
--   the call that an `Op` names. `Recorder.Passthrough` is `PassthroughCmFsOps`, and
--   `Recorder.Default` is `DefaultFsFns`.
--   What a call records is in `Recorder.Step.Growth`, which DiskMods can be stored in
--   `Recorder.Storable`, and the recorder against `PassthroughCmFsOps` in `Recorder.Transparency`.
-- - TestCase (src/tests/BaseTestCase.cpp): `run_test` is `BaseTestCase::Run`, on the recorder for
--   checkpoint 0 and on `PassthroughCmFsOps` otherwise; the `run` of a derived class is a `Body`.
-- - Results (src/results): the flags of `FileSystemTestResult` and their printing (`Results.Printing`,
--   where a stream keeps the errors instead of their texts), the verdict of `SingleTestInfo`, and the
--   counters of `TestSuiteResult` (`Results.Tally`).
-- - Tester (src/utils/Tester.cpp): `test_check` and `check_disk_and_snapshot_contents`, with the mounts
--   and the comparisons of `DiskContents` as parameters (`Devices`).
--   `Tester.Comparisons` fills the comparisons and the sanity checks with those of the checker.
--   `Tester.Harness` has the devices,
--   the snapshots and `cleanup_harness`.
-- - Checker (src/checker/DiskContents.cpp): `get_contents` of `Checker.Scan` reads a mounted file system
--   into a map, and `compare_disk_contents`, `compare_entries_at_path` and `compare_file_contents` of
--   `Checker.Compare` are the methods of `DiskContents`. The file of differences is a list of messages.
--   `Checker.Sanity` has `makeFiles`, `deleteFiles` and `sanity_checks` over calls that change the file
--   system (`Files`), and `Checker.Mounts` the mounts.
-- - Workload (src/wrapper/workload.cpp): `write_data` is `WriteData`, with a function for each loop,
--   and `write_data_mmap` of `Workload.Mapping` is `WriteDataMmap`, on a mapping that is a block of bytes.
-- - WriteLog (personal_plugins/panda/plugins/writetracker and replayer, scripts/reader.cpp): the log of
--   the guest's writes, flushes and fences, how it is written, replayed and printed.
-- - ClassLoader (src/utils/ClassLoader.h), FsCommands (src/utils/FSCommands.cpp) and ClientSocket
--   (src/communication): the library of a test case, the commands of the file systems, and the socket to
--   the monitor of the virtual machine.
-- - Main (src/main.cpp): `parse_options` of `Main.Options` is the loop over the options, `test_case_name`
--   the name of the test case, and `prepare_device` the part that formats, snapshots and mounts the record
--   device. `main_phases` of `Main.Phases` is the order of what follows the loading of the test case.
-- - Base: the shared names, machine words, texts, maps, results (`Outcome`), code with a state (`Exec`)
--   and memory.
--
-- The C library, `new` and the kernel are parameters: an `Allocator`, a `FileIo` for the change file,
-- `FsFns` for the system calls of the test case, over a world of any type, and `Libc` below
-- `DefaultFsFns`. What is asked of them is named: `IsReliable` (a file without errors; short reads and
-- writes are allowed), `IsPosix` (what writes, memory and `open` give) and `IsQuiet` (a query changes
-- nothing).
--
-- Machine integers wrap where the code's types do (`u16`, `u32`, `u64`, `to_int`). The maps of the
-- recorder are lists in the order in which an iteration meets their entries. Loops run on fuel:
-- `write_whole` has one round more than bytes to write, since each write takes a byte at least,
-- `get_change_data` one more than the file has bytes, since an entry has at least 12 of them, and
-- `print_errors` one for each bit of its word. `get_contents` needs one more than the depth of the
-- directories, as `delete_files` does, `write_data` and `write_data_mmap` more than the bytes to write,
-- the loops over a log two more than its events, and `cleanup_harness`, `prepare_device` and
-- `unmount_and_delete_mount_point` more than the times that the device is busy.
--
-- Not modelled: messages printed; the times and statistics of the tester, and the calls that it passes on;
-- of src/main.cpp the child's side of the fork; the registration of the PANDA plugins; the C workloads.
pub mod Base
pub mod DiskMod
pub mod ChangeLog
pub mod Recorder
pub mod TestCase
pub mod Results
pub mod Tester
pub mod Checker
pub mod Workload
pub mod WriteLog
pub mod ClassLoader
pub mod FsCommands
pub mod ClientSocket
pub mod Main
