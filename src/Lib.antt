-- ===== src/Lib.antt =====
-- Verification of the local-disk provisioner for Kubernetes.
--
-- The program has three parts that run in a cluster, and a library that the first of them uses.
-- The node scanner runs on each node: it formats raw disks, mounts the disks that carry its label
-- under /mnt/cubbit/<UUID>, and publishes them on its node as labels `agent.cubbit.io/has-uuid-<UUID>`
-- and as a disk map (UUID to mount path and size) in an annotation. The webhook pins a pod whose claim
-- names a UUID to a node with the label of that UUID. The provisioner makes a local volume of the
-- entry of the selected node's disk map for the UUID of the claim.
--
-- Files and code:
--   Base             what the other modules share: Boolean tests, lists, maps, errors, texts
--   Exec             Go functions that act on the world, and invariants of them
--   Models           cmd-drivers/models, commonlib: the records and names that the parts share
--   Fsutils          cmd-drivers/fsutils
--     Device         BlockDevice, FlattenDevices, FilterDevices (lsblk.go)
--     Decode         CustomInt64, CustomBool (lsblk.go); Decode/Output is the JSON of block devices
--     Lsblk          FilterFunc, GetBlockDevices, GetBlockDevice, GetUUID (lsblk.go)
--     Filters        And, Or, Not, TypeFilter, NameFilter, FSTypeFilter (lsblk.go)
--     RootDisk       FindRootDiskDescendants (lsblk.go)
--     FsType, Label  ParseFSTypes and ValidateLabel (fstype.go)
--   Providers        cmd-drivers/providers: the interfaces, and Resolver, Format, MountInfo, Statfs and
--                    K8sMount for the five implementations
--   Services         cmd-drivers/services: Interfaces, Scanner, Initializer, Mounter, and Paths for
--                    filepath.Join
--   NodeScanner      node-scanner/internal/scanner/scanner.go
--   Provisioner      provisioner/internal/provisioner/provisioner.go
--   Webhook          webhook/internal/webhook/webhook.go; Webhook/Patch is the effect of a JSON patch,
--                    written from RFC 6902 and RFC 6901; Webhook/Certs, Webhook/CaBundle and
--                    Webhook/SelfSigned are webhook/internal/webhook/certs.go
--   Commands         the functions main: Serve is webhook/cmd/main.go, Watch is
--                    node-scanner/cmd/main.go, Control is provisioner/cmd/main.go
--   Logger           cmd-drivers/logger/logger.go
--   Flow             the parts together: what the provisioner and the webhook do with what the scanner
--                    published, and the JSON of the disk map (Flow/DiskMapJson)
--   TestSupport      cmd-drivers/tests and tests/e2e/utilities: Loopdev is loopdev/loopdev.go, Mocks is
--                    the folder mocks, Report and Converter are converter.go
--   Tests            runs on small inputs, and each theorem at a concrete input
-- The laws of a component are in its child modules, named for what they prove.
--
-- The world is a type `W` that the theorems leave open. A call that reads it is a function from
-- `W`; a call that changes it is an `Exec W A`, which gives a result and the state after it, also
-- beside an error. Code outside the repository is a parameter: the run of lsblk with its
-- output, mkfs, sync and udevadm, statfs, the resolution of symbolic links, the files that the
-- mounter makes and removes, moby's mountinfo, the mount utilities and the API client with its
-- retry on conflict, the syntax of JSON texts, Kubernetes quantities, crypto/x509 with the clock,
-- zerolog, and the HTTP server and the provisioning controller that the commands start. What a
-- theorem relies on there is a hypothesis of it, and a test shows that it can hold.
--
-- Numbers: a `uint64` is a natural number whose operations wrap at 2 ^ 64 where the code's do, an
-- `int64` is an integer of its own type with the conversions of Go. Go maps are association lists.
-- Errors keep the format of the source and its arguments. The loops of the program are structural
-- recursion over lists or over the tree of devices; `Run` has the number of its ticks as an argument.
-- Only the loops of TestSupport/Loopdev are on fuel: 51 rounds, which are enough for a deadline of
-- five seconds with a sleep of 100 ms in each round. All reads in one pass of a loop see the state at
-- its start, as the code makes no change in between.
--
-- Not modelled: the messages that are logged, cancellation of contexts, the parsing of flags, signals
-- and the shutdown that they lead to, the answers of the HTTP server's library itself, and the syntax of
-- JSON texts.
pub mod Base
pub mod Exec
pub mod Models
pub mod Fsutils
pub mod Providers
pub mod Services
pub mod Provisioner
pub mod NodeScanner
pub mod Webhook
pub mod Logger
pub mod Commands
pub mod Flow
pub mod TestSupport
mod Tests
