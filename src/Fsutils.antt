-- ===== src/Fsutils.antt =====
-- cmd-drivers/fsutils: block devices as lsblk reports them, the decoding of their sizes, filters over them, the lookups by name
-- and by UUID, the subtree of the root disk, and the filesystem types and labels.
pub mod Device
pub mod Decode
pub mod Lsblk
pub mod Filters
pub mod RootDisk
pub mod FsType
pub mod Label
