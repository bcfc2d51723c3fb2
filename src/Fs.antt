-- ===== src/Fs.antt =====
-- Files: kernel/src/fs. The nodes of tmpfs and of the virtual file system (`struct tmpfs_node` of
-- kernel/src/fs/tmpfs.c, `vfs_node_t` of kernel/src/fs/vfs.h) lie in memory at the addresses that
-- the heap gives; names are lists of characters, and the bytes of a file, which a node owns alone,
-- are a list behind `contents`. The function pointers of a node name the driver whose functions they
-- are.
pub mod Dir
pub mod Vfs
pub mod Tmpfs
pub mod Names
pub mod Scan
pub mod Inv
pub mod Lookup
pub mod Rounds
pub mod Open
pub mod Close
pub mod Resolve
pub mod Find
pub mod Paths
pub mod Place
pub mod Attach
pub mod Create
pub mod Store
pub mod RoundTrip
pub mod Init
pub mod KernelHeap
mod Tests
use ded_os.Base.{ℕ, ◌/◌, ◌%◌, Bool, true, false, not, Option, none, some, List, ◌==◌}

abbrev pub vfs_file : ℕ
vfs_file = 1

abbrev pub vfs_directory : ℕ
vfs_directory = 2

-- `flags & VFS_DIRECTORY`.
abbrev pub is_directory : ℕ → Bool
is_directory flags = flags / 2 % 2 == 1

pub data Driver : Type 0 where
  tmpfs : Driver

pub record TmpfsNode : Type 0 where
  pub name : List ℕ
  pub flags : ℕ
  pub size : ℕ
  pub contents : List ℕ
  pub next : ℕ
  pub children : ℕ

pub record VfsNode : Type 0 where
  pub name : List ℕ
  pub flags : ℕ
  pub size : ℕ
  pub device : ℕ
  pub read : Option Driver
  pub finddir : Option Driver

-- The heap, both kinds of nodes, and the static variables.
pub record Files (H : Type 0) : Type 0 where
  pub heap : H
  pub internal : ℕ → TmpfsNode
  pub nodes : ℕ → VfsNode
  pub root_internal : ℕ
  pub vfs_root : ℕ
