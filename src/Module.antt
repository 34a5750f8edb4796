-- ===== src/Module.antt =====
-- The kernel modules of the host.
pub mod Start
pub mod Heap
pub mod Owned
pub mod Taken
pub mod Free
pub mod Balance
pub mod Kmalloc
pub mod Released
pub mod FromPeer
pub mod Scif
pub mod Open
pub mod Closed
pub mod Left
pub mod Null
pub mod KmallocBalance
