-- ===== src/Rdisc.antt =====
-- rdisc, the router discovery of iputils-ns, as a host: the table of routers, the default routes in
-- the kernel, and the advertisements that it takes (rdisc.c).
pub mod Table
pub mod Walks
pub mod Kernel
pub mod Lookup
pub mod Sound
pub mod Flags
pub mod Best
pub mod Routes
pub mod Aging
pub mod Packet
pub mod Daemon
pub mod Reading
pub mod Life
pub mod Spec
pub mod Advertise
mod Tests
