-- ===== src/Tftp.antt =====
-- The TFTP server of iputils-ns: the double buffering and the netascii conversion of tftpsubs.c
-- (`Buffers`), and the transfer loops of tftpd.c (`Sender`, `Receiver`) with the check of the file
-- (`Request`) and the reading of the request (`Dispatch`).
pub mod Stream
pub mod Buffers
pub mod Netascii
pub mod Ahead
pub mod ReadAhead
pub mod Sender
pub mod Waiting
pub mod Delivery
pub mod Completion
pub mod Receiver
pub mod Storage
pub mod Appending
pub mod Decoding
pub mod Agreement
pub mod Reception
pub mod LastWait
pub mod Request
pub mod Paths
pub mod Granting
pub mod Dispatch
mod Tests
