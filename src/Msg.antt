-- ===== src/Msg.antt =====
-- core/src/msg.c and core/include/msg.h: the messages between the programs.
--
-- The write pointer of an encoder moves over the bytes that it has written, which is `++`; the read
-- pointer of a decoder is the list of the bytes from it on. The numbers of the wire are taken at
-- their widths: an int32 or int64 is an integer, an unsigned one a natural number.
pub mod Lengths
pub mod Types
pub mod Reader
pub mod Codec
pub mod Orders
pub mod Session
pub mod Market
pub mod Ledger
pub mod Queries
pub mod Body
pub mod Delivery
pub mod Tests
