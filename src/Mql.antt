-- ===== src/Mql.antt =====
-- common/mql-cpp: the MetaTrader data that packets carry. One module for each enumeration and struct,
-- under the namespace that declares it.
pub mod DateTime
pub mod Enums
pub mod Common
pub mod Mql4
pub mod Mql5
