-- ===== src/Mql/Mql4.antt =====
-- common/mql-cpp, namespace mql::mql4
pub mod FullAccountInfo
pub mod OrderInfo
