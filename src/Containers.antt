-- ===== src/Containers.antt =====
-- The containers of common/ in an array of fixed size: oslist.h, which keeps its order, and
-- slist.h, which does not.
pub mod Oslist
pub mod Slist
