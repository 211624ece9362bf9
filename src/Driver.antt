-- ===== src/Driver.antt =====
-- The data structure module: p2/driver.c.
pub mod Tree
pub mod Numbers
pub mod RbTree
