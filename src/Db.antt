-- ===== src/Db.antt =====
-- burger/db: the wrappers over the MySQL client library, whose answers are arguments.
pub mod Bind
pub mod Mysql
pub mod Stmt
pub mod Transaction
pub mod StmtRes
pub mod MysqlTime
pub mod Res
