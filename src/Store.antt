-- ===== src/Store.antt =====
-- pkg/database: the SQLite store. Each repository method is a program of statements over the
-- tables; `Tables` says what a statement is, and a module for each repository file follows.
pub mod Sql
pub mod Tables
pub mod Schema
pub mod Users
pub mod Library
pub mod History
pub mod Reviews
pub mod Catalog
pub mod Listing
pub mod Chats
pub mod Reads
