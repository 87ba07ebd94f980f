-- ===== src/Blok.antt =====
-- rekuest_next/blok/parser.py: bloks, the component trees of a user interface, with references to states
-- and actions of the agents that they depend on.
pub mod Paths
pub mod Nodes
pub mod Parsing
pub mod Written
pub mod Names
pub mod Resolution
pub mod Validation
pub mod Known
pub mod Follows
pub mod Unfinished
mod Tests
