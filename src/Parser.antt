-- ===== src/Parser.antt =====
-- The parser service, parser/pral.
pub mod Sexpr
pub mod Schema
pub mod Plugin
pub mod Registry
pub mod Kicad
pub mod Bom
pub mod Stores
