-- ===== src/Tests.antt =====
-- Concrete runs of the modelled code.
mod Storage
mod Codec
mod Log
mod Sql
mod Plans
mod Ascii
