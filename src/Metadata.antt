-- ===== src/Metadata.antt =====
-- The metadata of a signal, a JSON object: what src/metadata.cpp reads of it, what
-- src/metadata_builder.cpp and the builders of its parts write into it.
pub mod Document
pub mod Read
pub mod Build
pub mod Refinement
pub mod Fields
