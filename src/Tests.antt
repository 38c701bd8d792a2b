-- ===== src/Tests.antt =====
-- Runs of the models at concrete inputs.
mod Scanning
mod Tables
mod Arrays
mod Texts
mod Heaps
mod Handles
mod Strings
mod Lists
