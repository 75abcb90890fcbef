-- ===== src/Tests.antt =====
-- Runs of the theorems at concrete values, a module for each group of parts.
mod Views
mod Buffers
mod Numbers
mod Texts
mod Paths
mod Bits
mod Printing
mod Trees
mod Systems
