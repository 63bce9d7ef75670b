-- ===== src/Tests.antt =====
-- Runs of the modelled code on concrete inputs, and the theorems at concrete inputs.
mod Slabs
mod Lists
mod Fields
mod Headers
mod Settings
mod Table
mod Store
mod Memory
mod Alloc
