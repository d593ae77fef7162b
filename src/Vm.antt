-- ===== src/Vm.antt =====
-- src/vm.c: `Handlebars\VM`.
pub mod Object
pub mod Log
pub mod HashPack
pub mod Binary
pub mod KnownHelpers
pub mod ProcessOptions
pub mod Compile
pub mod Render
