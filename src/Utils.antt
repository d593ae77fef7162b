-- ===== src/Utils.antt =====
-- src/utils.c: the static methods of `Handlebars\Utils`.
pub mod Indent
pub mod CString
pub mod ContextPath
pub mod Frame
pub mod IntArray
pub mod NameLookup
pub mod Expression
pub mod Escape
