-- ===== src/Sdk/Vm.antt =====
-- jsScript/webmssdk.js, lines 48 to 373: the program loader `w_0x5c3140` and the interpreter that
-- it returns, `_0x970e7`.
pub mod Loader
pub mod Decode
pub mod Machine
pub mod Control
pub mod Sample
pub mod Exec
pub mod Compile
