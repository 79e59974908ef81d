-- ===== src/Sdk/Browser.antt =====
-- jsScript/webmssdk.js, lines 4595 to 4633, 4877 to 5092, 5301 to 5355, 5437 to 5471 and 6076 to
-- 6188: what the script reads from the browser for its report. The objects of the browser are
-- parameters, and an object of the script is the list of its fields.
pub mod Fonts
pub mod Report
pub mod Addresses
pub mod Graphics
pub mod Plugins
pub mod Devices
