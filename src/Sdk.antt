-- ===== src/Sdk.antt =====
-- jsScript/webmssdk.js: the signing script. One child module for each part of it.
pub mod Text
pub mod Rc4
pub mod Base64
pub mod Hex
pub mod Xxtea
pub mod Words
pub mod Utf8
pub mod Cipher
pub mod Hashes
pub mod Packer
pub mod Strings
pub mod Fields
pub mod Keys
pub mod Url
pub mod Requests
pub mod Browser
pub mod Storage
pub mod Settings
pub mod Profile
pub mod Events
pub mod Queue
pub mod Bogus
pub mod Vm
