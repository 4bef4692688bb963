-- ===== src/Storage.antt =====
-- What the wallet stores: the remote VSS service, the browser's IndexedDB, and the code between.
pub mod Remote
pub mod Vss
pub mod Solo
pub mod Persist
pub mod Manager
pub mod Manifest
pub mod Restore
pub mod Recovery
