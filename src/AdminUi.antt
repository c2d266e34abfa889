-- ===== src/AdminUi.antt =====
-- internal/adminui/server.go: the pages of the owner plane. A form is what ParseForm makes of the
-- body, none where it fails; of a field that comes more than once it has the first value. What a
-- template makes of its data is left out.
pub mod Pages
pub mod Members
pub mod Users
pub mod Data
pub mod Studio
pub mod Routes
pub mod Entry
pub mod Viewing
pub mod Deleting
pub mod Examples
