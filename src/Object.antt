-- ===== src/Object.antt =====
-- src/object and src/authority/object-resource.js: names and version tokens of image objects.
pub mod Resource
pub mod VersionToken
mod Tests
