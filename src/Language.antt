-- ===== src/Language.antt =====
-- src/language: the Smalltalk of the images.
pub mod DictionaryTable
