-- ===== src/Value/Kinds.antt =====
-- src/value/kinds.js: the kinds of canonical Values.
use lagrange_images.Base.{Bool}
use lagrange_images.Support.PortableBytes.{Text}

-- A canonical Value: an integer and a revision as their decimal text, a float as its hexadecimal
-- digits, bytes as base64.
pub data Value : Type 0 where
  boolean : Bool → Value
  integer : Text → Value
  float64 : Text → Value
  text : Text → Value
  bytes : Text → Value
  ref : Text → Text → Value
  pinned_ref : Text → Text → Text → Value
