-- ===== src/Value/Tests.antt =====
-- The theorem about canonical Values at a reference.
use lagrange_images.Base.{◌≡◌, refl, codes}
use lagrange_images.Base.Result.{ok}
use lagrange_images.Base.TextOrder.{sort_texts, insert_text, text_leb, code_units, units_leb}
use lagrange_images.Support.PortableBytes.{bytes_equal}
use lagrange_images.Value.Kinds.{integer}
use lagrange_images.Value.Host.{
  HostValue, text, object, member, no_members, keys, get_member, HostNumbers,
}
use lagrange_images.Value.Scalars.{
  canonicalize_value, canonicalize_members, kind_of, same_keys, texts_equal, member_or,
  integer_value, parse_integer, signed_decimal, is_digits, record_of,
}
use lagrange_images.Value.Scalars.Canonical.{canonicalize_value_idempotent}
use lagrange_images.Base.Decimal.{all_digits, of_decimal, value_from, to_decimal, digits_of}
use lagrange_images.Callable.BigEndian.Integers.{toy_numbers}

-- {"value": "007", "kind": "integer"}
abbrev seven : HostValue
seven =
    object (member "value" (text (codes "007")) (member "kind" (text (codes "integer")) no_members))

seven_canonical : (host : HostNumbers) → canonicalize_value host seven ≡ ok (integer (codes "7"))
unfolding canonicalize_value canonicalize_members kind_of same_keys texts_equal member_or
    integer_value parse_integer signed_decimal is_digits sort_texts insert_text text_leb code_units
    units_leb bytes_equal keys get_member all_digits of_decimal value_from to_decimal digits_of
seven_canonical host = refl

canonicalize_value_idempotent_example :
    canonicalize_value toy_numbers (record_of (integer (codes "7"))) ≡ ok (integer (codes "7"))
canonicalize_value_idempotent_example =
    canonicalize_value_idempotent toy_numbers seven (integer (codes "7"))
      (seven_canonical toy_numbers)
