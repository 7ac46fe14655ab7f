-- ===== src/Object/Tests.antt =====
-- A host that knows ASCII alone, and the theorems about names and tokens at it.
use lagrange_images.Base.{◌≡◌, refl, codes, arith}
use lagrange_images.Base.Result.{ok, err, ◌>>=◌}
use lagrange_images.Support.PortableBytes.{Text}
use lagrange_images.Support.Utf8.Ascii.{small_host, is_known}
use lagrange_images.Object.Resource.{object_resource_injective, object_resource_eq}
use lagrange_images.Object.VersionToken.{
  object_version_token, parse_object_version_token, different_object,
}
use lagrange_images.Object.VersionToken.Laws.{parse-object_version_token, token_of_other_object}

abbrev image_a : Text
image_a = codes "a"

abbrev object_b : Text
object_b = codes "b/c"

abbrev object_c : Text
object_c = codes "c"

different : ¬ ((image_a ≡ image_a) × (object_b ≡ object_c))
different h = cc (h.1)

object_resource_injective_example : (image_a ≡ image_a) × (object_b ≡ object_b)
unfolding is_known
object_resource_injective_example =
    object_resource_injective small_host image_a object_b image_a object_b refl refl refl refl
      (object_resource_eq small_host image_a object_b (λ e. cc) (λ e. cc))
      (object_resource_eq small_host image_a object_b (λ e. cc) (λ e. cc))

parse-object_version_token_example :
    (object_version_token small_host image_a object_b 41 >>= λ token.
    parse_object_version_token small_host token image_a object_b)
    ≡ ok 41
parse-object_version_token_example =
    parse-object_version_token small_host image_a object_b 41 (λ e. cc) (λ e. cc) (omega arith)

token_of_other_object_example :
    (object_version_token small_host image_a object_b 41 >>= λ token.
    parse_object_version_token small_host token image_a object_c)
    ≡ err different_object
unfolding is_known
token_of_other_object_example =
    token_of_other_object small_host image_a object_b image_a object_c 41 (λ e. cc) (λ e. cc)
      (λ e. cc) (λ e. cc) refl refl refl refl different (omega arith)
