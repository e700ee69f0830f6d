-- ===== src/Common/TypeList/Tests.antt =====
-- A list of types (common/src/type_list.h).
use lib_fantuan.Prelude.{◌<◌, ◌≡◌, refl, some}
use lib_fantuan.Common.TypeList.{
  TypeList, typelist_4, type_at, index_of, length_of, type_at-index_of,
}

abbrev four : TypeList
four = typelist_4 10 11 12 13

third : index_of four 12 ≡ some 2
unfolding index_of
third = refl

type_at-index_of_example : (type_at four 2 ≡ some 12) × (2 < length_of four)
type_at-index_of_example = type_at-index_of four 12 2 third
