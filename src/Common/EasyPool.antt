-- ===== src/Common/EasyPool.antt =====
-- EasyPool (common/src/easy_pool.h). An object is known by its address, the number of objects that
-- were made before it. Allocate and Free hold the mutex, so the calls of one pool are a sequence.
pub mod Laws
use lib_fantuan.Prelude.{ℕ, List, [], ◌∷◌, ◌++◌, length}

-- `objects` holds every object that the pool made, `free_list` is `m_ObjectList`.
pub record EasyPool (T : Type 0) : Type 0 where
  pub objects : List T
  pub free_list : List ℕ

module _ {T : Type 0} where
  take_front : EasyPool T → T → List ℕ → EasyPool T × ℕ
  take_front p made [] = (record p { objects = p.objects ++ made ∷ [] }, length p.objects)
  take_front p made (x ∷ xs) = (record p { free_list = xs }, x)

  -- `Allocate`, where `made` is what `new T()` makes.
  unfoldable pub allocate : EasyPool T → T → EasyPool T × ℕ
  unfolding take_front
  allocate p made = take_front p made p.free_list

  -- `Free`.
  unfoldable pub free : EasyPool T → ℕ → EasyPool T
  free p x = record p { free_list = p.free_list ++ x ∷ [] }
