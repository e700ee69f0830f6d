-- ===== src/Easynet/EasyBuf/Tests.antt =====
-- A run of the buffer of easynet (easynet/easy_buf.c).
use lib_fantuan.Prelude.{ℕ, ◌≡◌, true, some, List, [], ◌∷◌, arith}
use lib_fantuan.Easynet.EasyBuf.{
  EasyBuf, create_easy_buf, push_to_easy_buf, pop_from_easy_buf, IsValid, contents, pop-push,
  create_easy_buf-IsValid,
}

abbrev item : List ℕ
item = 7 ∷ 8 ∷ []

pop-push_example :
    (c d : EasyBuf) × (push_to_easy_buf item (create_easy_buf 16) ≡ some (c, true))
    × (pop_from_easy_buf 2 c ≡ some (d, item))
    × IsValid d
    × (contents d ≡ contents (create_easy_buf 16))
pop-push_example = pop-push (create_easy_buf 16) item (create_easy_buf-IsValid 16) (omega arith)
