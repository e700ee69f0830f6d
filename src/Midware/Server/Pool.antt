-- ===== src/Midware/Server/Pool.antt =====
-- EasyBaseServer::_InitializeSessionPool (midware/src/easy_baseserver.cpp).
use lib_fantuan.Prelude.{
  ℕ, zero, suc, ◌+◌, ◌≡◌, refl, ap, ap₂, ◌∙◌, List, [], ◌∷◌, ◌++◌, arith, replicate, append_assoc,
}
use lib_fantuan.Common.EasyPool.{EasyPool, allocate, free}
use lib_fantuan.Midware.Session.{Session}
use lib_fantuan.Midware.Server.{init_sessions, initialize}

-- A pool of one session, which is free.
abbrev pub single : Session → EasyPool Session
single session = record { objects = session ∷ []; free_list = 0 ∷ [] }

-- Every round takes that session and frees it again.
init_sessions-single :
    (made session : Session) (n i : ℕ) (array : List ℕ)
    → init_sessions made (suc n) i (single session) array
      ≡ (single (record session { session_id = i + n }), array ++ replicate (suc n) 0)
unfolding init_sessions allocate free
init_sessions-single made session zero i array =
    ap (λ k. (single (record session { session_id = k }), array ++ 0 ∷ [])) (omega arith)
init_sessions-single made session (suc n) i array =
    init_sessions-single made (record session { session_id = i }) n (i + 1) (array ++ 0 ∷ [])
    ∙ ap₂ (λ k a. (single (record session { session_id = k }), a)) (omega arith)
        (append_assoc array (0 ∷ []) (replicate (suc n) 0))

-- After Initialize with a maximum above 0 there is one session. It has the last id, every entry of
-- the session array is that session, and no other session is ready.
pub initialize_aliases :
    (made : Session) (n : ℕ)
    → ((initialize made (suc n)).pool ≡ single (record made { session_id = n }))
      × ((initialize made (suc n)).array ≡ replicate (suc n) 0)
unfolding initialize init_sessions allocate free
initialize_aliases made zero = (refl, refl)
initialize_aliases made (suc n) =
    let e = init_sessions-single made (record made { session_id = 0 }) n 1 (0 ∷ []) in
    (
      ap (λ r. r.0) e ∙ ap (λ k. single (record made { session_id = k })) (omega arith),
      ap (λ r. r.1) e,
    )
