-- ===== src/Common/EasyBuffer/Items.antt =====
-- Items that are pushed to an EasyBuffer (common/src/easy_buffer.cpp) one after the other, and the pop of all of them.
use lib_fantuan.Prelude.{
  ℕ, ◌+◌, ◌-◌, ◌^◌, ◌≤◌, ◌<◌, min, ◌≡◌, refl, ap, ap₂, ◌∙◌, Option, none, some, List, [], ◌∷◌, ◌++◌,
  arith, length, take, drop, ltb, if◌then◌else◌, ltb-eq_false, lt→ltb, length-append, Bool-cases,
  inl, inr, dec_lt, append-nil, append_assoc,
}
use lib_fantuan.Common.EasyBuffer.{EasyBuffer, push, pop}
use lib_fantuan.Common.EasyBuffer.Laws.{
  IsValid, contents, length-contents, push-contents, pop-contents,
}

-- A buffer that is not full is not full after a push.
pub push-not_full :
    {b c : EasyBuffer} (item : List ℕ)
    → IsValid b
    → IsValid c
    → b.size < b.max_size
    → contents c
      ≡ (if ltb (b.size + length item) b.max_size then contents b ++ item else contents b)
    → c.size < b.max_size
push-not_full {b} {c} item v vc h held = elim (dec_lt (b.size + length item) b.max_size) [
  | yes fits ↦
      let held' : contents c ≡ contents b ++ item =
        rw (lt→ltb (b.size + length item) b.max_size fits) at held in
      omega (
        arith,
        length-contents v,
        length-contents vc,
        ap length held',
        length-append (contents b) item,
      )
  | no full ↦
      let held' : contents c ≡ contents b =
        rw (ltb-eq_false (b.size + length item) b.max_size (omega arith)) at held in
      omega (arith, length-contents v, length-contents vc, ap length held')
]

-- Popping all that is held.
pub pop_all :
    {b : EasyBuffer} (dst : List ℕ)
    → IsValid b
    → b.size ≤ length dst
    → (b' : EasyBuffer) × (pop b (some dst) b.size
        ≡ some (b', contents b ++ drop b.size dst, b.size))
      × IsValid b'
      × (contents b' ≡ [])
      × (b'.max_size ≡ b.max_size)
pop_all {b} dst v room =
    let all : min b.size b.size ≡ b.size = omega arith in
    let nothing : b.size - b.size ≡ 0 = omega arith in
    let (b', popped, v', held, same_max) = pop-contents dst b.size v (omega arith) in
    (
      b',
      popped ∙ ap₂ (λ k m. some (b', drop k (contents b) ++ drop m dst, m)) nothing all,
      v',
      held ∙ ap (λ k. take k (contents b)) nothing,
      same_max,
    )

-- The calls of Push for one item after the other, as long as none faults.
unfoldable pub push_all : EasyBuffer → List (List ℕ) → Option EasyBuffer
push_all b [] = some b
push_all b (item ∷ items) = elim (push b item) [ none ↦ none | some (b', ok) ↦ push_all b' items ]

-- The items that fit, one after the other, when `size` bytes are held already: what Push accepts.
unfoldable pub accepted : ℕ → ℕ → List (List ℕ) → List ℕ
accepted max_size size [] = []
accepted max_size size (item ∷ items) =
    if ltb (size + length item) max_size
    then item ++ accepted max_size (size + length item) items
    else accepted max_size size items

abbrev pub AllSmall : List (List ℕ) → Type 0
AllSmall [] = Unit {0}
AllSmall (item ∷ items) = (length item < 2 ^ 31) × AllSmall items

-- What is held after one item more, and the size of it.
pub accepted_step :
    (b c : EasyBuffer) (item : List ℕ) (items : List (List ℕ))
    → IsValid b
    → IsValid c
    → c.max_size ≡ b.max_size
    → contents c
      ≡ (if ltb (b.size + length item) b.max_size then contents b ++ item else contents b)
    → contents c ++ accepted c.max_size c.size items
      ≡ contents b ++ accepted b.max_size b.size (item ∷ items)
unfolding accepted
accepted_step b c item items v vc same_max held =
    elim (Bool-cases (ltb (b.size + length item) b.max_size)) [
      | inl fits ↦
          let held' : contents c ≡ contents b ++ item = rw fits at held in
          let size : c.size ≡ b.size + length item = omega (
            arith,
            length-contents v,
            length-contents vc,
            ap length held',
            length-append (contents b) item,
          ) in
          rw (fits, same_max)
            (ap₂ (λ h n. h ++ accepted b.max_size n items) held' size
              ∙ append_assoc (contents b) item (accepted b.max_size (b.size + length item) items))
      | inr full ↦
          let held' : contents c ≡ contents b = rw full at held in
          let size : c.size ≡ b.size =
            omega (arith, length-contents v, length-contents vc, ap length held') in
          rw (full, same_max) (ap₂ (λ h n. h ++ accepted b.max_size n items) held' size)
    ]

pub push_all-contents :
    (items : List (List ℕ)) {b : EasyBuffer}
    → IsValid b
    → AllSmall items
    → (b' : EasyBuffer) × (push_all b items ≡ some b')
      × IsValid b'
      × (contents b' ≡ contents b ++ accepted b.max_size b.size items)
      × (b'.max_size ≡ b.max_size)
unfolding push_all accepted
push_all-contents [] {b} v small = (b, refl, v, rw append-nil, refl)
push_all-contents (item ∷ items) {b} v small =
    let (c, pushed, vc, held, same_max) = push-contents item v small.0 in
    let (d, rest, vd, all, same_max') = push_all-contents items {b = c} vc small.1 in
    (
      d,
      rw (pushed, push_all) rest,
      vd,
      all ∙ accepted_step b c item items v vc same_max held,
      same_max' ∙ same_max,
    )
