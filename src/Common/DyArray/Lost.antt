-- ===== src/Common/DyArray/Lost.antt =====
-- What erase does to the objects of a DyArray at a class type (common/src/dy_array.h).
use lib_fantuan.Prelude.{
  ℕ, suc, ◌+◌, ◌-◌, ◌≡◌, refl, sym, ap, ◌∙◌, Option, none, some, List, [], ◌∷◌, ◌++◌, map, length,
  set, get_elem?, get_elem?-append_at, set-append, append_assoc, length-append, arith,
}
use lib_fantuan.Common.DyArray.Objects.{
  Objects, lives, object_construct, object_destruct, destruct_slot, object_copy, copy_slot,
  shift_down, erase_object,
}

-- What `f` makes of an array: the slots, the objects that are lost more, and the same count.
record Becomes {A : Type 0} (f : Objects A → Option (Objects A)) (a : Objects A)
    (slots : List (Option A)) (more : ℕ) : Type 0 where
  after : Objects A
  result : f a ≡ some after
  slots_then : after.slots ≡ slots
  lost_then : after.lost ≡ a.lost + more
  count_then : after.count ≡ a.count

copy-Becomes :
    {A : Type 0} (a : Objects A) (p : List (Option A)) (y z : A) (rest : List (Option A))
    → a.slots ≡ p ++ (some y ∷ (some z ∷ rest))
    → Becomes (object_copy (length p + 1) (length p)) a (p ++ (some z ∷ (some z ∷ rest))) 1
unfolding object_copy copy_slot object_construct
copy-Becomes {A} a p y z rest e =
    let behind : p ++ (some y ∷ (some z ∷ rest)) ≡ (p ++ (some y ∷ [])) ++ (some z ∷ rest) =
      sym (append_assoc p (some y ∷ []) (some z ∷ rest)) in
    let at_next : length (p ++ (some y ∷ [])) ≡ length p + 1 = length-append p (some y ∷ []) in
    let found : get_elem? a.slots (length p + 1) ≡ some (some z) =
      ap (λ k. get_elem? k (length p + 1)) (e ∙ behind)
      ∙ (ap (get_elem? ((p ++ (some y ∷ [])) ++ (some z ∷ rest))) (sym at_next)
          ∙ get_elem?-append_at (p ++ (some y ∷ [])) rest (some z)) in
    let over : get_elem? a.slots (length p) ≡ some (some y) =
      ap (λ k. get_elem? k (length p)) e ∙ get_elem?-append_at p (some z ∷ rest) (some y) in
    record {
      after = object_construct (length p) z a;
      result = ap (copy_slot (length p) a) found;
      slots_then =
          ap (λ k. set k (length p) (some z)) e ∙ set-append p (some z ∷ rest) (some y) (some z);
      lost_then = ap (λ k. a.lost + lives k) over;
      count_then = refl;
    }

abbrev last_of : {A : Type 0} → A → List A → A
last_of y [] = y
last_of y (z ∷ zs) = last_of z zs

shift-Becomes :
    {A : Type 0} (a : Objects A) (p : List (Option A)) (y : A) (ys : List A)
    (rest : List (Option A))
    → a.slots ≡ p ++ (some y ∷ (map some ys ++ rest))
    → Becomes
        (shift_down (length ys) (length p))
        a
        (p ++ (map some ys ++ (some (last_of y ys) ∷ rest)))
        (length ys)
unfolding shift_down
shift-Becomes a p y [] rest e = record {
  after = a;
  result = refl;
  slots_then = e;
  lost_then = omega arith;
  count_then = refl;
}
shift-Becomes {A} a p y (z ∷ zs) rest e =
    let one = copy-Becomes a p y z (map some zs ++ rest) e in
    let q : List (Option A) = p ++ (some z ∷ []) in
    let moved : one.after.slots ≡ q ++ (some z ∷ (map some zs ++ rest)) =
      one.slots_then ∙ sym (append_assoc p (some z ∷ []) (some z ∷ (map some zs ++ rest))) in
    let more = shift-Becomes one.after q z zs rest moved in
    let next : length q ≡ length p + 1 = length-append p (some z ∷ []) in
    let goes_on : shift_down (length zs) (length p + 1) one.after ≡ some more.after =
      ap (λ k. shift_down (length zs) k one.after) (sym next) ∙ more.result in
    record {
      after = more.after;
      result = rw (one.result, shift_down) goes_on;
      slots_then =
          more.slots_then
          ∙ append_assoc p (some z ∷ []) (map some zs ++ (some (last_of z zs) ∷ rest));
      lost_then = omega (arith, more.lost_then, one.lost_then);
      count_then = more.count_then ∙ one.count_then;
    }

pub length-some : {A : Type 0} (xs : List A) → length (map some xs) ≡ length xs
length-some [] = refl
length-some (x ∷ xs) = ap suc (length-some xs)

destruct-Becomes :
    {A : Type 0} (a : Objects A) (p : List (Option A)) (z : A) (rest : List (Option A))
    → a.slots ≡ p ++ (some z ∷ rest)
    → Becomes (object_destruct (length p)) a (p ++ (none ∷ rest)) 0
unfolding object_destruct destruct_slot
destruct-Becomes a p z rest e =
    let found : get_elem? a.slots (length p) ≡ some (some z) =
      ap (λ k. get_elem? k (length p)) e ∙ get_elem?-append_at p rest (some z) in
    record {
      after = record a { slots = set a.slots (length p) none };
      result = ap (destruct_slot (length p) a) found;
      slots_then = ap (λ k. set k (length p) none) e ∙ set-append p rest (some z) none;
      lost_then = omega arith;
      count_then = refl;
    }

-- erase of the object `y` leaves the objects before it and those behind it, in order, and the slot behind them empty; but as
-- many objects as there were behind `y` are lost: they are never destructed.
-- Condition: the array holds the objects `xs`, `y` and `ys`, and nothing says what stands behind them.
pub erase_object-loses :
    {A : Type 0} (a : Objects A) (xs : List A) (y : A) (ys : List A) (rest : List (Option A))
    → a.slots ≡ map some xs ++ (some y ∷ (map some ys ++ rest))
    → a.count ≡ length xs + 1 + length ys
    → (b : Objects A) × (erase_object (length xs) a ≡ some b)
      × (b.slots ≡ map some xs ++ (map some ys ++ (none ∷ rest)))
      × (b.count ≡ length xs + length ys)
      × (b.lost ≡ a.lost + length ys)
unfolding erase_object
erase_object-loses {A} a xs y ys rest e count =
    let p : List (Option A) = map some xs in
    let at : length p ≡ length xs = length-some xs in
    let shifted = shift-Becomes a p y ys rest e in
    let behind : a.count - length xs - 1 ≡ length ys = omega (arith, count) in
    let shift : shift_down (a.count - length xs - 1) (length xs) a ≡ some shifted.after =
      ap (λ k. shift_down k (length xs) a) behind
      ∙ (ap (λ k. shift_down (length ys) k a) (sym at) ∙ shifted.result) in
    let q : List (Option A) = p ++ map some ys in
    let last : length q ≡ a.count - 1 =
      omega (arith, length-append p (map some ys), at, length-some ys, count) in
    let ready : shifted.after.slots ≡ q ++ (some (last_of y ys) ∷ rest) =
      shifted.slots_then ∙ sym (append_assoc p (map some ys) (some (last_of y ys) ∷ rest)) in
    let gone = destruct-Becomes shifted.after q (last_of y ys) rest ready in
    let end : object_destruct (a.count - 1) shifted.after ≡ some gone.after =
      ap (λ k. object_destruct k shifted.after) (sym last) ∙ gone.result in
    (
      record gone.after { count = a.count - 1 },
      rw (shift, erase_object) (rw (end, erase_object) refl),
      gone.slots_then ∙ append_assoc p (map some ys) (none ∷ rest),
      omega (arith, count),
      omega (arith, gone.lost_then, shifted.lost_then),
    )
