-- ===== src/Common/DyArray/Swaps.antt =====
-- The loops of _grow_n of DyArray at a class type (common/src/dy_array.h): the objects that they leave in the old and
-- in the new memory.
use lib_fantuan.Prelude.{
  ◌+◌, ◌≡◌, refl, sym, ap, ap₂, ◌∙◌, Option, none, some, List, [], ◌∷◌, ◌++◌, map, length, set,
  replicate, get_elem?, get_elem?-append_at, set-append, append_assoc, length-append, arith,
}
use lib_fantuan.Common.DyArray.Objects.{
  Objects, lives, object_construct, object_destruct, destruct_slot, copy_old, swap_slots, swap_one,
  swap_old,
}

-- New memory after the objects `xs` were made in its slots.
pub record Filled {A : Type 0} (b : Objects A) (slots : List (Option A)) (r : Option (Objects A))
    : Type 0 where
  pub after : Objects A
  pub result : r ≡ some after
  pub slots_then : after.slots ≡ slots
  pub lost_then : after.lost ≡ b.lost

-- An object is made in a free slot.
pub construct-free :
    {A : Type 0} (p rest : List (Option A)) (v : A) (b : Objects A)
    → b.slots ≡ p ++ (none ∷ rest)
    → let c = object_construct (length p) v b in
      (c.slots ≡ p ++ (some v ∷ rest)) × (c.lost ≡ b.lost)
unfolding object_construct
construct-free p rest v b e =
    let empty : get_elem? b.slots (length p) ≡ some none =
      ap (λ k. get_elem? k (length p)) e ∙ get_elem?-append_at p rest none in
    (
      ap (λ k. set k (length p) (some v)) e ∙ set-append p rest none (some v),
      ap (λ k. b.lost + lives k) empty ∙ omega arith,
    )

pub copy-Filled :
    {A : Type 0} (xs : List A) (p rest q : List (Option A)) (b : Objects A)
    → b.slots ≡ p ++ (replicate (length xs) none ++ rest)
    → length q ≡ length p
    → Filled b (p ++ (map some xs ++ rest)) (copy_old (length xs) (length p) b (q ++ map some xs))
unfolding copy_old
copy-Filled [] p rest q b e same = record {
  after = b;
  result = refl;
  slots_then = e;
  lost_then = refl;
}
copy-Filled {A} (x ∷ xs) p rest q b e same =
    let tail : List (Option A) = replicate (length xs) none ++ rest in
    let c = object_construct (length p) x b in
    let (stored, none_lost) = construct-free p tail x b e in
    let p1 : List (Option A) = p ++ (some x ∷ []) in
    let q1 : List (Option A) = q ++ (some x ∷ []) in
    let here : get_elem? (q ++ (some x ∷ map some xs)) (length p) ≡ some (some x) =
      ap (get_elem? (q ++ (some x ∷ map some xs))) (sym same)
      ∙ get_elem?-append_at q (map some xs) (some x) in
    let more =
      copy-Filled xs p1 rest q1 c (stored ∙ sym (append_assoc p (some x ∷ []) tail))
        (omega (arith, length-append p (some x ∷ []), length-append q (some x ∷ []), same)) in
    let next : length p1 ≡ length p + 1 = length-append p (some x ∷ []) in
    let old : q1 ++ map some xs ≡ q ++ (some x ∷ map some xs) =
      append_assoc q (some x ∷ []) (map some xs) in
    record {
      after = more.after;
      result =
          rw (here, copy_old)
            (ap₂ (λ k m. copy_old (length xs) k c m) (sym next) (sym old) ∙ more.result);
      slots_then = more.slots_then ∙ append_assoc p (some x ∷ []) (map some xs ++ rest);
      lost_then = more.lost_then ∙ none_lost;
    }

-- Both memories after the objects `xs` were swapped over.
pub record Swapped {A : Type 0} (b : Objects A) (slots old : List (Option A))
    (r : Option (Objects A × Objects A)) : Type 0 where
  pub after : Objects A
  pub rest : Objects A
  pub result : r ≡ some (after, rest)
  pub slots_then : after.slots ≡ slots
  pub old_then : rest.slots ≡ old
  pub lost_then : after.lost ≡ b.lost

-- The object of a slot is destructed.
destruct-slot :
    {A : Type 0} (p rest : List (Option A)) (v : A) (a : Objects A)
    → a.slots ≡ p ++ (some v ∷ rest)
    → object_destruct (length p) a ≡ some (record a { slots = p ++ (none ∷ rest) })
unfolding object_destruct destruct_slot
destruct-slot p rest v a e =
    let here : get_elem? a.slots (length p) ≡ some (some v) =
      ap (λ k. get_elem? k (length p)) e ∙ get_elem?-append_at p rest (some v) in
    let gone : set a.slots (length p) none ≡ p ++ (none ∷ rest) =
      ap (λ k. set k (length p) none) e ∙ set-append p rest (some v) none in
    rw (here, destruct_slot) (ap (λ k. some (record a { slots = k })) gone)

swap_one-Swapped :
    {A : Type 0} (blank x : A) (p tail q more : List (Option A)) (b old : Objects A)
    → b.slots ≡ p ++ (none ∷ tail)
    → old.slots ≡ q ++ (some x ∷ more)
    → length q ≡ length p
    → Swapped b (p ++ (some x ∷ tail)) (q ++ (none ∷ more)) (swap_one blank (length p) b old)
unfolding swap_one swap_slots
swap_one-Swapped {A} blank x p tail q more b old e f same =
    let made = object_construct (length p) blank b in
    let (stored, none_lost) = construct-free p tail blank b e in
    let new_slot : get_elem? made.slots (length p) ≡ some (some blank) =
      ap (λ k. get_elem? k (length p)) stored ∙ get_elem?-append_at p tail (some blank) in
    let old_slot : get_elem? old.slots (length p) ≡ some (some x) =
      ap₂ get_elem? f (sym same) ∙ get_elem?-append_at q more (some x) in
    let given : Objects A = record old { slots = set old.slots (length p) (some blank) } in
    let given_slots : given.slots ≡ q ++ (some blank ∷ more) =
      ap₂ (λ k m. set k m (some blank)) f (sym same) ∙ set-append q more (some x) (some blank) in
    let ended : object_destruct (length p) given
        ≡ some (record given { slots = q ++ (none ∷ more) }) =
      ap (λ k. object_destruct k given) (sym same) ∙ destruct-slot q more blank given given_slots in
    record {
      after = record made { slots = set made.slots (length p) (some x) };
      rest = record given { slots = q ++ (none ∷ more) };
      result = rw (new_slot, old_slot, swap_slots) (rw (ended, swap_slots) refl);
      slots_then =
          ap (λ k. set k (length p) (some x)) stored ∙ set-append p tail (some blank) (some x);
      old_then = refl;
      lost_then = none_lost;
    }

pub swap-Swapped :
    {A : Type 0} (blank : A) (xs : List A) (p rest q : List (Option A)) (b old : Objects A)
    → b.slots ≡ p ++ (replicate (length xs) none ++ rest)
    → old.slots ≡ q ++ map some xs
    → length q ≡ length p
    → Swapped b
        (p ++ (map some xs ++ rest))
        (q ++ replicate (length xs) none)
        (swap_old blank (length xs) (length p) b old)
unfolding swap_old
swap-Swapped blank [] p rest q b old e f same = record {
  after = b;
  rest = old;
  result = refl;
  slots_then = e;
  old_then = f;
  lost_then = refl;
}
swap-Swapped {A} blank (x ∷ xs) p rest q b old e f same =
    let tail : List (Option A) = replicate (length xs) none ++ rest in
    let nones : List (Option A) = replicate (length xs) none in
    let p1 : List (Option A) = p ++ (some x ∷ []) in
    let q1 : List (Option A) = q ++ (none ∷ []) in
    let one = swap_one-Swapped blank x p tail q (map some xs) b old e f same in
    let more =
      swap-Swapped blank xs p1 rest q1 one.after one.rest
        (one.slots_then ∙ sym (append_assoc p (some x ∷ []) tail))
        (one.old_then ∙ sym (append_assoc q (none ∷ []) (map some xs)))
        (omega (arith, length-append p (some x ∷ []), length-append q (none ∷ []), same)) in
    let next : length p1 ≡ length p + 1 = length-append p (some x ∷ []) in
    record {
      after = more.after;
      rest = more.rest;
      result =
          rw (one.result, swap_old)
            (ap (λ k. swap_old blank (length xs) k one.after one.rest) (sym next) ∙ more.result);
      slots_then = more.slots_then ∙ append_assoc p (some x ∷ []) (map some xs ++ rest);
      old_then = more.old_then ∙ append_assoc q (none ∷ []) nones;
      lost_then = more.lost_then ∙ one.lost_then;
    }
