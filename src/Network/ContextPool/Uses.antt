-- ===== src/Network/ContextPool/Uses.antt =====
-- What EasyContextPool (network/src/easy_contextpool.cpp) promises to those that pop and push.
use lib_fantuan.Prelude.{
  ℕ, suc, ◌+◌, ◌%◌, ◌^◌, ◌≤◌, ◌<◌, ◌≡◌, ◌↔◌, refl, sym, ap, subst, ◌∙◌, inl, inr, true, false, List,
  [], ◌∷◌, ◌++◌, arith, length, length-append, ◌==◌, ◌||◌, elem, elem-append, Distinct, Bool-cases,
}
use lib_fantuan.Network.ContextPool.{Side, empty_side, pop, popped, push, is_complete}

-- The states of a side, with the contexts that were popped and not pushed back.
pub data Uses : Side → List ℕ → Type 0 where
  unused : Uses empty_side []
  pops : {s : Side} {out : List ℕ} → Uses s out → Uses (pop s).0 ((pop s).1 ∷ out)
  pushes :
      {s : Side} (before : List ℕ) (x : ℕ) (behind : List ℕ)
      → Uses s (before ++ x ∷ behind)
      → Uses (push s x) (before ++ behind)

pub record Exclusive (s : Side) (out : List ℕ) : Type 0 where
  pub known : (x : ℕ) → (elem x s.free || elem x out) ≡ true → x < s.count
  pub apart : (x : ℕ) → elem x s.free ≡ true → elem x out ≡ false
  pub free_once : Distinct s.free
  pub out_once : Distinct out
  pub total : length s.free + length out ≡ s.count

pop-Exclusive :
    (s : Side) (out free : List ℕ)
    → free ≡ s.free
    → Exclusive s out
    → Exclusive (popped s free).0 ((popped s free).1 ∷ out)
unfolding popped
pop-Exclusive s out [] e v =
    let fresh : elem s.count out ≡ false = elim (Bool-cases (elem s.count out)) [
      | inl listed ↦ absurd (omega (arith, v.known s.count (ground (arith, listed))))
      | inr absent ↦ absent
    ] in
    let none_free : length s.free ≡ 0 = ap length (sym e) in
    record {
      known = λ x listed. elim (Bool-cases (x == s.count)) [
        | inl new ↦ ground (arith, new)
        | inr old ↦ let before = v.known x (ground (arith, listed, old)) in omega (arith, before)
      ];
      apart = λ x listed. absurd (cc);
      free_once = tt;
      out_once = (fresh, v.out_once);
      total = omega (arith, v.total, none_free);
    }
pop-Exclusive s out (x ∷ xs) e v =
    let once : Distinct (x ∷ xs) = subst Distinct (sym e) v.free_once in
    let count : length s.free ≡ suc (length xs) = ap length (sym e) in
    let listed_free : (y : ℕ) → elem y s.free ≡ elem y (x ∷ xs) = λ y. ap (elem y) (sym e) in
    let out_x : elem x out ≡ false = v.apart x (listed_free x ∙ ground arith) in
    record {
      known = λ y listed. v.known y (ground (arith, listed, listed_free y));
      apart = λ y listed.
          let not_out = v.apart y (listed_free y ∙ ground (arith, listed)) in
          let other : (y == x) ≡ false = elim (Bool-cases (y == x)) [
            | inl same ↦
                let equal : y ≡ x = ground (arith, same) in
                let twice : true ≡ false = sym listed ∙ (ap (λ k. elem k xs) equal ∙ once.0) in
                absurd (cc)
            | inr differs ↦ differs
          ] in
          ground (arith, not_out, other);
      free_once = once.1;
      out_once = (out_x, v.out_once);
      total = omega (arith, v.total, count);
    }

-- A list less one element of it.
Distinct-split :
    (before : List ℕ) (x : ℕ) (behind : List ℕ)
    → Distinct (before ++ x ∷ behind)
    → Distinct (before ++ behind) × (elem x (before ++ behind) ≡ false)
Distinct-split [] x behind d = (d.1, d.0)
Distinct-split (y ∷ ys) x behind d =
    let (rest, absent) = Distinct-split ys x behind d.1 in
    let whole = elem-append y ys (x ∷ behind) in
    let less = elem-append y ys behind in
    ((ground (arith, d.0, whole, less), rest), ground (arith, d.0, whole, absent))

push-Exclusive :
    (s : Side) (before : List ℕ) (x : ℕ) (behind : List ℕ)
    → Exclusive s (before ++ x ∷ behind)
    → Exclusive (push s x) (before ++ behind)
unfolding push
push-Exclusive s before x behind v =
    let (rest, absent) = Distinct-split before x behind v.out_once in
    let whole : (y : ℕ) → elem y (before ++ x ∷ behind) ≡ (elem y before || elem y (x ∷ behind)) =
      λ y. elem-append y before (x ∷ behind) in
    let less : (y : ℕ) → elem y (before ++ behind) ≡ (elem y before || elem y behind) =
      λ y. elem-append y before behind in
    let not_free : elem x s.free ≡ false = elim (Bool-cases (elem x s.free)) [
      | inl listed ↦
          let out = v.apart x listed in
          let here : elem x (before ++ x ∷ behind) ≡ true = whole x ∙ ground arith in
          let twice : true ≡ false = sym here ∙ out in absurd (cc)
      | inr free ↦ free
    ] in
    record {
      known = λ y listed. v.known y (ground (arith, listed, whole y, less y));
      apart = λ y listed. elim (Bool-cases (y == x)) [
        | inl same ↦
            let equal : y ≡ x = ground (arith, same) in
            ap (λ k. elem k (before ++ behind)) equal ∙ absent
        | inr other ↦
            let out = v.apart y (ground (arith, listed, other)) in
            ground (arith, out, whole y, less y)
      ];
      free_once = (not_free, v.free_once);
      out_once = rest;
      total =
          omega (arith, v.total, length-append before (x ∷ behind), length-append before behind);
    }

-- A context that was popped is free no more until it is pushed back, and no other pop gives it; the
-- free contexts and those that are out are all that were made.
pub Uses-Exclusive : {s : Side} {out : List ℕ} → Uses s out → Exclusive s out
unfolding pop
Uses-Exclusive unused = record {
  known = λ x listed. absurd (cc);
  apart = λ x listed. absurd (cc);
  free_once = tt;
  out_once = tt;
  total = omega arith;
}
Uses-Exclusive (pops {s = s} {out = out} u) = pop-Exclusive s out s.free refl (Uses-Exclusive u)
Uses-Exclusive (pushes {s = s} before x behind u) =
    push-Exclusive s before x behind (Uses-Exclusive u)

no_length : (xs : List ℕ) → length xs ≡ 0 → xs ≡ []
no_length [] h = refl
no_length (x ∷ xs) h = absurd (omega arith)

-- The destructor stops waiting for a side exactly when every context of it was pushed back.
-- Condition: fewer than 2 ^ 16 contexts were made.
pub is_complete_iff :
    {s : Side} (out : List ℕ) → Uses s out → s.count < 2 ^ 16 → (is_complete s ≡ true) ↔ (out ≡ [])
is_complete_iff {s} out u small =
    let v = Uses-Exclusive u in
    let depth : length s.free % 2 ^ 16 ≡ length s.free = omega (arith, v.total) in
    (
      λ done. no_length out (ground (arith, done, depth, v.total)),
      λ back. let nothing = ap length back in ground (arith, nothing, depth, v.total),
    )

push-popped :
    (s : Side) (free : List ℕ)
    → 1 ≤ length free
    → (push (popped s free).0 (popped s free).1).free ≡ free
unfolding popped push
push-popped s [] h = absurd (omega arith)
push-popped s (x ∷ xs) h = refl

-- Pushing what was just popped restores the free list.
pub push-pop : (s : Side) → 1 ≤ length s.free → (push (pop s).0 (pop s).1).free ≡ s.free
unfolding pop
push-pop s h = push-popped s s.free h

pub pop-pushed_out :
    (s : Side) (out : List ℕ) → Exclusive s out → Exclusive (pop s).0 ((pop s).1 ∷ out)
unfolding pop
pop-pushed_out s out v = pop-Exclusive s out s.free refl v

pub push-taken_out :
    (s : Side) (x : ℕ) (out : List ℕ) → Exclusive s (x ∷ out) → Exclusive (push s x) out
push-taken_out s x out v = push-Exclusive s [] x out v

-- The order of the contexts that are out does not matter.
pub in_front :
    (s : Side) (before : List ℕ) (x : ℕ) (behind : List ℕ)
    → Exclusive s (before ++ x ∷ behind)
    → Exclusive s (x ∷ (before ++ behind))
in_front s before x behind v =
    let (rest, absent) = Distinct-split before x behind v.out_once in
    let same : (y : ℕ) → elem y (x ∷ (before ++ behind)) ≡ elem y (before ++ x ∷ behind) =
      λ y. ground (arith, elem-append y before (x ∷ behind), elem-append y before behind) in
    record {
      known = λ y listed. v.known y (ground (arith, listed, same y));
      apart = λ y listed. same y ∙ v.apart y listed;
      free_once = v.free_once;
      out_once = (absent, rest);
      total =
          omega (arith, v.total, length-append before (x ∷ behind), length-append before behind);
    }
