-- ===== src/Common/StringBase/Text.antt =====
-- The strings of common/src/string_base.h as texts.
use Prim.Native.Nat.{compare, Ordering}
use lib_fantuan.Prelude.{
  ℕ, zero, suc, ◌+◌, ◌≤◌, ◌<◌, ◌≡◌, ◌≢◌, refl, sym, ap, ap₂, ◌∙◌, ◌↔◌, true, false, Option, some,
  List, [], ◌∷◌, ◌++◌, arith, length, take, drop, replicate, ◌==◌, if◌then◌else◌, length-replicate,
  memcpy, memcpy_lem, length-memcpy, le→leb, length-append, append_assoc, take-append_le, take_all,
  ℕ_discrete, take_two,
}
use lib_fantuan.Common.Array
use lib_fantuan.Common.Array.{Array, stored}
use lib_fantuan.Common.StringBase.{strlen, assign, append, strcmp}

-- No byte of a text is the end mark.
abbrev pub Plain : List ℕ → Type 0
Plain [] = Unit {0}
Plain (x ∷ xs) = (0 < x) × Plain xs

-- The memory of `s` starts with the text `t` and its end mark.
pub record Holds (s : Array) (t : List ℕ) : Type 0 where
  pub behind : List ℕ
  pub starts : s.elements ≡ t ++ (0 ∷ behind)

strlen-text : (t behind : List ℕ) → Plain t → strlen (t ++ (0 ∷ behind)) ≡ some (length t)
unfolding strlen
strlen-text [] behind p = refl
strlen-text (zero ∷ xs) behind p = absurd (omega (arith, p.0))
strlen-text (suc c ∷ xs) behind p = rw (strlen-text xs behind p.1, strlen) refl

take-text : (t behind : List ℕ) → take (length t + 1) (t ++ (0 ∷ behind)) ≡ t ++ (0 ∷ [])
take-text t behind = take_two (length t + 1) t (0 ∷ []) behind refl

assign_eq :
    (a : Array) (items d : List ℕ)
    → length items ≤ length a.elements
    → memcpy (replicate (length a.elements) 0) 0 items ≡ some d
    → Array.assign a items ≡ some (record { elements = d })
unfolding Array.assign stored
assign_eq a items d h e = rw (le→leb (length items) (length a.elements) h) (ap stored e)

append_eq :
    (a : Array) (items d : List ℕ) (pos : ℕ)
    → length items + pos ≤ length a.elements
    → memcpy a.elements pos items ≡ some d
    → Array.append a items pos ≡ some (record { elements = d })
unfolding Array.append stored
append_eq a items d pos h e = rw (le→leb (length items + pos) (length a.elements) h) (ap stored e)

-- assign of a text that fits with its end mark leaves the string holding that text.
pub assign-Holds :
    (s : Array) (t behind : List ℕ)
    → Plain t
    → length t + 1 ≤ length s.elements
    → (s' : Array) × (assign s (t ++ (0 ∷ behind)) ≡ some s')
      × Holds s' t
      × (length s'.elements ≡ length s.elements)
unfolding assign
assign-Holds s t behind p h =
    let items = t ++ (0 ∷ []) in
    let size : length items ≡ length t + 1 = omega (arith, length-append t (0 ∷ [])) in
    let blanks : List ℕ = replicate (length s.elements) 0 in
    let width = length-replicate {A = ℕ} (length s.elements) 0 in
    let copied = memcpy_lem blanks 0 items (omega (arith, size, width)) in
    let d = items ++ drop (0 + length items) blanks in
    (
      record { elements = d },
      rw (strlen-text t behind p, assign)
          (ap (Array.assign s) (take-text t behind)
            ∙ assign_eq s items d (omega (arith, size)) copied),
      record {
        behind = drop (0 + length items) blanks;
        starts = append_assoc t (0 ∷ []) (drop (0 + length items) blanks);
      },
      length-memcpy blanks 0 items copied ∙ width,
    )

-- append of a text that fits behind the text that is held leaves the string holding both.
pub append-Holds :
    (s : Array) (t u behind : List ℕ)
    → Plain t
    → Plain u
    → Holds s t
    → length t + length u + 1 ≤ length s.elements
    → (s' : Array) × (append s (u ++ (0 ∷ behind)) ≡ some s')
      × Holds s' (t ++ u)
      × (length s'.elements ≡ length s.elements)
unfolding append
append-Holds s t u behind p q held h =
    let items = u ++ (0 ∷ []) in
    let n = length t in
    let size : length items ≡ length u + 1 = omega (arith, length-append u (0 ∷ [])) in
    let copied = memcpy_lem s.elements n items (omega (arith, size)) in
    let after = drop (n + length items) s.elements in
    let d = take n s.elements ++ (items ++ after) in
    let place : strlen s.elements ≡ some n = ap strlen held.starts ∙ strlen-text t held.behind p in
    let front : take n s.elements ≡ t =
      ap (take n) held.starts
      ∙ (take-append_le n t (0 ∷ held.behind) (omega arith) ∙ take_all n t (omega arith)) in
    (
      record { elements = d },
      rw (strlen-text u behind q, append)
          (rw (place, append)
            (ap (λ k. Array.append s k n) (take-text u behind)
              ∙ append_eq s items d n (omega (arith, size)) copied)),
      record {
        behind = after;
        starts =
            ap₂ ◌++◌ front (append_assoc u (0 ∷ []) after) ∙ sym (append_assoc t u (0 ∷ after));
      },
      length-memcpy s.elements n items copied,
    )

compare_eq : (x y : ℕ) → compare x y ≡ Ordering.eq → x ≡ y
compare_eq x y e = ground (arith, e)

-- Where the bytes differ the result is not that of equal texts.
differ :
    (x y : ℕ) (rest : Option Ordering)
    → x ≢ y
    → (if x == y then (if x == 0 then some Ordering.eq else rest) else some (compare x y))
      ≢ some Ordering.eq
differ x y rest other e =
    let test : (x == y) ≡ false = ground arith in
    let result : some (compare x y) ≡ some Ordering.eq = rw test at e in other (compare_eq x y (cc))

-- Two strings are equal exactly if they hold the same text.
pub strcmp_iff :
    (t u behind behind' : List ℕ)
    → Plain t
    → Plain u
    → (strcmp (t ++ (0 ∷ behind)) (u ++ (0 ∷ behind')) ≡ some Ordering.eq) ↔ (t ≡ u)
unfolding strcmp
strcmp_iff [] [] behind behind' p q = (λ e. refl, λ e. refl)
strcmp_iff [] (u ∷ us) behind behind' p q = (
  λ e. absurd (differ 0 u (strcmp behind (us ++ (0 ∷ behind'))) (λ same. omega (arith, q.0)) e),
  λ e. absurd (cc),
)
strcmp_iff (t ∷ ts) [] behind behind' p q = (
  λ e. absurd (differ t 0 (strcmp (ts ++ (0 ∷ behind)) behind') (λ same. omega (arith, p.0)) e),
  λ e. absurd (cc),
)
strcmp_iff (t ∷ ts) (u ∷ us) behind behind' p q =
    let same = strcmp_iff ts us behind behind' p.1 q.1 in
    let next = strcmp (ts ++ (0 ∷ behind)) (us ++ (0 ∷ behind')) in
    elim (ℕ_discrete t u) [
      | yes head ↦
          let test : (t == u) ≡ true = ground arith in
          let more : (t == 0) ≡ false = ground (arith, p.0) in
          rw (test, more) (λ e. ap₂ ◌∷◌ head (same.0 e), λ e. same.1 (cc))
      | no other ↦ (λ e. absurd (differ t u next other e), λ e. absurd (other (cc)))
    ]
