-- ===== src/Common/EasyPool/Laws.antt =====
-- What EasyPool (common/src/easy_pool.h) promises: an object that is handed out was idle, and is
-- handed out once until it is given back.
use lib_fantuan.Prelude.{
  ℕ, ◌<◌, ◌≡◌, ◌≢◌, refl, sym, ap, subst, ◌∙◌, inl, inr, true, false, some, List, [], ◌∷◌, ◌++◌,
  arith, length, get_elem?, set, Bool-cases, ℕ_discrete, get_elem?-lt, get_elem?-set,
  get_elem?-set_other, get_elem?-append, get_elem?-append_at, length-append, elem, Distinct,
  elem-append_one, Distinct-append_one,
}
use lib_fantuan.Common.EasyPool.{EasyPool, allocate, take_front, free}

listed_front : (x : ℕ) (xs : List ℕ) → elem x (x ∷ xs) ≡ true
listed_front x xs = ground arith

listed_behind : (x y : ℕ) (xs : List ℕ) → elem y xs ≡ true → elem y (x ∷ xs) ≡ true
listed_behind x y xs h = ground arith

-- `Idle` says what holds of an object while it is in the free list.
module _ {T : Type 0} (Idle : T → Type 0) where
  abbrev pub IdleAt : List T → ℕ → Type 0
  IdleAt objects x = (t : T) × (get_elem? objects x ≡ some t) × Idle t

  pub record IsValid (p : EasyPool T) : Type 0 where
    pub idle : (x : ℕ) → elem x p.free_list ≡ true → IdleAt p.objects x
    pub distinct : Distinct p.free_list

  -- `x` was handed out of `p`, which left `q`.
  pub record Allocated (p q : EasyPool T) (x : ℕ) : Type 0 where
    pub found : IdleAt q.objects x
    pub valid : IsValid q
    pub absent : elem x q.free_list ≡ false
    pub keeps : (y : ℕ) (t : T) → get_elem? p.objects y ≡ some t → get_elem? q.objects y ≡ some t
    pub only :
        (y : ℕ) (t : T) → y ≢ x → get_elem? q.objects y ≡ some t → get_elem? p.objects y ≡ some t

  not_in_free : (p : EasyPool T) → IsValid p → elem (length p.objects) p.free_list ≡ false
  not_in_free p v = elim (Bool-cases (elem (length p.objects) p.free_list)) [
    | inl listed ↦
        let (t, found, idle) = v.idle (length p.objects) listed in
        absurd (omega (arith, get_elem?-lt p.objects (length p.objects) found))
    | inr absent ↦ absent
  ]

  keeps_made :
      (objects : List T) (made : T) (y : ℕ) (t : T)
      → get_elem? objects y ≡ some t
      → get_elem? (objects ++ made ∷ []) y ≡ some t
  keeps_made objects made y t e =
      get_elem?-append objects (made ∷ []) y (get_elem?-lt objects y e) ∙ e

  only_made :
      (objects : List T) (made : T) (y : ℕ) (t : T)
      → y ≢ length objects
      → get_elem? (objects ++ made ∷ []) y ≡ some t
      → get_elem? objects y ≡ some t
  only_made objects made y t other e =
      let short : y < length objects = omega (
        arith,
        other,
        get_elem?-lt (objects ++ made ∷ []) y e,
        length-append objects (made ∷ []),
      ) in
      sym (get_elem?-append objects (made ∷ []) y short) ∙ e

  take_front_lem :
      (p : EasyPool T) (made : T) (xs : List ℕ)
      → xs ≡ p.free_list
      → IsValid p
      → Idle made
      → let r = take_front p made xs in Allocated p r.0 r.1
  unfolding take_front
  take_front_lem p made [] e v fresh = record {
    found = (made, get_elem?-append_at p.objects [] made, fresh);
    valid = record {
      idle = λ x listed.
          let (t, found, idle) = v.idle x listed in (t, keeps_made p.objects made x t found, idle);
      distinct = v.distinct;
    };
    absent = not_in_free p v;
    keeps = keeps_made p.objects made;
    only = only_made p.objects made;
  }
  take_front_lem p made (x ∷ xs) e v fresh =
      let d : Distinct (x ∷ xs) = subst Distinct (sym e) v.distinct in
      record {
        found = v.idle x (ap (elem x) (sym e) ∙ listed_front x xs);
        valid = record {
          idle = λ y listed. v.idle y (ap (elem y) (sym e) ∙ listed_behind x y xs listed);
          distinct = d.1;
        };
        absent = d.0;
        keeps = λ y t f. f;
        only = λ y t other f. f;
      }

  -- Allocate hands out an idle object, made before or new, that is not in the free list afterwards;
  -- the other objects stay as they are, and the pool stays valid.
  pub allocate_lem :
      (p : EasyPool T) (made : T)
      → IsValid p
      → Idle made
      → let r = allocate p made in Allocated p r.0 r.1
  unfolding allocate
  allocate_lem p made v fresh = take_front_lem p made p.free_list refl v fresh

  -- Free of an object that is out and idle keeps the pool valid.
  pub free-IsValid :
      (p : EasyPool T) (x : ℕ)
      → IsValid p
      → IdleAt p.objects x
      → elem x p.free_list ≡ false
      → IsValid (free p x)
  unfolding free
  free-IsValid p x v idle absent = record {
    idle = λ y listed. elim (ℕ_discrete y x) [
      | yes same ↦ rw same idle
      | no other ↦ v.idle y (ground (arith, elem-append_one y x p.free_list, listed, other))
    ];
    distinct = Distinct-append_one p.free_list x v.distinct absent;
  }

  -- A change of an object that is out, or stays idle, keeps the pool valid.
  pub set-IsValid :
      (p : EasyPool T) (x : ℕ) (t : T)
      → IsValid p
      → x < length p.objects
      → (elem x p.free_list ≡ true → Idle t)
      → IsValid (record p { objects = set p.objects x t })
  set-IsValid p x t v short stays = record {
    idle = λ y listed. elim (ℕ_discrete y x) [
      | yes same ↦ (
        t,
        ap (get_elem? (set p.objects x t)) same ∙ get_elem?-set p.objects x t short,
        stays (ap (λ k. elem k p.free_list) (sym same) ∙ listed),
      )
      | no other ↦
          let (u, found, idle) = v.idle y listed in
          (u, get_elem?-set_other p.objects x y t other ∙ found, idle)
    ];
    distinct = v.distinct;
  }
