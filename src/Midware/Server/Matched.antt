-- ===== src/Midware/Server/Matched.antt =====
-- The sessions and the connections of EasyBaseServer (midware/src/easy_baseserver.cpp) know each
-- other: what the calls of its commands keep of this.
use lib_fantuan.Prelude.{
  ℕ, ◌≡◌, ◌≢◌, sym, ap, subst, ◌∙◌, inl, inr, Option, none, some, List, arith, get_elem?, set,
  ℕ_discrete, get_elem?-lt, get_elem?-set, get_elem?-set_other, get_elem?-set_inv,
}
use lib_fantuan.Common.EasyPool.{EasyPool}
use lib_fantuan.Common.EasyPool.Laws.{Allocated}
use lib_fantuan.Midware.Session.{Session}
use lib_fantuan.Midware.Server.{with_client}

abbrev pub Unconnected : Session → Type 0
Unconnected s = s.connection ≡ none

-- The client of a connection is the session that holds that connection, and the other way round.
pub record Matched (objects : List Session) (clients : ℕ → Option (Option ℕ)) : Type 0 where
  pub owned :
      (conn x : ℕ)
      → clients conn ≡ some (some x)
      → (t : Session) × (get_elem? objects x ≡ some t) × (t.connection ≡ some conn)
  pub backed :
      (x : ℕ) (t : Session) (conn : ℕ)
      → get_elem? objects x ≡ some t
      → t.connection ≡ some conn
      → clients conn ≡ some (some x)

module _ (clients : ℕ → Option (Option ℕ)) (conn : ℕ) (to : Option (Option ℕ)) where
  pub with_client_same : with_client clients conn to conn ≡ to
  with_client_same = ground arith

  pub with_client_other : (k : ℕ) → k ≢ conn → with_client clients conn to k ≡ clients k
  with_client_other k h = ground (arith, h)

module _ {objects : List Session} {clients : ℕ → Option (Option ℕ)}
    (m : Matched objects clients) where
  -- Two connections do not have the same session.
  pub one_owner : (c d x : ℕ) → clients c ≡ some (some x) → clients d ≡ some (some x) → c ≡ d
  one_owner c d x hc hd =
      let (t, found, conn) = m.owned c x hc in
      let (u, found', conn') = m.owned d x hd in
      let same : t ≡ u = cc in
      let last : some c ≡ some d = sym conn ∙ (ap (λ s. s.connection) same ∙ conn') in cc

  pub match_accept :
      (conn : ℕ) → clients conn ≡ none → Matched objects (with_client clients conn (some none))
  match_accept conn new = record {
    owned = λ c x e. elim (ℕ_discrete c conn) [
      | yes same ↦
          let here : some none ≡ some (some x) =
            sym (with_client_same clients conn (some none))
            ∙ subst (λ k. with_client clients conn (some none) k ≡ some (some x)) same e in
          absurd (cc)
      | no other ↦ m.owned c x (sym (with_client_other clients conn (some none) c other) ∙ e)
    ];
    backed = λ x t c found conn_c.
        let old = m.backed x t c found conn_c in
        with_client_other clients conn (some none) c (λ same.
          let there : clients conn ≡ some (some x) =
            subst (λ k. clients k ≡ some (some x)) same old in
          cc)
        ∙ old;
  }

  pub match_change :
      (x : ℕ) {t : Session} (u : Session)
      → get_elem? objects x ≡ some t
      → u.connection ≡ t.connection
      → Matched (set objects x u) clients
  match_change x {t} u found same_conn = record {
    owned = λ c y e.
        let (v, found', conn) = m.owned c y e in
        elim (ℕ_discrete y x) [
          | yes same ↦
              let there : get_elem? objects x ≡ some v =
                subst (λ k. get_elem? objects k ≡ some v) same found' in
              let equal : t ≡ v = cc in
              (
                u,
                ap (get_elem? (set objects x u)) same
                    ∙ get_elem?-set objects x u (get_elem?-lt objects x found),
                same_conn ∙ (ap (λ s. s.connection) equal ∙ conn),
              )
          | no other ↦ (v, get_elem?-set_other objects x y u other ∙ found', conn)
        ];
    backed = λ y v c found' conn.
        elim (get_elem?-set_inv objects x y u (get_elem?-lt objects x found) found') [
          | inl (same, new) ↦
              ap (λ k. clients c) same
              ∙ (m.backed x t c found (sym same_conn ∙ (ap (λ s. s.connection) new ∙ conn))
                  ∙ ap (λ k. some (some k)) (sym same))
          | inr (other, old) ↦ m.backed y v c old conn
        ];
  }

  pub match_connect :
      (x conn : ℕ) {t : Session} (u : Session)
      → get_elem? objects x ≡ some t
      → Unconnected t
      → clients conn ≡ some none
      → u.connection ≡ some conn
      → Matched (set objects x u) (with_client clients conn (some (some x)))
  match_connect x conn {t} u found idle live new_conn =
      let short = get_elem?-lt objects x found in
      record {
        owned = λ c y e. elim (ℕ_discrete c conn) [
          | yes same ↦
              let here : some (some x) ≡ some (some y) =
                sym (with_client_same clients conn (some (some x)))
                ∙ subst (λ k. with_client clients conn (some (some x)) k ≡ some (some y)) same e in
              let at : y ≡ x = cc in
              (
                u,
                ap (get_elem? (set objects x u)) at ∙ get_elem?-set objects x u short,
                new_conn ∙ ap some (sym same),
              )
          | no other ↦
              let (v, found', conn') =
                m.owned c y (sym (with_client_other clients conn (some (some x)) c other) ∙ e) in
              (
                v,
                get_elem?-set_other objects x y u (λ same.
                      let there : get_elem? objects x ≡ some v =
                        subst (λ k. get_elem? objects k ≡ some v) same found' in
                      let equal : t ≡ v = cc in
                      let bad : none ≡ some c = sym idle ∙ (ap (λ s. s.connection) equal ∙ conn') in
                      cc)
                    ∙ found',
                conn',
              )
        ];
        backed = λ y v c found' conn'. elim (get_elem?-set_inv objects x y u short found') [
          | inl (same, new) ↦
              let eq : some conn ≡ some c = sym new_conn ∙ (ap (λ s. s.connection) new ∙ conn') in
              let at : c ≡ conn = cc in
              ap (with_client clients conn (some (some x))) at
              ∙ (with_client_same clients conn (some (some x)) ∙ ap (λ k. some (some k)) (sym same))
          | inr (other, old) ↦
              let before = m.backed y v c old conn' in
              with_client_other clients conn (some (some x)) c (λ same.
                let there : clients conn ≡ some (some y) =
                  subst (λ k. clients k ≡ some (some y)) same before in
                cc)
              ∙ before
        ];
      }

  pub match_disconnect :
      (x conn : ℕ) (u : Session)
      → clients conn ≡ some (some x)
      → Unconnected u
      → Matched (set objects x u) (with_client clients conn none)
  match_disconnect x conn u live idle =
      let (t, found, held) = m.owned conn x live in
      let short = get_elem?-lt objects x found in
      record {
        owned = λ c y e. elim (ℕ_discrete c conn) [
          | yes same ↦
              let here : none ≡ some (some y) =
                sym (with_client_same clients conn none)
                ∙ subst (λ k. with_client clients conn none k ≡ some (some y)) same e in
              absurd (cc)
          | no other ↦
              let live' : clients c ≡ some (some y) =
                sym (with_client_other clients conn none c other) ∙ e in
              let (v, found', conn') = m.owned c y live' in
              (
                v,
                get_elem?-set_other objects x y u (λ same.
                      other (one_owner c conn x (live' ∙ ap (λ k. some (some k)) same) live))
                    ∙ found',
                conn',
              )
        ];
        backed = λ y v c found' conn'. elim (get_elem?-set_inv objects x y u short found') [
          | inl (same, new) ↦
              let bad : none ≡ some c = sym idle ∙ (ap (λ s. s.connection) new ∙ conn') in
              absurd (cc)
          | inr (other, old) ↦
              let before = m.backed y v c old conn' in
              with_client_other clients conn none c (λ same.
                let there : clients conn ≡ some (some y) =
                  subst (λ k. clients k ≡ some (some y)) same before in
                let twice : some (some y) ≡ some (some x) = sym there ∙ live in other (cc))
              ∙ before
        ];
      }

-- The objects of a pool after Allocate.
pub match-Allocated :
    {p q : EasyPool Session} {x : ℕ} {clients : ℕ → Option (Option ℕ)}
    → Allocated Unconnected p q x
    → Matched p.objects clients
    → Matched q.objects clients
match-Allocated {p} {q} {x} {clients} a m = record {
  owned = λ c y e. let (t, found, conn) = m.owned c y e in (t, a.keeps y t found, conn);
  backed = λ y t c found conn.
      m.backed y t c
        (a.only y t
          (λ same.
            let (u, found', idle) = a.found in
            let there : get_elem? q.objects x ≡ some t =
              subst (λ k. get_elem? q.objects k ≡ some t) same found in
            let equal : u ≡ t = cc in
            let bad : none ≡ some c = sym idle ∙ (ap (λ s. s.connection) equal ∙ conn) in cc)
          found)
        conn;
}
