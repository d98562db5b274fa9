-- ===== src/L2Forward/Frame.antt =====
-- core/modules/l2_forward.cc: what lookups see of a change to one slot.
use nfv.Base.{
  ℕ, ◌≡◌, refl, sym, ap, ◌∙◌, ◌≢◌, Bool, true, false, ◌&&◌, Option, none, some, ◌==◌, Memory, subst,
  update, ==→eq, eq→==, ne→==,
}
use native.Mathlib.Decide.{ℕ_discrete}
use nfv.L2Forward.{
  Cpu, L2Entry, L2Table, holds, search, l2_find_offset, l2_ib_to_offset, index_1, index_2, find_any,
  or_else,
}
use nfv.L2Forward.Search.{Found, search-Found, search_congr}

pub update-at : (tbl : Memory L2Entry) (x y : ℕ) (e : L2Entry) → x ≡ y → update tbl x e y ≡ e
update-at tbl x y e h = rw (eq→== y x (sym h)) refl

pub update-off : (tbl : Memory L2Entry) (x y : ℕ) (e : L2Entry) → x ≢ y → update tbl x e y ≡ tbl y
update-off tbl x y e h = rw (ne→== y x (λ p. h (sym p))) refl

-- An entry in use holds one address.
pub holds_one : (e : L2Entry) (a b : ℕ) → holds e a ≡ true → a ≢ b → holds e b ≡ false
holds_one e a b h ne = from e.occupied e.addr h
  where
    from : (used : Bool) (c : ℕ) → (used && a == c) ≡ true → (used && b == c) ≡ false
    from true c h = ne→== b c (λ p. ne (==→eq a c h ∙ sym p))
    from false c h = refl

-- A property of all slots but one, and of the new entry, holds after the update.
pub update_all {ℓ} :
    (P : L2Entry → Type ℓ) (tbl : Memory L2Entry) (x y : ℕ) (e : L2Entry)
    → (x ≡ y → P e)
    → (x ≢ y → P (tbl y))
    → P (update tbl x e y)
update_all P tbl x y e new old = elim (ℕ_discrete x y) [
  | yes p ↦ subst P (sym (update-at tbl x y e p)) (new p)
  | no np ↦ subst P (sym (update-off tbl x y e np)) (old np)
]

module _ (cpu : Cpu) (t : L2Table) (a : ℕ) where
  -- A slot that `l2_find_offset` gives holds the address.
  pub l2_find_offset-holds : (y : ℕ) → l2_find_offset cpu t a ≡ some y → holds (t.table y) a ≡ true
  unfolding l2_find_offset
  l2_find_offset-holds y h =
      from (search t.bucket t.table a (l2_ib_to_offset t (index_1 cpu t a) 0))
        (search t.bucket t.table a (l2_ib_to_offset t (index_2 cpu t a) 0)) (search-Found a _ _ _)
        (search-Found a _ _ _) h
    where
      one :
          {o n : ℕ} (r : Option ℕ) → Found a t.table o n r → r ≡ some y → holds (t.table y) a ≡ true
      one _ (Found.at x low high h) e =
          subst (λ z. holds (t.table z) a ≡ true) {x = x} {y = y} (cc) h
      one _ (Found.nowhere rest) e = absurd cc

      from :
          {o n : ℕ} {p m : ℕ} (r s : Option ℕ)
          → Found a t.table o n r
          → Found a t.table p m s
          → or_else r s ≡ some y
          → holds (t.table y) a ≡ true
      from (some x) s f g e = one (some x) f e
      from none s f g e = one s g e

  module _ (x c : ℕ) (e : L2Entry) (before : holds (t.table x) a ≡ false)
      (after : holds e a ≡ false) where
    abbrev changed : L2Table
    changed = record t { table = update t.table x e; count = c }

    same_holds : (y : ℕ) → holds (update t.table x e y) a ≡ holds (t.table y) a
    same_holds y =
        update_all (λ d. holds d a ≡ holds (t.table y) a) t.table x y e
          (λ p. after ∙ sym before ∙ ap (λ z. holds (t.table z) a) p) (λ _. refl)

    -- The address is found at the same slot.
    pub l2_find_offset-changed : l2_find_offset cpu changed a ≡ l2_find_offset cpu t a
    unfolding l2_find_offset l2_ib_to_offset index_1 index_2
    l2_find_offset-changed =
        let primary =
          search_congr a t.bucket (update t.table x e) t.table
            (l2_ib_to_offset t (index_1 cpu t a) 0) same_holds in
        let alternate =
          search_congr a t.bucket (update t.table x e) t.table
            (l2_ib_to_offset t (index_2 cpu t a) 0) same_holds in
        either primary alternate
      where
        either : {r r' s s' : Option ℕ} → r ≡ r' → s ≡ s' → or_else r s ≡ or_else r' s'
        either {r' = r'} {s = s} p q =
            ap (λ (r : Option ℕ). or_else r s) p ∙ ap (λ (s : Option ℕ). or_else r' s) q

    -- The same gate is found.
    pub find_any-changed : find_any cpu changed a ≡ find_any cpu t a
    unfolding find_any
    find_any-changed = from (l2_find_offset cpu t a) refl l2_find_offset-changed
      where
        off : (y : ℕ) → x ≡ y → l2_find_offset cpu t a ≢ some y
        off y q o =
            let used : holds (t.table y) a ≡ true = l2_find_offset-holds y o in
            let unused : holds (t.table y) a ≡ false =
              subst (λ z. holds (t.table z) a ≡ false) q before in
            cc

        from :
            (o : Option ℕ)
            → l2_find_offset cpu t a ≡ o
            → l2_find_offset cpu changed a ≡ l2_find_offset cpu t a
            → find_any cpu changed a ≡ find_any cpu t a
        from none o p = rw (find_any, p ∙ o, o) refl
        from (some y) o p =
            rw (find_any, p ∙ o, o)
              (ap (λ d. some d.gate) (update-off t.table x y e (λ q. off y q o)))
