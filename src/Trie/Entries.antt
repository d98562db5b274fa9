-- ===== src/Trie/Entries.antt =====
-- core/utils/trie.h: the trie as a map from keys to values with a prefix flag.
use nfv.Base.{
  ℕ, ◌≡◌, ◌≢◌, refl, sym, ap, ◌∙◌, Bool, true, false, Option, none, some, if◌then◌else◌, List, [],
  ◌∷◌, ◌==◌, arith, ==→eq, if_split,
}
use nfv.Trie.{Node, null, node, new_node, created, insert, lookup_from}

abbrev pub same_key : List ℕ → List ℕ → Bool
same_key [] [] = true
same_key [] (_ ∷ _) = false
same_key (_ ∷ _) [] = false
same_key (c ∷ key) (d ∷ other) = let rest = same_key key other in if c == d then rest else false

==_comm : (a b : ℕ) → (a == b) ≡ (b == a)
==_comm a b = ground arith

module _ {A : Type 0} where
  -- What the trie has for a key: the value, and whether it is for all keys that begin so.
  pub entry : Node A → List ℕ → Option (A × Bool)
  entry null key = none
  entry (node leaf prefix val children) [] = if leaf then some (val, prefix) else none
  entry (node leaf prefix val children) (c ∷ key) = entry (children c) key

  -- Only leaves have the prefix flag.
  pub data IsTrie : Node A → Type 0 where
    empty : IsTrie null
    inner :
        {leaf prefix : Bool} {val : A} {children : ℕ → Node A}
        → (prefix ≡ true → leaf ≡ true)
        → ((c : ℕ) → IsTrie (children c))
        → IsTrie (node leaf prefix val children)

  -- The value for a key under the longest-match rule: the key's own, or else that of the longest
  -- key with the prefix flag which it begins with.
  pub longest : (List ℕ → Option (A × Bool)) → List ℕ → Option A → Option A
  longest entries [] best = elim (entries []) [ none ↦ best | some e ↦ some e.0 ]
  longest entries (c ∷ key) best =
      longest (λ rest. entries (c ∷ rest)) key
        (elim (entries []) [ none ↦ best | some e ↦ if e.1 then some e.0 else best ])

  pub lookup_from-longest :
      (key : List ℕ) (n : Node A) (best : Option A)
      → IsTrie n
      → lookup_from key n best ≡ longest (entry n) key best
  unfolding lookup_from longest entry
  lookup_from-longest [] null best v = refl
  lookup_from-longest (c ∷ key) null best v = lookup_from-longest key null best v
  lookup_from-longest [] (node true prefix val children) best v = refl
  lookup_from-longest [] (node false true val children) best (inner h v) =
      absurd (let e = h refl in cc)
  lookup_from-longest [] (node false false val children) best v = refl
  lookup_from-longest (c ∷ key) (node true prefix val children) best (inner h v) =
      lookup_from-longest key (children c) _ (v c)
  lookup_from-longest (c ∷ key) (node false true val children) best (inner h v) =
      absurd (let e = h refl in cc)
  lookup_from-longest (c ∷ key) (node false false val children) best (inner h v) =
      lookup_from-longest key (children c) best (v c)

  abbrev pub is_null : Node A → Bool
  is_null null = true
  is_null (node _ _ _ _) = false

  -- The entry below a child that is replaced or kept.
  in_child :
      (same : Bool) (new old : Node A) (other : List ℕ) (value : Option (A × Bool)) (b b' : Bool)
      → b ≡ b'
      → (b ≡ true → entry new other ≡ (if same then value else entry old other))
      → entry (if b then new else old) other
        ≡ (if (if b' then same else false) then value else entry old other)
  in_child same new old other value true true e h = h refl
  in_child same new old other value false false e h = refl
  in_child same new old other value true false e h = absurd cc
  in_child same new old other value false true e h = absurd cc

  module _ (default : A) where
    created-IsTrie : {n : Node A} → IsTrie n → IsTrie (created default n)
    created-IsTrie empty = inner (λ h. absurd cc) (λ _. empty)
    created-IsTrie (inner h v) = inner h v

    pub insert-IsTrie :
        (key : List ℕ) (value : A) (is_prefix : Bool) {n : Node A}
        → IsTrie n
        → IsTrie (insert default key value is_prefix n)
    unfolding insert
    insert-IsTrie [] value is_prefix empty = empty
    insert-IsTrie [] value is_prefix (inner h v) = inner (λ _. refl) v
    insert-IsTrie (c ∷ key) value is_prefix empty = empty
    insert-IsTrie (c ∷ key) value is_prefix (inner {children = children} h v) = inner h (λ d.
        if_split IsTrie (d == c) (λ _. insert-IsTrie key value is_prefix (created-IsTrie (v c)))
          (λ _. v d))

    entry-created : (n : Node A) (key : List ℕ) → entry (created default n) key ≡ entry n key
    unfolding entry
    entry-created null [] = refl
    entry-created null (c ∷ key) = refl
    entry-created (node leaf prefix val children) key = refl

    pub created_some : (n : Node A) → created default n ≢ null
    created_some null e = let q = ap is_null e in cc
    created_some (node leaf prefix val children) e = let q = ap is_null e in cc

    pub entry-new_node : (key : List ℕ) → entry (new_node default) key ≡ none
    unfolding entry
    entry-new_node [] = refl
    entry-new_node (c ∷ key) = refl

    pub is_null-insert :
        (key : List ℕ) (value : A) (is_prefix : Bool) (n : Node A)
        → is_null (insert default key value is_prefix n) ≡ is_null n
    unfolding insert
    is_null-insert [] value is_prefix null = refl
    is_null-insert (c ∷ key) value is_prefix null = refl
    is_null-insert [] value is_prefix (node leaf prefix val children) = refl
    is_null-insert (c ∷ key) value is_prefix (node leaf prefix val children) = refl

    -- Inserting changes the entry of its key, and no other.
    pub entry-insert :
        (key : List ℕ) (value : A) (is_prefix : Bool) (n : Node A) (other : List ℕ)
        → n ≢ null
        → entry (insert default key value is_prefix n) other
          ≡ (if same_key key other then some (value, is_prefix) else entry n other)
    unfolding entry insert
    entry-insert key value is_prefix null other some_node = absurd (some_node refl)
    entry-insert [] value is_prefix (node leaf prefix val children) [] some_node = refl
    entry-insert [] value is_prefix (node leaf prefix val children) (d ∷ other) some_node = refl
    entry-insert (c ∷ key) value is_prefix (node leaf prefix val children) [] some_node = refl
    entry-insert (c ∷ key) value is_prefix (node leaf prefix val children) (d ∷ other) some_node =
        in_child (same_key key other) _ (children d) other (some (value, is_prefix)) (d == c)
          (c == d) (==_comm d c)
          (λ h.
            entry-insert key value is_prefix (created default (children c)) other
              (created_some (children c))
            ∙ ap (λ x. if same_key key other then some (value, is_prefix) else x)
                (entry-created (children c) other
                  ∙ ap (λ x. entry (children x) other) (sym (==→eq d c h))))
