-- ===== src/Trie/History.antt =====
-- core/utils/trie.h: lookups after any history of insertions.
use nfv.Base.{
  ℕ, ◌≡◌, ◌≢◌, refl, sym, ap, ◌∙◌, Bool, true, false, ◌||◌, Option, none, some, if◌then◌else◌, List,
  [], ◌∷◌, fun_ext,
}
use nfv.Trie.{Node, null, node, new_node, insert, lookup, lookup_from, match_key}
use nfv.Trie.Entries.{
  same_key, entry, IsTrie, empty, inner, longest, lookup_from-longest, insert-IsTrie, entry-insert,
  is_null, is_null-insert, entry-new_node,
}

-- A call of Insert.
pub record Insertion (A : Type 0) : Type 0 where
  pub key : List ℕ
  pub value : A
  pub is_prefix : Bool

abbrev pub is_some : {A : Type 0} → Option A → Bool
is_some none = false
is_some (some _) = true

or_true : (b : Bool) → (b || true) ≡ true
or_true true = refl
or_true false = refl

or_false : (b : Bool) → (b || false) ≡ b
or_false true = refl
or_false false = refl

module _ {A : Type 0} where
  -- What the newest insertion of a key has put there; the newest one stands first.
  pub newest : List (Insertion A) → List ℕ → Option (A × Bool)
  newest [] key = none
  newest (i ∷ history) key =
      let rest = newest history key in
      if same_key i.key key then some (i.value, i.is_prefix) else rest

  -- Match and Lookup agree.
  match_key-lookup_from :
      (key : List ℕ) (n : Node A) (best : Option A)
      → is_some (lookup_from key n best) ≡ match_key key n || is_some best
  unfolding lookup_from match_key
  match_key-lookup_from [] null best = refl
  match_key-lookup_from (c ∷ key) null best = refl
  match_key-lookup_from [] (node true true val children) best = refl
  match_key-lookup_from [] (node true false val children) best = refl
  match_key-lookup_from [] (node false true val children) best = refl
  match_key-lookup_from [] (node false false val children) best = refl
  match_key-lookup_from (c ∷ key) (node leaf true val children) best =
      match_key-lookup_from key (children c) (some val) ∙ or_true (match_key key (children c))
  match_key-lookup_from (c ∷ key) (node leaf false val children) best =
      match_key-lookup_from key (children c) best

  -- Match is true exactly for the keys that Lookup finds, in every trie.
  pub match_key-lookup : (key : List ℕ) (n : Node A) → match_key key n ≡ is_some (lookup key n)
  unfolding lookup
  match_key-lookup key n = sym (match_key-lookup_from key n none ∙ or_false (match_key key n))

  module _ (default : A) where
    -- The trie after the insertions.
    unfoldable pub build : List (Insertion A) → Node A
    build [] = new_node default
    build (i ∷ history) = insert default i.key i.value i.is_prefix (build history)

    build-IsTrie : (history : List (Insertion A)) → IsTrie (build history)
    unfolding build
    build-IsTrie [] = inner (λ h. absurd cc) (λ _. empty)
    build-IsTrie (i ∷ history) =
        insert-IsTrie default i.key i.value i.is_prefix (build-IsTrie history)

    is_null-build : (history : List (Insertion A)) → is_null (build history) ≡ false
    unfolding build
    is_null-build [] = refl
    is_null-build (i ∷ history) =
        is_null-insert default i.key i.value i.is_prefix (build history) ∙ is_null-build history

    build_some : (history : List (Insertion A)) → build history ≢ null
    build_some history e = let no = is_null-build history in let yes = ap is_null e in cc

    entry-build :
        (history : List (Insertion A)) (key : List ℕ)
        → entry (build history) key ≡ newest history key
    unfolding build newest
    entry-build [] key = entry-new_node default key
    entry-build (i ∷ history) key =
        entry-insert default i.key i.value i.is_prefix (build history) key (build_some history)
        ∙ ap (λ x. if same_key i.key key then some (i.value, i.is_prefix) else x)
            (entry-build history key)

    -- After any sequence of Insert calls, Lookup of a key gives the value of the newest insertion
    -- of the key itself, or else that of the longest beginning of the key whose newest insertion
    -- has the prefix flag, or else nothing.
    pub lookup-build :
        (history : List (Insertion A)) (key : List ℕ)
        → lookup key (build history) ≡ longest (newest history) key none
    unfolding lookup
    lookup-build history key =
        lookup_from-longest key (build history) none (build-IsTrie history)
        ∙ ap (λ entries. longest entries key none) (fun_ext (entry-build history))
