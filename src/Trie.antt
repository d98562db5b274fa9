-- ===== src/Trie.antt =====
-- core/utils/trie.h: the trie with prefix lookups. Keys are lists of characters, which are numbers
-- below 128: the code indexes an array of 256 with a `char`, which is negative from 128 on.
pub mod Entries
pub mod History
mod Examples
use nfv.Base.{
  ℕ, Bool, true, false, Option, none, some, if◌then◌else◌, Memory, update, List, [], ◌∷◌, ◌||◌,
}

-- A pointer to a node: `null` is the null pointer.
pub data Node (A : Type 0) : Type 0 where
  null : Node A
  node : Bool → Bool → A → (ℕ → Node A) → Node A

module _ {A : Type 0} (default : A) where
  -- `new Node()`
  abbrev pub new_node : Node A
  new_node = node false false default (λ _. null)

  -- `if (children[idx] == nullptr) children[idx].reset(new Node());`
  abbrev pub created : Node A → Node A
  created null = new_node
  created (node leaf prefix val children) = node leaf prefix val children

  -- Insert, below the root; a null root does not occur.
  pub insert : List ℕ → A → Bool → Node A → Node A
  insert [] value is_prefix null = null
  insert [] value is_prefix (node leaf prefix val children) = node true is_prefix value children
  insert (c ∷ key) value is_prefix null = null
  insert (c ∷ key) value is_prefix (node leaf prefix val children) =
      node leaf prefix val (update children c (insert key value is_prefix (created (children c))))

module _ {A : Type 0} where
  pub match_key : List ℕ → Node A → Bool
  match_key key null = false
  match_key [] (node leaf prefix val children) = if prefix then true else leaf
  match_key (c ∷ key) (node leaf prefix val children) =
      let rest = match_key key (children c) in if prefix then true else rest

  pub match_prefix : List ℕ → Node A → Bool
  match_prefix key null = false
  match_prefix [] (node leaf prefix val children) = true
  match_prefix (c ∷ key) (node leaf prefix val children) =
      let rest = match_prefix key (children c) in if prefix then true else rest

  -- Lookup, with the value of `prefix_match` so far; `none` is a pair with false.
  pub lookup_from : List ℕ → Node A → Option A → Option A
  lookup_from key null prefix_match = prefix_match
  lookup_from [] (node leaf prefix val children) prefix_match =
      if leaf then some val else if prefix then some val else prefix_match
  lookup_from (c ∷ key) (node leaf prefix val children) prefix_match =
      lookup_from key (children c) (if prefix then some val else prefix_match)

  pub lookup : List ℕ → Node A → Option A
  lookup key root = lookup_from key root none
