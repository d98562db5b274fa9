-- ===== src/Trie/Examples.antt =====
-- Theorems on the trie of core/utils/trie.h at a concrete history.
use nfv.Base.{ℕ, ◌≡◌, refl, true, false, some, none, List, [], ◌∷◌}
use nfv.Trie.{lookup, match_key, insert, lookup_from}
use nfv.Trie.Entries.{longest}
use nfv.Trie.History.{Insertion, newest, build, is_some, lookup-build, match_key-lookup}

-- "ab" is 1 and "a", for all that begin so, is 2.
abbrev history : List (Insertion ℕ)
history =
    record { key = 97 ∷ 98 ∷ []; value = 1; is_prefix = false }
    ∷ record { key = 97 ∷ []; value = 2; is_prefix = true }
    ∷ []

lookup-build_example :
    lookup (97 ∷ 99 ∷ []) (build 0 history) ≡ longest (newest history) (97 ∷ 99 ∷ []) none
lookup-build_example = lookup-build 0 history (97 ∷ 99 ∷ [])

-- "ac" has the value of "a".
ac_is_two : lookup (97 ∷ 99 ∷ []) (build 0 history) ≡ some 2
unfolding lookup lookup_from build insert
ac_is_two = refl

match_key-lookup_example :
    match_key (97 ∷ 99 ∷ []) (build 0 history) ≡ is_some (lookup (97 ∷ 99 ∷ []) (build 0 history))
match_key-lookup_example = match_key-lookup (97 ∷ 99 ∷ []) (build 0 history)
