-- ===== src/Indexer/Cursors.antt =====
-- blockchain-indexer/internal/state/cursor.sql.go: the cursor of a chain, read and set.
use blockchain_clustering.Base.{
  ◌≡◌, refl, inl, inr, String, Bool, true, false, List, [], ◌∷◌, ◌++◌, Option, none, some, ◌==◌,
  ==_iff, string_eq, any, update_where, Bool-cases, find_first, arith,
}
use blockchain_clustering.Base.Int.{ℤ, int_eq}
use blockchain_clustering.Indexer.{Cursor, World, set_cursor}

abbrev on_chain : String → Cursor → Bool
on_chain chain_id c = c.chain_id == chain_id

abbrev pub cursor_of : String → World → Option ℤ
cursor_of chain_id w = elim (find_first (on_chain chain_id) w.cursor) [
  | none ↦ none
  | some c ↦ some c.height
]

find-update :
    (chain_id : String) (h : ℤ) (cs : List Cursor)
    → any (on_chain chain_id) cs ≡ true
    → elim (find_first
          (on_chain chain_id)
          (update_where (on_chain chain_id) (λ c. record c { height = h }) cs))
        as (λ _. Option ℤ) [ none ↦ none | some c ↦ some c.height ]
      ≡ some h
find-update chain_id h [] e = absurd (cc e)
find-update chain_id h (c ∷ cs) e = elim (Bool-cases (c.chain_id == chain_id)) [
  | inl here ↦ rw (here, here) refl
  | inr there ↦ rw (there, there) (find-update chain_id h cs (ground (arith)))
]

find-append :
    (chain_id : String) (h : ℤ) (cs : List Cursor)
    → any (on_chain chain_id) cs ≡ false
    → elim (find_first (on_chain chain_id) (cs ++ record { chain_id = chain_id; height = h } ∷ []))
        as (λ _. Option ℤ) [ none ↦ none | some c ↦ some c.height ]
      ≡ some h
find-append chain_id h [] e = rw ((==_iff chain_id chain_id).1 refl) refl
find-append chain_id h (c ∷ cs) e = elim (Bool-cases (c.chain_id == chain_id)) [
  | inl here ↦ absurd (ground (arith))
  | inr there ↦ rw (there) (find-append chain_id h cs (ground (arith)))
]

-- The cursor of a chain is what it was last set to.
pub cursor-set_cursor :
    (chain_id : String) (h : ℤ) (w : World)
    → cursor_of chain_id (record w { cursor = set_cursor chain_id h w.cursor }) ≡ some h
cursor-set_cursor chain_id h w = elim (Bool-cases (any (on_chain chain_id) w.cursor)) [
  | inl there ↦ rw there (find-update chain_id h w.cursor there)
  | inr fresh ↦ rw fresh (find-append chain_id h w.cursor fresh)
]
