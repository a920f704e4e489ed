-- ===== src/Stores/Addresses/Seen.antt =====
-- blockchain_cluster/internal/address/store.go: what `Upsert` keeps of an address, and when it changes
-- nothing.
use blockchain_clustering.Base.{
  ◌≡◌, refl, ap, ◌∙◌, sym, subst, inl, inr, String, Bool, true, false, List, Option, none, some,
  any, any_iff, Bool-cases, Memᴰ, Memᴰ-concat, mem-update_where, update_where, ==_iff, string_eq,
  arith, ◌==◌, ◌&&◌, if◌then◌else◌,
}
use blockchain_clustering.Base.Int.{ℤ, ltb_ℤ, ◌≤ℤ◌}
use blockchain_clustering.Base.Keyed.{any-added, any-kept, any-update_where, update_where_fixed}
use blockchain_clustering.Domain.{Address}
use blockchain_clustering.Stores.Addresses.{at_key, bump_last_seen, upsert_row}

both_true : (p q : Bool) → (p && q) ≡ true → (p ≡ true) × (q ≡ true)
both_true true q h = (refl, h)
both_true false q h = absurd (cc h)

module _ {F : Type 0} where
  abbrev SeenAt : ℤ → Address F → Type 0
  SeenAt h r = (l : ℤ) × (r.last_seen_height ≡ some l) × (h ≤ℤ l)

  -- The address is registered, and was last seen no earlier than at the height.
  pub record Seen (chain_id addr : String) (h : ℤ) (rows : List (Address F)) : Type 0 where
    pub registered : any (at_key chain_id addr) rows ≡ true
    pub last : (r : Address F) → Memᴰ r rows → at_key chain_id addr r ≡ true → SeenAt h r

  bump_last_seen-SeenAt : (h : ℤ) (r : Address F) → SeenAt h (bump_last_seen h r)
  bump_last_seen-SeenAt h r =
      elim (r.last_seen_height)
        as (λ o. SeenAt h (record r {
          last_seen_height = elim o as (λ _. Option ℤ) [
            | none ↦ some h
            | some l ↦ (if ltb_ℤ l h then some h else some l)
          ];
        })) [
          | none ↦ (h, refl, omega arith)
          | some l ↦ elim (Bool-cases (ltb_ℤ l h)) [
            | inl later ↦ rw later (h, refl, omega arith)
            | inr earlier ↦ rw earlier (l, refl, ground arith)
          ]
        ]

  SeenAt-bump_last_seen : (h k : ℤ) (r : Address F) → SeenAt k r → SeenAt k (bump_last_seen h r)
  SeenAt-bump_last_seen h k r (l, is, le) = elim (Bool-cases (ltb_ℤ l h)) [
    | inl later ↦ rw (is, later) (h, refl, ground arith)
    | inr earlier ↦ rw (is, earlier) (l, refl, le)
  ]

  bump_last_seen_same : (h : ℤ) (r : Address F) → SeenAt h r → bump_last_seen h r ≡ r
  bump_last_seen_same h r (l, is, le) = elim (Bool-cases (ltb_ℤ l h)) [
    | inl later ↦ absurd (ground arith)
    | inr earlier ↦ ap (λ (o : Option ℤ). record r { last_seen_height = o }) (rw (is, earlier) refl)
  ]

  same_key :
      (c a d b : String) (r : Address F)
      → r.chain_id ≡ d
      → r.address ≡ b
      → at_key c a r ≡ true
      → (d ≡ c) × (b ≡ a)
  same_key c a d b r chain addr h =
      let (is_c, is_a) = both_true (r.chain_id == c) (r.address == a) h in
      (sym chain ∙ (==_iff r.chain_id c).0 is_c, sym addr ∙ (==_iff r.address a).0 is_a)

  -- After an update of the rows of an address, of whatever address is asked.
  update-Seen :
      (c a : String) (k h : ℤ) (d b : String) (rows : List (Address F))
      → Seen c a k rows
      → Seen c a k (update_where (at_key d b) (bump_last_seen h) rows)
  update-Seen c a k h d b rows s = record {
    registered =
        any-update_where (at_key c a) (at_key d b) (bump_last_seen h) rows (λ r. refl)
        ∙ s.registered;
    last = λ r m.
        let (x, at, is) = mem-update_where (at_key d b) (bump_last_seen h) r rows m in
        elim (Bool-cases (at_key d b x)) [
          | inl hit ↦
              let e : r ≡ bump_last_seen h x = is ∙ rw hit refl in
              λ key.
                subst (SeenAt k) (sym e)
                  (SeenAt-bump_last_seen h k x (s.last x at (sym (ap (at_key c a) e) ∙ key)))
          | inr missed ↦
              let e : r ≡ x = is ∙ rw missed refl in
              λ key. subst (SeenAt k) (sym e) (s.last x at (sym (ap (at_key c a) e) ∙ key))
        ];
  }

  -- `Upsert` keeps what was seen.
  pub Seen-upsert_row :
      (c a : String) (k : ℤ) (d b : String) (h : ℤ) (rows : List (Address F))
      → Seen c a k rows
      → Seen c a k (upsert_row d b h rows)
  unfolding upsert_row
  Seen-upsert_row c a k d b h rows s = elim (Bool-cases (any (at_key d b) rows)) [
    | inl known ↦ rw (known, upsert_row) (update-Seen c a k h d b rows s)
    | inr unknown ↦
        rw (unknown, upsert_row)
          (record {
            registered = any-kept (at_key c a) rows _ s.registered;
            last = λ r m key. elim ((Memᴰ-concat _ _ rows).0 m) [
              | inl old ↦ s.last r old key
              | inr new ↦
                  let (chain, addr) =
                    same_key c a d b r (ap (λ (x : Address F). x.chain_id) new)
                      (ap (λ (x : Address F). x.address) new) key in
                  absurd (cc (unknown, s.registered, chain, addr))
            ];
          })
  ]

  -- `Upsert` has seen the address.
  pub upsert_row-Seen :
      (c a : String) (h : ℤ) (rows : List (Address F)) → Seen c a h (upsert_row c a h rows)
  unfolding upsert_row
  upsert_row-Seen c a h rows = elim (Bool-cases (any (at_key c a) rows)) [
    | inl known ↦
        rw (known, upsert_row)
          (record {
            registered =
                any-update_where (at_key c a) (at_key c a) (bump_last_seen h) rows (λ r. refl)
                ∙ known;
            last = λ r m.
                let (x, at, is) = mem-update_where (at_key c a) (bump_last_seen h) r rows m in
                elim (Bool-cases (at_key c a x)) [
                  | inl hit ↦
                      let e : r ≡ bump_last_seen h x = is ∙ rw hit refl in
                      λ _. subst (SeenAt h) (sym e) (bump_last_seen-SeenAt h x)
                  | inr missed ↦
                      let e : r ≡ x = is ∙ rw missed refl in
                      λ key. absurd (cc (missed, sym (ap (at_key c a) e) ∙ key))
                ];
          })
    | inr unknown ↦
        rw (unknown, upsert_row)
          (record {
            registered =
                any-added (at_key c a) rows _ (rw ((==_iff c c).1 refl, (==_iff a a).1 refl) refl);
            last = λ r m key. elim ((Memᴰ-concat _ _ rows).0 m) [
              | inl old ↦ absurd (cc (unknown, (any_iff (at_key c a) rows).1 (r, old, key)))
              | inr new ↦ subst (SeenAt h) (sym new) (h, refl, omega arith)
            ];
          })
  ]

  -- What was seen before changes nothing.
  pub upsert_row_again :
      (c a : String) (h : ℤ) (rows : List (Address F))
      → Seen c a h rows
      → upsert_row c a h rows ≡ rows
  unfolding upsert_row
  upsert_row_again c a h rows s =
      rw (s.registered, upsert_row)
        (update_where_fixed (at_key c a) (bump_last_seen h) rows
          (λ r m key. bump_last_seen_same h r (s.last r m key)))
