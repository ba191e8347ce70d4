-- ===== src/Friends/Lookup.antt =====
-- What `lookup_ch_num` finds.
use tox_relayer.Prelude.{
  ℕ, zero, suc, ◌≡◌, refl, true, false, some, List, [], ◌∷◌, arith, if-elim, get_elem?, ap, ◌∙◌,
  some_inj,
}
use tox_relayer.Prelude.Int.{pos, ltb_ℤ}
use tox_relayer.Friends.{Contact, is_prefix, occurs, lookup_from, lookup_ch_num}

-- The empty text occurs in every text.
occurs-nil : (s : List ℕ) → occurs [] s ≡ true
unfolding occurs is_prefix
occurs-nil [] = refl
occurs-nil (c ∷ cs) = refl

-- An entry without a key ends the search: the answer is its index or a smaller one.
lookup_from-unset :
    (i k : ℕ) (cs : List Contact) (c : Contact) (key : List ℕ)
    → get_elem? cs k ≡ some c
    → c.public_key_str ≡ []
    → ltb_ℤ (lookup_from i cs key) (pos 0) ≡ false
unfolding lookup_from
lookup_from-unset i k [] c key h e = absurd (ground (arith, h))
lookup_from-unset i zero (x ∷ cs) c key h e =
    if-elim (λ r. ltb_ℤ r (pos 0) ≡ false) (occurs x.public_key_str key) (λ _. ground arith)
      (λ n. absurd (
        ground (
          arith,
          n,
          ap (λ s. occurs s key) (ap (λ (y : Contact). y.public_key_str) (some_inj x c h) ∙ e)
              ∙ occurs-nil key,
        )))
lookup_from-unset i (suc k) (x ∷ cs) c key h e =
    let rest = lookup_from-unset (suc i) k cs c key h e in
    if-elim (λ r. ltb_ℤ r (pos 0) ≡ false) (occurs x.public_key_str key) (λ _. ground arith)
      (λ _. rest)

-- While an entry of the table has no key, every text finds a friend: the answer is never -1.
pub lookup_ch_num-unset :
    (cs : List Contact) (k : ℕ) (c : Contact) (key : List ℕ)
    → get_elem? cs k ≡ some c
    → c.public_key_str ≡ []
    → ltb_ℤ (lookup_ch_num cs key) (pos 0) ≡ false
unfolding lookup_ch_num
lookup_ch_num-unset cs k c key h e = lookup_from-unset 0 k cs c key h e
