-- ===== src/Queue/Bag.antt =====
-- The queue as a bag of messages: a message is a friend number with its bytes, and the bag is given
-- by the sum of any weight over the stored messages.
use tox_relayer.Prelude.{
  total, ℕ, zero, suc, ◌+◌, ◌≤◌, ◌≡◌, refl, ap, List, [], ◌∷◌, ◌++◌, arith, if◌then◌else◌, not,
  length, take, drop,
}
use tox_relayer.Prelude.Int.{ℤ}
use tox_relayer.Queue.{Config, Entry, is_free, filled, Queue}

abbrev pub Weight : Type 0
Weight = ℤ → List ℕ → ℕ

-- The bytes of an entry, as the transport and the visitor get them.
abbrev pub bytes : Entry → List ℕ
bytes e = take e.len e.payload

abbrev pub weight : Weight → Entry → ℕ
weight f e = if not (is_free e.state) then f e.friendnum (bytes e) else 0

abbrev pub bag : Weight → List Entry → ℕ
bag f ring = total (weight f) ring

-- Two queues that hold the same messages, each as often.
abbrev pub SameBag : Queue → Queue → Type 0
SameBag q q' = (f : Weight) → bag f q'.ring ≡ bag f q.ring

-- `q'` holds the messages of `q` and one more.
abbrev pub Added : Queue → Queue → ℤ → List ℕ → Type 0
Added q q' friendnum payload = (f : Weight) → bag f q'.ring ≡ bag f q.ring + f friendnum payload

take-take : (n : ℕ) (xs ys : List ℕ) → n ≤ length xs → take n (take n xs ++ ys) ≡ take n xs
take-take zero xs ys h = refl
take-take (suc n) [] ys h = absurd (omega arith)
take-take (suc n) (x ∷ xs) ys h = ap (◌∷◌ x) (take-take n xs ys (omega arith))

module _ (c : Config) where
  -- The stored bytes are the caller's.
  pub bytes-filled :
      (old : Entry) (friendnum : ℤ) (payload : List ℕ) (len : ℕ) (now : ℤ)
      → len ≤ length payload
      → bytes (filled c old friendnum payload len now) ≡ take len payload
  unfolding filled
  bytes-filled old friendnum payload len now h =
      take-take len payload (0 ∷ drop (len + 1) old.payload) h
