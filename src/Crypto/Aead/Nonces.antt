-- ===== src/Crypto/Aead/Nonces.antt =====
-- No nonce is used twice under one key.
use lrzip.Common.{
  ℕ, ◌+◌, ◌^◌, ◌≤◌, ◌<◌, ◌≡◌, ◌≢◌, refl, sym, ap, ◌∙◌, arith, List, [], ◌∷◌, length, drop, ◌==◌,
  Bool-cases, inl, inr, drop-append,
}
use lrzip.Common.Bytes.{from_le, from_le-le_bytes}
use lrzip.Crypto.Aead.{Keys, key_hdr_id, seq_of, count_nonce, aead_next_nonce}

-- The state that the nonces of records under the keys `ids` leave.
abbrev pub after_nonces : List ℕ → Keys → Keys
after_nonces [] ks = ks
after_nonces (id ∷ ids) ks = after_nonces ids (aead_next_nonce id ks).1

-- The same with the counters alone.
abbrev count_all : List ℕ → Keys → Keys
count_all [] ks = ks
count_all (id ∷ ids) ks = count_all ids (count_nonce id ks)

aead_next_nonce-count_nonce : (id : ℕ) (ks : Keys) → (aead_next_nonce id ks).1 ≡ count_nonce id ks
unfolding aead_next_nonce
aead_next_nonce-count_nonce id ks = refl

after_nonces-count_all : (ids : List ℕ) (ks : Keys) → after_nonces ids ks ≡ count_all ids ks
after_nonces-count_all [] ks = refl
after_nonces-count_all (id ∷ ids) ks =
    ap (after_nonces ids) (aead_next_nonce-count_nonce id ks)
    ∙ after_nonces-count_all ids (count_nonce id ks)

-- Counting one nonce moves a counter by at most one.
count_nonce-seq :
    (key_id id : ℕ) (ks : Keys)
    → seq_of key_id ks + 1 < 2 ^ 64
    → (seq_of key_id ks ≤ seq_of key_id (count_nonce id ks))
      × (seq_of key_id (count_nonce id ks) ≤ seq_of key_id ks + 1)
      × ((count_nonce id ks).nonce_prefix ≡ ks.nonce_prefix)
unfolding count_nonce
count_nonce-seq key_id id ks h = elim (Bool-cases (id == key_hdr_id)) [
  | inl e ↦ rw e (elim (Bool-cases (key_id == key_hdr_id)) [
    | inl g ↦ rw g (let k = rw g at h in (omega arith, omega arith, refl))
    | inr g ↦ rw g (omega arith, omega arith, refl)
  ])
  | inr e ↦ rw e (elim (Bool-cases (key_id == key_hdr_id)) [
    | inl g ↦ rw g (omega arith, omega arith, refl)
    | inr g ↦ rw g (let k = rw g at h in (omega arith, omega arith, refl))
  ])
]

-- The counter of the nonce's own key moves by one.
count_nonce-own :
    (key_id : ℕ) (ks : Keys)
    → seq_of key_id ks + 1 < 2 ^ 64
    → seq_of key_id (count_nonce key_id ks) ≡ seq_of key_id ks + 1
unfolding count_nonce
count_nonce-own key_id ks h = elim (Bool-cases (key_id == key_hdr_id)) [
  | inl g ↦ rw g (let k = rw g at h in omega arith)
  | inr g ↦ rw g (let k = rw g at h in omega arith)
]

count_all-seq :
    (key_id : ℕ) (ids : List ℕ) (ks : Keys)
    → seq_of key_id ks + length ids < 2 ^ 64
    → (seq_of key_id ks ≤ seq_of key_id (count_all ids ks))
      × (seq_of key_id (count_all ids ks) ≤ seq_of key_id ks + length ids)
      × ((count_all ids ks).nonce_prefix ≡ ks.nonce_prefix)
count_all-seq key_id [] ks h = (omega arith, omega arith, refl)
count_all-seq key_id (id ∷ ids) ks h =
    let (a, b, p) = count_nonce-seq key_id id ks (omega arith) in
    let (a', b', p') = count_all-seq key_id ids (count_nonce id ks) (omega arith) in
    (omega arith, omega arith, p' ∙ p)

-- The number can be read from a nonce.
nonce_seq :
    (key_id : ℕ) (ks : Keys)
    → seq_of key_id ks + 1 < 2 ^ 64
    → from_le (drop (length ks.nonce_prefix) (aead_next_nonce key_id ks).0) ≡ seq_of key_id ks + 1
unfolding aead_next_nonce
nonce_seq key_id ks h =
    ap from_le (drop-append (length ks.nonce_prefix) ks.nonce_prefix _ refl)
    ∙ from_le-le_bytes 8 _ (omega (arith, count_nonce-own key_id ks h))
    ∙ count_nonce-own key_id ks h

-- The theorem below, on the counters.
counted_fresh :
    (key_id : ℕ) (ids : List ℕ) (ks : Keys)
    → seq_of key_id ks + length ids + 2 < 2 ^ 64
    → (aead_next_nonce key_id (count_all ids (count_nonce key_id ks))).0
      ≢ (aead_next_nonce key_id ks).0
counted_fresh key_id ids ks h same =
    let own = count_nonce-own key_id ks (omega arith) in
    let (a, b, p) = count_all-seq key_id ids (count_nonce key_id ks) (omega arith) in
    let (a', b', p') = count_nonce-seq key_id key_id ks (omega arith) in
    let later = nonce_seq key_id (count_all ids (count_nonce key_id ks)) (omega arith) in
    let now = nonce_seq key_id ks (omega arith) in
    absurd (omega (arith, own, sym (rw (p ∙ p', same) at later) ∙ now))

-- After a nonce under a key and then the nonces of records under the keys `ids`, each taken in the
-- state that the one before left, the next nonce under that key is a different one, while the
-- counter stays below 2 ^ 64.
pub aead_next_nonce-fresh :
    (key_id : ℕ) (ids : List ℕ) (ks : Keys)
    → seq_of key_id ks + length ids + 2 < 2 ^ 64
    → (aead_next_nonce key_id (after_nonces ids (aead_next_nonce key_id ks).1)).0
      ≢ (aead_next_nonce key_id ks).0
aead_next_nonce-fresh key_id ids ks h same = counted_fresh key_id ids ks h (
    ap (λ t. (aead_next_nonce key_id t).0)
      (sym (
        ap (after_nonces ids) (aead_next_nonce-count_nonce key_id ks)
        ∙ after_nonces-count_all ids (count_nonce key_id ks)))
    ∙ same)
