-- ===== src/Rzip/Tokens.antt =====
-- The token language that rzip.c writes and runzip.c reads: a chunk as runs of literal bytes and
-- copies from earlier in the chunk, split over a control stream and a literal stream.
use lrzip.Common.{
  ℕ, ◌+◌, ◌-◌, ◌^◌, ◌≤◌, ◌<◌, ◌≡◌, refl, sym, ap, ◌∙◌, arith, List, [], ◌∷◌, ◌++◌, append_assoc,
}
use lrzip.Common.Slice.{slice}
use lrzip.Common.Bytes.{le_bytes}

pub data Token : Type 0 where
  literal : ℕ → Token
  copy : ℕ → ℕ → Token

abbrev pub token_len : Token → ℕ
token_len (literal n) = n
token_len (copy ofs n) = n

module _ (chunk_bytes : ℕ) where
  -- The control bytes of a token: head, length, and the distance of a copy.
  abbrev pub control_of : Token → List ℕ
  control_of (literal n) = 0 ∷ le_bytes 2 n
  control_of (copy ofs n) = 1 ∷ (le_bytes 2 n ++ le_bytes chunk_bytes ofs)

  abbrev pub controls : List Token → List ℕ
  controls [] = []
  controls (t ∷ ts) = control_of t ++ controls ts

  pub controls-append : (ts us : List Token) → controls (ts ++ us) ≡ controls ts ++ controls us
  controls-append [] us = refl
  controls-append (t ∷ ts) us =
      ap (λ c. control_of t ++ c) (controls-append ts us)
      ∙ sym (append_assoc (control_of t) (controls ts) (controls us))

-- The position after a run of tokens.
abbrev pub after : ℕ → List Token → ℕ
after pos [] = pos
after pos (t ∷ ts) = after (pos + token_len t) ts

pub after-append : (pos : ℕ) (ts us : List Token) → after pos (ts ++ us) ≡ after (after pos ts) us
after-append pos [] us = refl
after-append pos (t ∷ ts) us = after-append (pos + token_len t) ts us

module _ (buf : ℕ → ℕ) where
  abbrev pub literal_of : ℕ → Token → List ℕ
  literal_of pos (literal n) = slice buf pos n
  literal_of pos (copy ofs n) = []

  abbrev pub literals : ℕ → List Token → List ℕ
  literals pos [] = []
  literals pos (t ∷ ts) = literal_of pos t ++ literals (pos + token_len t) ts

  pub literals-append :
      (pos : ℕ) (ts us : List Token)
      → literals pos (ts ++ us) ≡ literals pos ts ++ literals (after pos ts) us
  literals-append pos [] us = refl
  literals-append pos (t ∷ ts) us =
      ap (λ c. literal_of pos t ++ c) (literals-append (pos + token_len t) ts us)
      ∙ sym (append_assoc (literal_of pos t) _ _)

  -- A copy repeats bytes that stand before it, at a distance that its field can hold.
  pub record IsCopy (chunk_bytes pos ofs n : ℕ) : Type 0 where
    pub ofs_pos : 1 ≤ ofs
    pub ofs_back : ofs ≤ pos
    pub ofs_fits : ofs < 256 ^ chunk_bytes
    pub same : (k : ℕ) → k < n → buf (pos - ofs + k) ≡ buf (pos + k)

  -- A copy can be cut short, and the rest of it is a copy.
  pub IsCopy-front :
      {chunk_bytes pos ofs m n : ℕ}
      → m ≤ n
      → IsCopy chunk_bytes pos ofs n
      → IsCopy chunk_bytes pos ofs m
  IsCopy-front h c = record {
    ofs_pos = c.ofs_pos;
    ofs_back = c.ofs_back;
    ofs_fits = c.ofs_fits;
    same = λ k hk. c.same k (omega arith);
  }

  pub IsCopy-back :
      {chunk_bytes pos ofs m n : ℕ}
      → m ≤ n
      → IsCopy chunk_bytes pos ofs n
      → IsCopy chunk_bytes (pos + m) ofs (n - m)
  IsCopy-back {chunk_bytes} {pos} {ofs} {m} {n} h c = record {
    ofs_pos = c.ofs_pos;
    ofs_back = omega (arith, c.ofs_back);
    ofs_fits = c.ofs_fits;
    same = λ k hk.
        let e : pos + m - ofs + k ≡ pos - ofs + (m + k) = omega (arith, c.ofs_back) in
        let f : pos + m + k ≡ pos + (m + k) = omega arith in
        rw (e, f) (c.same (m + k) (omega arith));
  }

  module _ (chunk_bytes : ℕ) where
    abbrev pub IsToken : ℕ → Token → Type 0
    IsToken pos (literal n) = Unit {0}
    IsToken pos (copy ofs n) = IsCopy chunk_bytes pos ofs n

    -- Every token is non-empty, short enough for its length field, and true of the chunk.
    abbrev pub IsTokens : ℕ → List Token → Type 0
    IsTokens pos [] = Unit {0}
    IsTokens pos (t ∷ ts) =
        (1 ≤ token_len t) × (token_len t ≤ 0xffff) × IsToken pos t × IsTokens (pos + token_len t) ts

    pub IsTokens-append :
        (pos : ℕ) (ts us : List Token)
        → IsTokens pos ts
        → IsTokens (after pos ts) us
        → IsTokens pos (ts ++ us)
    IsTokens-append pos [] us h k = k
    IsTokens-append pos (t ∷ ts) us h k =
        (h.0, h.1, h.2, IsTokens-append (pos + token_len t) ts us h.3 k)
