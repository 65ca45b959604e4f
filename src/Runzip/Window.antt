-- ===== src/Runzip/Window.antt =====
-- runzip.c, the batched window on the control stream: `s0_need` and the reads through it.
use lrzip.Common.{
  ℕ, zero, suc, ◌+◌, ◌-◌, ◌^◌, ◌≤◌, ◌<◌, min, ◌≡◌, refl, sym, ap, ◌∙◌, arith, List, [], ◌∷◌, ◌++◌,
  length, take, drop, ltb, leb, ◌==◌, if◌then◌else◌, Bool, true, false, Option, none, some,
  length-append, length-take, length-drop, take-append-drop, take-append, drop-append, append_assoc,
  Bool-cases, inl, inr, ◌>>=◌, drop-append_le, take-append_le, drop-drop, ap₂, leb→le, ltb→lt,
  ==_refl, ==_iff,
}
use lrzip.Common.Bytes.{from_le, le_bytes, length-le_bytes, from_le-le_bytes}
use lrzip.Stream.Read.{InStream, remaining, read_stream, read_stream_lem}

abbrev pub runzip_s0_win : ℕ
runzip_s0_win = 4096

-- `struct runzip_s0`: the bytes `buf[0..end)` and the position in them; with the stream behind.
pub record Window : Type 0 where
  pub buf : List ℕ
  pub pos : ℕ
  pub stream : InStream

-- The control bytes still to be read.
abbrev pub available : Window → List ℕ
available w = drop w.pos w.buf ++ remaining w.stream

pub record IsWindow (w : Window) : Type 0 where
  pub inside : w.pos ≤ length w.buf
  pub bounded : length w.buf ≤ runzip_s0_win

abbrev pub have : Window → ℕ
have w = length w.buf - w.pos

abbrev pub fresh_window : InStream → Window
fresh_window s = record { buf = []; pos = 0; stream = s }

-- One `read_stream` of the loop, of all the space that is left.
pub after_read : Window → Window
after_read w =
    let r = read_stream w.stream (runzip_s0_win - length w.buf) in
    record w { buf = w.buf ++ r.0; stream = r.1 }

-- The loop `while (s0->end - s0->pos < need)`. `space <= 0` is a full window, and `got < space`
-- one that the read has not filled; a read of nothing is such a short one. A round that reads all of `space` fills the window,
-- so the second round is the last.
pub s0_fill : ℕ → Window → ℕ → Bool × Window
s0_fill zero w need = (leb need (have w), w)
s0_fill (suc fuel) w need =
    let rest = s0_fill fuel (after_read w) need in
    if leb need (have w)
    then (true, w)
    else if length w.buf == runzip_s0_win
    then (false, w)
    else if ltb (length (after_read w).buf) runzip_s0_win
    then (leb need (have (after_read w)), after_read w)
    else rest

-- `memmove` of what is left to the front, then the loop.
pub s0_need : Window → ℕ → Bool × Window
s0_need w need =
    if leb need (have w)
    then (true, w)
    else s0_fill 2 (record w { buf = drop w.pos w.buf; pos = 0 }) need

-- `memcpy` of `n` bytes out of the window, if `s0_need` has them.
taken : ℕ → Bool × Window → Option (List ℕ × Window)
taken n r =
    if r.0 then some (take n (drop r.1.pos r.1.buf), record (r.1) { pos = r.1.pos + n }) else none

unfoldable pub s0_bytes : Window → ℕ → Option (List ℕ × Window)
unfolding s0_need s0_fill after_read taken
s0_bytes w n = taken n (s0_need w n)

-- `none` is the return of -1.
unfoldable pub s0_vchars : Window → ℕ → Option (ℕ × Window)
unfolding s0_bytes
s0_vchars w len = s0_bytes w len >>= λ r. some (from_le (r.0), r.1)

-- The head byte and the length field behind it.
head_and_length : List ℕ → ℕ × ℕ
head_and_length [] = (0, 0)
head_and_length (h ∷ bs) = (h, from_le bs)

-- `lb` is `control->chunk_bytes`.
unfoldable pub read_header : ℕ → Window → Option (ℕ × ℕ × Window)
unfolding s0_bytes head_and_length
read_header lb w =
    s0_bytes w (1 + lb) >>= λ r. some ((head_and_length (r.0)).0, (head_and_length (r.0)).1, r.1)

-- What a fill keeps, and what it promises.
record Filled (w : Window) (need : ℕ) (r : Bool × Window) : Type 0 where
  window : IsWindow r.1
  kept : available r.1 ≡ available w
  enough : need ≤ length (available w) → need ≤ runzip_s0_win → r.0 ≡ true
  honest : r.0 ≡ true → need ≤ have r.1

length-available : (w : Window) → length (available w) ≡ have w + length (remaining w.stream)
length-available w =
    omega (arith, length-append (drop w.pos w.buf) (remaining w.stream), length-drop w.pos w.buf)

module _ (w : Window) (h : IsWindow w) where
  space : ℕ
  space = runzip_s0_win - length w.buf

  length-after_read :
      length (after_read w).buf ≡ length w.buf + min space (length (remaining w.stream))
  unfolding after_read space
  length-after_read = omega (
    arith,
    length-append w.buf (read_stream w.stream space).0,
    ap length (read_stream_lem w.stream space).0,
    length-take space (remaining w.stream),
  )

  after_read-IsWindow : IsWindow (after_read w)
  unfolding space
  after_read-IsWindow = record {
    inside =
        unfold after_read in
        omega (arith, length-append w.buf (read_stream w.stream space).0, h.inside);
    bounded = omega (arith, length-after_read, h.bounded);
  }

  available-after_read : available (after_read w) ≡ available w
  unfolding after_read space
  available-after_read =
      ap (λ t. t ++ remaining (read_stream w.stream space).1)
        (drop-append_le w.pos w.buf (read_stream w.stream space).0 h.inside)
      ∙ append_assoc (drop w.pos w.buf) _ _
      ∙ ap (λ t. drop w.pos w.buf ++ t)
          (ap₂ ◌++◌ (read_stream_lem w.stream space).0 (read_stream_lem w.stream space).1
            ∙ take-append-drop space (remaining w.stream))

  -- A short read drains the stream.
  after_read_short :
      length (after_read w).buf < runzip_s0_win
      → length (available (after_read w)) ≡ have (after_read w)
  unfolding space
  after_read_short lt = omega (arith, length-available (after_read w), length-after_read, drained)
    where
      drained : length (remaining (after_read w).stream) ≡ length (remaining w.stream) - space
      drained =
          unfold after_read in
          (ap length (read_stream_lem w.stream space).1 ∙ length-drop space (remaining w.stream))

  Filled-here : (need : ℕ) → leb need (have w) ≡ true → Filled w need (true, w)
  Filled-here need e = record {
    window = h;
    kept = refl;
    enough = λ _ _. refl;
    honest = λ _. leb→le _ _ e;
  }

  -- A window that is full and begins at 0 has room for no more.
  s0_fill_full :
      (fuel need : ℕ)
      → w.pos ≡ 0
      → length w.buf ≡ runzip_s0_win
      → Filled w need (s0_fill (suc fuel) w need)
  unfolding s0_fill
  s0_fill_full fuel need z full = elim (Bool-cases (leb need (have w))) [
    | inl e ↦ rw e (Filled-here need e)
    | inr e ↦
        rw (e, ==_refl _ _ full)
          (record {
            window = h;
            kept = refl;
            enough = λ _ small. absurd (ground arith);
            honest = λ f. cc;
          })
  ]

pos-after_read : (w : Window) → (after_read w).pos ≡ w.pos
unfolding after_read
pos-after_read w = refl

Filled-after_read :
    {w : Window} {need : ℕ} {r : Bool × Window}
    → IsWindow w
    → Filled (after_read w) need r
    → Filled w need r
Filled-after_read {w} h f = record {
  window = f.window;
  kept = f.kept ∙ available-after_read w h;
  enough = rw (available-after_read w h) at f.enough;
  honest = f.honest;
}

s0_fill-Filled : (w : Window) (need : ℕ) → IsWindow w → w.pos ≡ 0 → Filled w need (s0_fill 2 w need)
unfolding s0_fill
s0_fill-Filled w need h z = elim (Bool-cases (leb need (have w))) [
  | inl e ↦ rw e (Filled-here w h need e)
  | inr e ↦ elim (Bool-cases (length w.buf == runzip_s0_win)) [
    | inl full ↦ s0_fill_full w h 1 need z ((==_iff _ _).0 full)
    | inr room ↦
        rw (e, room)
          (elim (Bool-cases (ltb (length (after_read w).buf) runzip_s0_win)) [
            | inl short ↦ rw short (
                Filled-after_read h (record {
                  window = after_read-IsWindow w h;
                  kept = refl;
                  enough = λ n _. ground (arith, after_read_short w h (ltb→lt _ _ short));
                  honest = λ e'. leb→le _ _ e';
                }))
            | inr all ↦ rw all (
                Filled-after_read h (
                  s0_fill_full (after_read w) (after_read-IsWindow w h) 0 need
                    (pos-after_read w ∙ z) (ground (arith, after_read-IsWindow w h))))
          ])
  ]
]

-- `s0_need` loses nothing, and has the bytes exactly when the stream has them.
s0_need-Filled : (w : Window) (need : ℕ) → IsWindow w → Filled w need (s0_need w need)
unfolding s0_need
s0_need-Filled w need h = elim (Bool-cases (leb need (have w))) [
  | inl e ↦ rw e (Filled-here w h need e)
  | inr e ↦ rw e (moved (s0_fill-Filled front need front-IsWindow refl))
]
  where
    front : Window
    front = record w { buf = drop w.pos w.buf; pos = 0 }

    front-IsWindow : IsWindow front
    front-IsWindow = record {
      inside = omega arith;
      bounded = omega (arith, length-drop w.pos w.buf, h.bounded);
    }

    moved : {r : Bool × Window} → Filled front need r → Filled w need r
    moved f = record { window = f.window; kept = f.kept; enough = f.enough; honest = f.honest }

-- Bytes that stand in front of what is available are read, and nothing more.
pub s0_bytes_lem :
    (w : Window) (bytes rest : List ℕ)
    → IsWindow w
    → available w ≡ bytes ++ rest
    → length bytes ≤ runzip_s0_win
    → (w' : Window) × (s0_bytes w (length bytes) ≡ some (bytes, w'))
      × IsWindow w'
      × (available w' ≡ rest)
unfolding s0_bytes
s0_bytes_lem w bytes rest h e small = go (s0_need-Filled w n h)
  where
    n : ℕ
    n = length bytes

    r : Bool × Window
    r = s0_need w n

    go :
        Filled w n r
        → (w' : Window) × (taken n r ≡ some (bytes, w')) × IsWindow w' × (available w' ≡ rest)
    go f =
        let long : n ≤ length (available w) =
          omega (arith, ap length e, length-append bytes rest) in
        let ok : r.0 ≡ true = f.enough long small in
        let front : List ℕ = drop r.1.pos r.1.buf in
        let fits : n ≤ length front = omega (arith, f.honest ok, length-drop r.1.pos r.1.buf) in
        let all : front ++ remaining r.1.stream ≡ bytes ++ rest = f.kept ∙ e in
        let w' : Window = record (r.1) { pos = r.1.pos + n } in
        let behind : List ℕ = remaining r.1.stream in
        (
          w',
          rw ok (
              ap (λ t. some (t, w'))
                (sym (take-append_le n front behind fits)
                  ∙ ap (take n) all
                  ∙ take-append n bytes rest refl)),
          record {
            inside = omega (arith, f.honest ok, f.window.inside);
            bounded = f.window.bounded;
          },
          ap (λ t. t ++ behind) (sym (drop-drop n r.1.pos r.1.buf))
              ∙ sym (drop-append_le n front behind fits)
              ∙ ap (drop n) all
              ∙ drop-append n bytes rest refl,
        )

-- A read that finds its bytes: the value, with the window behind it.
pub record Reads {ℓ} (A : Type ℓ) (result : Option (A × Window)) (a : A) (rest : List ℕ)
    : Type ℓ where
  pub window : Window
  pub returns : result ≡ some (a, window)
  pub is_window : IsWindow window
  pub behind : available window ≡ rest

-- Where a number that fits `n` bytes stands next in the control stream, and the window can hold
-- it, `s0_vchars` returns it and leaves what is behind it.
pub s0_vchars_lem :
    (w : Window) (n v : ℕ) (rest : List ℕ)
    → IsWindow w
    → available w ≡ le_bytes n v ++ rest
    → v < 256 ^ n
    → n ≤ runzip_s0_win
    → Reads ℕ (s0_vchars w n) v rest
unfolding s0_vchars
s0_vchars_lem w n v rest h e fits small =
    go (s0_bytes_lem w (le_bytes n v) rest h e (omega (arith, length-le_bytes n v)))
  where
    go :
        (w' : Window) × (s0_bytes w (length (le_bytes n v)) ≡ some (le_bytes n v, w'))
          × IsWindow w'
          × (available w' ≡ rest)
        → Reads ℕ (s0_bytes w n >>= λ r. some (from_le (r.0), r.1)) v rest
    go (w', ret, is, beh) = record {
      window = w';
      returns =
          rw (rw (length-le_bytes n v) at ret) (ap (λ t. some (t, w')) (from_le-le_bytes n v fits));
      is_window = is;
      behind = beh;
    }

-- Where a head byte and a length that fits `lb` bytes stand next in the control stream, and the
-- window can hold them, `read_header` returns them and leaves what is behind them.
pub read_header_lem :
    (lb : ℕ) (w : Window) (head len : ℕ) (rest : List ℕ)
    → IsWindow w
    → available w ≡ (head ∷ le_bytes lb len) ++ rest
    → len < 256 ^ lb
    → lb < runzip_s0_win
    → (w' : Window) × (read_header lb w ≡ some (head, len, w'))
      × IsWindow w'
      × (available w' ≡ rest)
unfolding read_header head_and_length
read_header_lem lb w head len rest h e fits small =
    go (s0_bytes_lem w (head ∷ le_bytes lb len) rest h e (omega (arith, length-le_bytes lb len)))
  where
    long : length (head ∷ le_bytes lb len) ≡ 1 + lb
    long = omega (arith, length-le_bytes lb len)

    go :
        (w' : Window) × (s0_bytes w (length (head ∷ le_bytes lb len))
            ≡ some (head ∷ le_bytes lb len, w'))
          × IsWindow w'
          × (available w' ≡ rest)
        → (w' : Window) × (read_header lb w ≡ some (head, len, w'))
          × IsWindow w'
          × (available w' ≡ rest)
    go (w', ret, is, beh) = (
      w',
      rw (rw long at ret) (ap (λ t. some (head, t, w')) (from_le-le_bytes lb len fits)),
      is,
      beh,
    )
