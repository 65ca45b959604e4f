-- ===== src/Backend/Filter.antt =====
-- filters.c: the reversible prefilters, over the converters of the LZMA SDK.
pub mod Trial
use lrzip.Common.{
  ℕ, ◌+◌, ◌-◌, ◌<◌, ◌≤◌, ◌≡◌, refl, ◌∙◌, arith, Bool, true, false, ◌&&◌, List, length, ◌==◌, leb,
  if◌then◌else◌, Bool-cases, inl, inr,
}
use lrzip.Backend.Types.{Libs, Branch, lrz_filter_x86, lrz_filter_max}

abbrev pub lrz_filter_arm64 : ℕ
lrz_filter_arm64 = 2

abbrev pub lrz_filter_delta1 : ℕ
lrz_filter_delta1 = 3

-- `struct lrz_filter_stream`
pub record FilterStream : Type 0 where
  pub kind : ℕ
  pub encode : Bool
  pub x86_state : ℕ
  pub pc : ℕ

unfoldable pub filter_stream_init : ℕ → Bool → FilterStream
filter_stream_init kind encode = record { kind = kind; encode = encode; x86_state = 0; pc = 0 }

-- What a call of `lrz_filter_stream_conv` leaves in the buffer, returns, and keeps.
pub record Converted : Type 0 where
  pub bytes : List ℕ
  pub done : ℕ
  pub fs : FilterStream

unfoldable pub filter_stream_conv : Libs → FilterStream → List ℕ → Bool → Converted
filter_stream_conv l fs buf last =
    let x86 = l.branch_x86 fs.encode fs.pc fs.x86_state buf in
    let arm64 = l.branch_arm64 fs.encode fs.pc buf in
    let x86_done : ℕ = if last then length buf else x86.final in
    let arm64_done : ℕ = if last then length buf else arm64.final in
    if fs.kind == lrz_filter_x86
    then record {
      bytes = x86.bytes;
      done = x86_done;
      fs = record fs { x86_state = x86.state; pc = fs.pc + x86_done };
    }
    else if fs.kind == lrz_filter_arm64
    then record {
      bytes = arm64.bytes;
      done = arm64_done;
      fs = record fs { pc = fs.pc + arm64_done };
    }
    else if leb lrz_filter_delta1 fs.kind && leb fs.kind lrz_filter_max
    then record {
      bytes = l.delta fs.encode (fs.kind - lrz_filter_delta1 + 1) buf;
      done = length buf;
      fs = record fs { pc = fs.pc + length buf };
    }
    else record { bytes = buf; done = length buf; fs = record fs { pc = fs.pc + length buf } }

unfoldable pub filter_convert_mem : Libs → ℕ → Bool → List ℕ → List ℕ
filter_convert_mem l kind encode buf =
    (filter_stream_conv l (filter_stream_init kind encode) buf true).bytes

-- The converters undo themselves on a whole buffer, from the same address and state, and keep its
-- length.
pub record Reversible (l : Libs) : Type 0 where
  pub x86 : (buf : List ℕ) → (l.branch_x86 false 0 0 (l.branch_x86 true 0 0 buf).bytes).bytes ≡ buf
  pub arm64 :
      (buf : List ℕ) → (l.branch_arm64 false 0 (l.branch_arm64 true 0 buf).bytes).bytes ≡ buf
  pub delta :
      (distance : ℕ) (buf : List ℕ)
      → 1 ≤ distance
      → distance ≤ 4
      → l.delta false distance (l.delta true distance buf) ≡ buf
  pub length_x86 :
      (encode : Bool) (buf : List ℕ) → length (l.branch_x86 encode 0 0 buf).bytes ≡ length buf
  pub length_arm64 :
      (encode : Bool) (buf : List ℕ) → length (l.branch_arm64 encode 0 buf).bytes ≡ length buf
  pub length_delta :
      (encode : Bool) (distance : ℕ) (buf : List ℕ)
      → length (l.delta encode distance buf) ≡ length buf

-- The bytes alone, by the kind.
filter_bytes : Libs → ℕ → Bool → List ℕ → List ℕ
filter_bytes l kind encode buf =
    if kind == lrz_filter_x86
    then (l.branch_x86 encode 0 0 buf).bytes
    else if kind == lrz_filter_arm64
    then (l.branch_arm64 encode 0 buf).bytes
    else if leb lrz_filter_delta1 kind && leb kind lrz_filter_max
    then l.delta encode (kind - lrz_filter_delta1 + 1) buf
    else buf

filter_convert_mem_lem :
    (l : Libs) (kind : ℕ) (encode : Bool) (buf : List ℕ)
    → filter_convert_mem l kind encode buf ≡ filter_bytes l kind encode buf
unfolding filter_convert_mem filter_stream_conv filter_stream_init filter_bytes
filter_convert_mem_lem l kind encode buf = ground arith

filter_bytes-inverse :
    (l : Libs) (kind : ℕ) (buf : List ℕ)
    → Reversible l
    → filter_bytes l kind false (filter_bytes l kind true buf) ≡ buf
unfolding filter_bytes
filter_bytes-inverse l kind buf h = elim (Bool-cases (kind == lrz_filter_x86)) [
  | inl e ↦ rw e (h.x86 buf)
  | inr e ↦ rw e (elim (Bool-cases (kind == lrz_filter_arm64)) [
    | inl a ↦ rw a (h.arm64 buf)
    | inr a ↦ rw a (elim (Bool-cases (leb lrz_filter_delta1 kind && leb kind lrz_filter_max)) [
      | inl d ↦ rw d (h.delta (kind - lrz_filter_delta1 + 1) buf (omega arith) (ground arith))
      | inr d ↦ rw d
    ])
  ])
]

length-filter_bytes :
    (l : Libs) (kind : ℕ) (encode : Bool) (buf : List ℕ)
    → Reversible l
    → length (filter_bytes l kind encode buf) ≡ length buf
unfolding filter_bytes
length-filter_bytes l kind encode buf h = ground (
  arith,
  h.length_x86 encode buf,
  h.length_arm64 encode buf,
  h.length_delta encode (kind - lrz_filter_delta1 + 1) buf,
)

-- Where the converters undo themselves, so does every filter.
pub filter_convert_mem-inverse :
    (l : Libs) (kind : ℕ) (buf : List ℕ)
    → Reversible l
    → filter_convert_mem l kind false (filter_convert_mem l kind true buf) ≡ buf
filter_convert_mem-inverse l kind buf h =
    rw (filter_convert_mem_lem l kind true buf)
      (filter_convert_mem_lem l kind false _ ∙ filter_bytes-inverse l kind buf h)

pub length-filter_convert_mem :
    (l : Libs) (kind : ℕ) (encode : Bool) (buf : List ℕ)
    → Reversible l
    → length (filter_convert_mem l kind encode buf) ≡ length buf
length-filter_convert_mem l kind encode buf h =
    rw (filter_convert_mem_lem l kind encode buf) (length-filter_bytes l kind encode buf h)
